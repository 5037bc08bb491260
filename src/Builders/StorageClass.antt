-- ===== src/Builders/StorageClass.antt =====
-- pkg/resources/builders/storageclass.go.
use controlplane_operator.Base.{String, Option, none, some, List}
use controlplane_operator.Api.{ObjectMeta}
use controlplane_operator.Builders.Meta

pub record StorageClass : Type 0 where
  pub meta : ObjectMeta
  pub provisioner : String
  pub reclaim_policy : Option String
  pub volume_binding_mode : Option String

abbrev pub new_storage_class : StorageClass
new_storage_class = record {
  meta = Meta.empty_meta;
  provisioner = "";
  reclaim_policy = none;
  volume_binding_mode = none;
}

abbrev pub with_labels : List (String × String) → StorageClass → StorageClass
with_labels labels s = record s { meta = Meta.with_labels labels s.meta }

abbrev pub with_annotations : List (String × String) → StorageClass → StorageClass
with_annotations ann s = record s { meta = Meta.with_annotations ann s.meta }

abbrev pub with_name : String → StorageClass → StorageClass
with_name name s = record s { meta = Meta.with_name name s.meta }

abbrev pub with_provisioner : String → StorageClass → StorageClass
with_provisioner name s = record s { provisioner = name }

abbrev pub with_policy : String → StorageClass → StorageClass
with_policy policy s = record s { reclaim_policy = some policy }

abbrev pub with_binding_mode : String → StorageClass → StorageClass
with_binding_mode mode s = record s { volume_binding_mode = some mode }

-- A deep copy has the same value.
abbrev pub build : StorageClass → StorageClass
build s = s
