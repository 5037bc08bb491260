-- ===== src/Builders/StatefulSet.antt =====
-- pkg/resources/builders/statefulset.go. A nil selector or
-- number of replicas is `none`.
use controlplane_operator.Base.{ℕ, String, Option, none, some, List, [], ◌++◌}
use controlplane_operator.Api.{ObjectMeta}
use controlplane_operator.Utils.Text.{merge_into}
use controlplane_operator.Cluster.{VolumeMount}
use controlplane_operator.Builders.Meta
use controlplane_operator.Builders.Pod
use controlplane_operator.Builders.Pod.{Container, PodTemplate, Volume}

pub record VolumeClaim : Type 0 where
  pub name : String
  pub access_modes : List String
  pub storage : String

pub record StatefulSet : Type 0 where
  pub meta : ObjectMeta
  pub service_name : String
  pub replicas : Option ℕ
  pub match_labels : Option (List (String × String))
  pub template : PodTemplate
  pub volume_claim_templates : List VolumeClaim

abbrev pub new_stateful_set : StatefulSet
new_stateful_set = record {
  meta = Meta.empty_meta;
  service_name = "";
  replicas = none;
  match_labels = none;
  template = Pod.empty_pod;
  volume_claim_templates = [];
}

abbrev pub with_labels : List (String × String) → StatefulSet → StatefulSet
with_labels labels s = record s { meta = Meta.with_labels labels s.meta }

abbrev pub with_name : String → StatefulSet → StatefulSet
with_name name s = record s { meta = Meta.with_name name s.meta }

abbrev pub with_namespace : String → StatefulSet → StatefulSet
with_namespace ns s = record s { meta = Meta.with_namespace ns s.meta }

abbrev pub with_service_name : String → StatefulSet → StatefulSet
with_service_name name s = record s { service_name = name }

abbrev pub with_replicas : ℕ → StatefulSet → StatefulSet
with_replicas replicas s = record s { replicas = some replicas }

-- The selector is merged, and the pods get the same labels.
abbrev pub with_selector : List (String × String) → StatefulSet → StatefulSet
with_selector sel s = record s {
  match_labels = some (merge_into (Meta.or_empty s.match_labels) sel);
  template = Pod.with_labels (some sel) s.template;
}

abbrev pub with_container : Container → StatefulSet → StatefulSet
with_container c s = record s { template = Pod.with_container c s.template }

abbrev pub add_volumes : List Volume → StatefulSet → StatefulSet
add_volumes vols s = record s { template = Pod.add_volumes vols s.template }

abbrev pub with_volume_claims : List VolumeClaim → StatefulSet → StatefulSet
with_volume_claims vcts s = record s { volume_claim_templates = s.volume_claim_templates ++ vcts }

abbrev pub with_annotations : List (String × String) → StatefulSet → StatefulSet
with_annotations ann s = record s { meta = Meta.with_annotations ann s.meta }

abbrev pub with_service_account : String → StatefulSet → StatefulSet
with_service_account sa s = record s { template = Pod.with_service_account sa s.template }

abbrev pub add_volume_mounts : String → List VolumeMount → StatefulSet → StatefulSet
add_volume_mounts name mounts s = record s {
  template = (Pod.add_volume_mounts name mounts s.template).0;
}

abbrev pub patch_container : String → (Container → Container) → StatefulSet → StatefulSet
patch_container name fn s = record s { template = (Pod.patch_container name fn s.template).0 }

-- A deep copy has the same value.
abbrev pub build : StatefulSet → StatefulSet
build s = s
