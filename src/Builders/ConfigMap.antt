-- ===== src/Builders/ConfigMap.antt =====
-- pkg/resources/builders/configmap.go.
use controlplane_operator.Base.{String, List, [], insert}
use controlplane_operator.Api.{ObjectMeta}
use controlplane_operator.Builders.Meta
use controlplane_operator.Utils.Kubeconfig.{Bytes}

pub record ConfigMap : Type 0 where
  pub meta : ObjectMeta
  pub contents : List (String × String)
  pub binary_data : List (String × Bytes)

abbrev pub new_config_map : ConfigMap
new_config_map = record { meta = Meta.empty_meta; contents = []; binary_data = [] }

abbrev pub with_name : String → ConfigMap → ConfigMap
with_name name c = record c { meta = Meta.with_name name c.meta }

abbrev pub with_namespace : String → ConfigMap → ConfigMap
with_namespace ns c = record c { meta = Meta.with_namespace ns c.meta }

abbrev pub put : String → String → ConfigMap → ConfigMap
put key val c = record c { contents = insert key val c.contents }

abbrev pub with_annotations : List (String × String) → ConfigMap → ConfigMap
with_annotations ann c = record c { meta = Meta.with_annotations ann c.meta }

abbrev pub with_labels : List (String × String) → ConfigMap → ConfigMap
with_labels labels c = record c { meta = Meta.with_labels labels c.meta }

abbrev pub put_bytes : String → Bytes → ConfigMap → ConfigMap
put_bytes key val c = record c { binary_data = insert key val c.binary_data }

-- A deep copy has the same value.
abbrev pub build : ConfigMap → ConfigMap
build c = c
