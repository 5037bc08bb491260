-- ===== src/Builders/Secret.antt =====
-- pkg/resources/builders/secret.go. The API server merges string_data into contents when it stores a
-- Secret.
use controlplane_operator.Base.{String, List, [], insert}
use controlplane_operator.Api.{ObjectMeta}
use controlplane_operator.Builders.Meta
use controlplane_operator.Utils.Kubeconfig.{Bytes}

pub record Secret : Type 0 where
  pub meta : ObjectMeta
  pub kind : String
  pub contents : List (String × Bytes)
  pub string_data : List (String × String)

abbrev pub new_secret : Secret
new_secret = record { meta = Meta.empty_meta; kind = ""; contents = []; string_data = [] }

abbrev pub with_labels : List (String × String) → Secret → Secret
with_labels labels c = record c { meta = Meta.with_labels labels c.meta }

abbrev pub with_annotations : List (String × String) → Secret → Secret
with_annotations ann c = record c { meta = Meta.with_annotations ann c.meta }

abbrev pub with_name : String → Secret → Secret
with_name name c = record c { meta = Meta.with_name name c.meta }

abbrev pub with_namespace : String → Secret → Secret
with_namespace ns c = record c { meta = Meta.with_namespace ns c.meta }

abbrev pub with_type : String → Secret → Secret
with_type t c = record c { kind = t }

abbrev pub put : String → String → Secret → Secret
put key val c = record c { string_data = insert key val c.string_data }

abbrev pub put_bytes : String → Bytes → Secret → Secret
put_bytes key val c = record c { contents = insert key val c.contents }

-- A deep copy has the same value.
abbrev pub build : Secret → Secret
build c = c
