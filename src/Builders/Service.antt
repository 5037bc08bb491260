-- ===== src/Builders/Service.antt =====
-- pkg/resources/builders/service.go.
use controlplane_operator.Base.{ℕ, String, Option, List, [], ◌∷◌, ◌++◌}
use controlplane_operator.Net.{Ip, Net, ip_string}
use controlplane_operator.Api.{ObjectMeta}
use controlplane_operator.Utils.Text.{merge_into}
use controlplane_operator.Builders.Meta

pub record ServicePort : Type 0 where
  pub name : String
  pub port : ℕ
  pub target_port : ℕ
  pub protocol : String

pub record Service : Type 0 where
  pub meta : ObjectMeta
  pub ports : List ServicePort
  pub selector : List (String × String)
  pub kind : String
  pub cluster_ip : String

abbrev pub new_service : Service
new_service = record {
  meta = Meta.empty_meta;
  ports = [];
  selector = [];
  kind = "ClusterIP";
  cluster_ip = "";
}

abbrev pub with_labels : List (String × String) → Service → Service
with_labels labels s = record s { meta = Meta.with_labels labels s.meta }

abbrev pub with_name : String → Service → Service
with_name name s = record s { meta = Meta.with_name name s.meta }

abbrev pub with_namespace : String → Service → Service
with_namespace ns s = record s { meta = Meta.with_namespace ns s.meta }

abbrev pub with_selector : List (String × String) → Service → Service
with_selector sel s = record s { selector = merge_into s.selector sel }

abbrev pub with_type : String → Service → Service
with_type t s = record s { kind = t }

abbrev pub headless : Service → Service
headless s = record s { cluster_ip = "None" }

abbrev pub add_ports : List ServicePort → Service → Service
add_ports ports s = record s { ports = s.ports ++ ports }

abbrev pub add_port : String → ℕ → ℕ → String → Service → Service
add_port name port target_port protocol s =
    add_ports
      (record { name = name; port = port; target_port = target_port; protocol = protocol } ∷ []) s

abbrev pub with_annotations : List (String × String) → Service → Service
with_annotations ann s = record s { meta = Meta.with_annotations ann s.meta }

-- The text of the address, as package net spells it.
abbrev pub with_cluster_ip : Net → Option Ip → Service → Service
with_cluster_ip net ipaddr s = record s { cluster_ip = ip_string net ipaddr }

-- A deep copy has the same value.
abbrev pub build : Service → Service
build s = s
