-- ===== src/Builders/Rbac/ClusterRoleBinding.antt =====
-- pkg/resources/builders/clusterrole.go, the template of a ClusterRoleBinding.
use controlplane_operator.Base.{String, List, [], ◌++◌}
use controlplane_operator.Api.{ObjectMeta}
use controlplane_operator.Builders.Meta
use controlplane_operator.Builders.Rbac.{RoleRef, Subject}

pub record ClusterRoleBinding : Type 0 where
  pub meta : ObjectMeta
  pub role_ref : RoleRef
  pub subjects : List Subject

abbrev pub new_cluster_role_binding : ClusterRoleBinding
new_cluster_role_binding = record {
  meta = Meta.empty_meta;
  role_ref = record { api_group = ""; kind = ""; name = "" };
  subjects = [];
}

abbrev pub with_labels : List (String × String) → ClusterRoleBinding → ClusterRoleBinding
with_labels labels b = record b { meta = Meta.with_labels labels b.meta }

abbrev pub with_annotations : List (String × String) → ClusterRoleBinding → ClusterRoleBinding
with_annotations ann b = record b { meta = Meta.with_annotations ann b.meta }

abbrev pub with_name : String → ClusterRoleBinding → ClusterRoleBinding
with_name name b = record b { meta = Meta.with_name name b.meta }

abbrev pub with_refs : RoleRef → List Subject → ClusterRoleBinding → ClusterRoleBinding
with_refs role_ref subjects b = record b { subjects = b.subjects ++ subjects; role_ref = role_ref }

-- A deep copy has the same value.
abbrev pub build : ClusterRoleBinding → ClusterRoleBinding
build b = b
