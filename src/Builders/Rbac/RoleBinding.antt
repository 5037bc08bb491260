-- ===== src/Builders/Rbac/RoleBinding.antt =====
-- pkg/resources/builders/role.go, the template of a RoleBinding.
use controlplane_operator.Base.{String, List, [], ◌++◌}
use controlplane_operator.Api.{ObjectMeta}
use controlplane_operator.Builders.Meta
use controlplane_operator.Builders.Rbac.{RoleRef, Subject}

pub record RoleBinding : Type 0 where
  pub meta : ObjectMeta
  pub role_ref : RoleRef
  pub subjects : List Subject

abbrev pub new_role_binding : RoleBinding
new_role_binding = record {
  meta = Meta.empty_meta;
  role_ref = record { api_group = ""; kind = ""; name = "" };
  subjects = [];
}

abbrev pub with_labels : List (String × String) → RoleBinding → RoleBinding
with_labels labels b = record b { meta = Meta.with_labels labels b.meta }

abbrev pub with_annotations : List (String × String) → RoleBinding → RoleBinding
with_annotations ann b = record b { meta = Meta.with_annotations ann b.meta }

abbrev pub with_name : String → RoleBinding → RoleBinding
with_name name b = record b { meta = Meta.with_name name b.meta }

abbrev pub with_namespace : String → RoleBinding → RoleBinding
with_namespace ns b = record b { meta = Meta.with_namespace ns b.meta }

abbrev pub with_refs : RoleRef → List Subject → RoleBinding → RoleBinding
with_refs role_ref subjects b = record b { subjects = b.subjects ++ subjects; role_ref = role_ref }

-- A deep copy has the same value.
abbrev pub build : RoleBinding → RoleBinding
build b = b
