-- ===== src/Builders/Rbac.antt =====
-- pkg/resources/builders/role.go and clusterrole.go: rules, references and subjects.
pub mod Role
pub mod RoleBinding
pub mod ClusterRole
pub mod ClusterRoleBinding
use controlplane_operator.Base.{String, List}

pub record PolicyRule : Type 0 where
  pub api_groups : List String
  pub resources : List String
  pub resource_names : List String
  pub verbs : List String

pub record RoleRef : Type 0 where
  pub api_group : String
  pub kind : String
  pub name : String

pub record Subject : Type 0 where
  pub api_group : String
  pub kind : String
  pub name : String
  pub namespace : String
