-- ===== src/Builders/Rbac/ClusterRole.antt =====
-- pkg/resources/builders/clusterrole.go, the template of a ClusterRole.
use controlplane_operator.Base.{String, List, [], ◌++◌}
use controlplane_operator.Api.{ObjectMeta}
use controlplane_operator.Builders.Meta
use controlplane_operator.Builders.Rbac.{PolicyRule}

pub record ClusterRole : Type 0 where
  pub meta : ObjectMeta
  pub rules : List PolicyRule

abbrev pub new_cluster_role : ClusterRole
new_cluster_role = record { meta = Meta.empty_meta; rules = [] }

abbrev pub with_labels : List (String × String) → ClusterRole → ClusterRole
with_labels labels c = record c { meta = Meta.with_labels labels c.meta }

abbrev pub with_annotations : List (String × String) → ClusterRole → ClusterRole
with_annotations ann c = record c { meta = Meta.with_annotations ann c.meta }

abbrev pub with_name : String → ClusterRole → ClusterRole
with_name name c = record c { meta = Meta.with_name name c.meta }

abbrev pub with_rules : List PolicyRule → ClusterRole → ClusterRole
with_rules rules c = record c { rules = c.rules ++ rules }

-- A deep copy has the same value.
abbrev pub build : ClusterRole → ClusterRole
build c = c
