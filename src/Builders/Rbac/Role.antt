-- ===== src/Builders/Rbac/Role.antt =====
-- pkg/resources/builders/role.go, the template of a Role.
use controlplane_operator.Base.{String, List, [], ◌++◌}
use controlplane_operator.Api.{ObjectMeta}
use controlplane_operator.Builders.Meta
use controlplane_operator.Builders.Rbac.{PolicyRule}

pub record Role : Type 0 where
  pub meta : ObjectMeta
  pub rules : List PolicyRule

abbrev pub new_role : Role
new_role = record { meta = Meta.empty_meta; rules = [] }

abbrev pub with_labels : List (String × String) → Role → Role
with_labels labels r = record r { meta = Meta.with_labels labels r.meta }

abbrev pub with_annotations : List (String × String) → Role → Role
with_annotations ann r = record r { meta = Meta.with_annotations ann r.meta }

abbrev pub with_name : String → Role → Role
with_name name r = record r { meta = Meta.with_name name r.meta }

abbrev pub with_namespace : String → Role → Role
with_namespace ns r = record r { meta = Meta.with_namespace ns r.meta }

abbrev pub with_rules : List PolicyRule → Role → Role
with_rules rules r = record r { rules = r.rules ++ rules }

-- A deep copy has the same value.
abbrev pub build : Role → Role
build r = r
