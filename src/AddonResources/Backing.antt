-- ===== src/AddonResources/Backing.antt =====
-- What it means that the objects of a list have what they refer to, for pkg/resources/addons.
pub mod Longer
use controlplane_operator.Base.{
  String, ◌≡◌, Bool, true, false, ◌&&◌, ◌||◌, Option, none, some, List, [], ◌∷◌, ◌++◌, nat_eq,
  str_eq, is_some, lookup, if◌then◌else◌,
}
use controlplane_operator.Cluster.{VolumeMount}
use controlplane_operator.Builders.Pod.{
  Container, ContainerPort, PodTemplate, Volume, VolumeSource, config_map_source,
}
use controlplane_operator.Builders.Rbac.{PolicyRule, Subject}
use controlplane_operator.Builders.Service.{Service, ServicePort}
use controlplane_operator.AddonResources.Objects.{
  Object, cluster_role_binding_object, role_object, role_binding_object, config_map_object,
  service_object, daemon_set_object, deployment_object, kind_of, meta_of,
}

-- Whether one element passes the test; an early hit is found although a later test is not decided.
abbrev pub any {ℓ} : {A : Type ℓ} → (A → Bool) → List A → Bool
any test [] = false
any test (x ∷ xs) = any test xs || test x

abbrev pub all {ℓ} : {A : Type ℓ} → (A → Bool) → List A → Bool
all test [] = true
all test (x ∷ xs) = all test xs && test x

abbrev pub is_object : String → String → String → Object → Bool
is_object kind namespace name o =
    str_eq (kind_of o) kind
    && (str_eq (meta_of o).namespace namespace && str_eq (meta_of o).name name)

-- Whether the list has an object of this kind, namespace and name.
abbrev pub built : List Object → String → String → String → Bool
built objs kind namespace name = any (is_object kind namespace name) objs

-- A subject that is a service account is built; users and groups are not objects.
abbrev pub subject_built : List Object → Subject → Bool
subject_built objs s =
    if str_eq s.kind "ServiceAccount" then built objs s.kind s.namespace s.name else true

-- A role that is bound is built, or is one of the cluster's own.
abbrev pub role_built : List String → List Object → String → String → String → Bool
role_built own objs namespace kind name =
    any (λ own_name. str_eq own_name name) own || built objs kind namespace name

abbrev config_map_with : String → String → List (String × String) → Object → Bool
config_map_with namespace name items (config_map_object c) =
    is_object "ConfigMap" namespace name (config_map_object c)
    && all (λ (item : String × String). is_some (lookup item.0 c.contents)) items
config_map_with namespace name items _ = false

-- A ConfigMap that is mounted is built, with the keys that are asked for.
abbrev pub source_built : List Object → String → VolumeSource → Bool
source_built objs namespace (config_map_source name items) =
    any (config_map_with namespace name items) objs
source_built objs namespace _ = true

-- Every mount has its volume.
abbrev pub mounts_backed : List Volume → Container → Bool
mounts_backed vols c =
    all (λ (m : VolumeMount). any (λ (v : Volume). str_eq v.name m.name) vols) c.volume_mounts

-- A workload: it selects its own pods, whose account, ConfigMaps and volumes are there.
abbrev pub PodBacked : List Object → String → Option (List (String × String)) → PodTemplate → Type 0
PodBacked objs namespace selector pod =
    (selector ≡ pod.labels)
    × ((str_eq pod.service_account_name ""
          || built objs "ServiceAccount" namespace pod.service_account_name)
        ≡ true)
    × (all (λ (v : Volume). source_built objs namespace v.source) pod.volumes ≡ true)
    × (all (mounts_backed pod.volumes) (pod.init_containers ++ pod.containers) ≡ true)

abbrev listens : ServicePort → Container → Bool
listens p c =
    any
      (λ (port : ContainerPort).
        nat_eq port.container_port p.target_port && str_eq port.protocol p.protocol)
      c.ports

abbrev serves : Service → Object → Bool
serves s (deployment_object d) =
    str_eq d.meta.namespace s.meta.namespace
    && (all
          (λ (label : String × String). elim d.template.labels [
            | none ↦ false
            | some labels ↦ elim (lookup label.0 labels) [
              | none ↦ false
              | some value ↦ str_eq value label.1
            ]
          ])
          s.selector
        && all (λ (p : ServicePort). any (listens p) d.template.containers) s.ports)
serves s _ = false

-- The ConfigMaps that a role names are built.
abbrev pub rule_backed : List Object → String → PolicyRule → Bool
rule_backed objs namespace r = all (built objs "ConfigMap" namespace) r.resource_names

-- What an object refers to is in the list: the role and the accounts of a binding, where `own` are the
-- ClusterRoles that every cluster has; the ConfigMaps that a role names; what the pods of a workload
-- need; pods that a Service selects and that listen on its ports.
abbrev pub Backed : List String → List Object → Object → Type 0
Backed own objs (cluster_role_binding_object b) =
    (role_built own objs "" b.role_ref.kind b.role_ref.name ≡ true)
    × (all (subject_built objs) b.subjects ≡ true)
Backed own objs (role_binding_object b) =
    (role_built [] objs b.meta.namespace b.role_ref.kind b.role_ref.name ≡ true)
    × (all (subject_built objs) b.subjects ≡ true)
Backed own objs (role_object r) = all (rule_backed objs r.meta.namespace) r.rules ≡ true
Backed own objs (daemon_set_object d) = PodBacked objs d.meta.namespace d.match_labels d.template
Backed own objs (deployment_object d) = PodBacked objs d.meta.namespace d.match_labels d.template
Backed own objs (service_object s) = any (serves s) objs ≡ true
Backed own objs _ = Unit {0}

-- The namespaces that every cluster has; an object without one belongs to the whole cluster.
abbrev pub namespace_known : List Object → Object → Bool
namespace_known before o =
    any (str_eq (meta_of o).namespace) ("" ∷ "kube-system" ∷ "kube-public" ∷ [])
    || built before "Namespace" "" (meta_of o).namespace

-- An object stands behind the namespace that it belongs to.
abbrev pub namespaces_first : List Object → List Object → Bool
namespaces_first before [] = true
namespaces_first before (o ∷ os) =
    namespaces_first (before ++ (o ∷ [])) os && namespace_known before o
