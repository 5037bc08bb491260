-- ===== src/Builders/Pod.antt =====
-- pkg/resources/builders/builder.go, `PodTemplateMutator`. Of a pod template, the fields that the
-- builders set.
mod Containers
unfoldable pub use Containers.*
use controlplane_operator.Base.{
  String, Bool, true, false, Option, none, some, List, [], ◌∷◌, ◌++◌, str_eq, if◌then◌else◌,
}
use controlplane_operator.Utils.Text.{merge_into}
use controlplane_operator.Cluster.{VolumeMount}
use controlplane_operator.Builders.Meta.{or_empty}

-- The effect and the operator of a toleration, for every key.
pub record Toleration : Type 0 where
  pub operator : String
  pub effect : String

-- A required node affinity: the values that the node's label may have.
pub record NodeRequirement : Type 0 where
  pub key : String
  pub operator : String
  pub values : List String

-- A nil map is `none`, as is a pointer that is not set.
pub record PodTemplate : Type 0 where
  pub labels : Option (List (String × String))
  pub annotations : Option (List (String × String))
  pub service_account_name : String
  pub dns_policy : String
  pub host_network : Bool
  pub priority_class_name : String
  pub node_selector : Option (List (String × String))
  pub affinity : Option (List NodeRequirement)
  pub tolerations : List Toleration
  pub init_containers : List Container
  pub containers : List Container
  pub volumes : List Volume

abbrev pub empty_pod : PodTemplate
empty_pod = record {
  labels = none;
  annotations = none;
  service_account_name = "";
  dns_policy = "";
  host_network = false;
  priority_class_name = "";
  node_selector = none;
  affinity = none;
  tolerations = [];
  init_containers = [];
  containers = [];
  volumes = [];
}

abbrev pub with_service_account : String → PodTemplate → PodTemplate
with_service_account sa pt = record pt { service_account_name = sa }

abbrev pub with_dns_policy : String → PodTemplate → PodTemplate
with_dns_policy policy pt = record pt { dns_policy = policy }

abbrev pub with_affinity : List NodeRequirement → PodTemplate → PodTemplate
with_affinity aff pt = record pt { affinity = some aff }

-- A nil selector changes nothing.
abbrev pub with_node_selector : Option (List (String × String)) → PodTemplate → PodTemplate
with_node_selector none pt = pt
with_node_selector (some selector) pt = record pt {
  node_selector = some (merge_into (or_empty pt.node_selector) selector);
}

abbrev pub with_tolerations : List Toleration → PodTemplate → PodTemplate
with_tolerations toleration pt = record pt { tolerations = pt.tolerations ++ toleration }

abbrev pub with_init_containers : List Container → PodTemplate → PodTemplate
with_init_containers init_container pt = record pt {
  init_containers = pt.init_containers ++ init_container;
}

abbrev pub with_priority_class : String → PodTemplate → PodTemplate
with_priority_class name pt = record pt { priority_class_name = name }

abbrev pub with_host_network : PodTemplate → PodTemplate
with_host_network pt = record pt { host_network = true }

abbrev pub with_annotations : Option (List (String × String)) → PodTemplate → PodTemplate
with_annotations none pt = pt
with_annotations (some ann) pt = record pt {
  annotations = some (merge_into (or_empty pt.annotations) ann);
}

abbrev pub with_container : Container → PodTemplate → PodTemplate
with_container c pt = record pt { containers = pt.containers ++ (c ∷ []) }

abbrev pub add_volumes : List Volume → PodTemplate → PodTemplate
add_volumes vols pt = record pt { volumes = pt.volumes ++ vols }

-- Labels that are nil change nothing, not even nil labels of the pod.
abbrev pub with_labels : Option (List (String × String)) → PodTemplate → PodTemplate
with_labels none pt = pt
with_labels (some labels) pt = record pt { labels = some (merge_into (or_empty pt.labels) labels) }

-- The first container with the name is changed.
abbrev pub patch_first : String → (Container → Container) → List Container → List Container × Bool
patch_first name fn [] = ([], false)
patch_first name fn (c ∷ cs) =
    let (rest, found) = patch_first name fn cs in
    if str_eq c.name name then (fn c ∷ cs, true) else (c ∷ rest, found)

abbrev pub patch_container : String → (Container → Container) → PodTemplate → PodTemplate × Bool
patch_container name fn pt =
    let (cs, found) = patch_first name fn pt.containers in (record pt { containers = cs }, found)

abbrev pub add_volume_mounts : String → List VolumeMount → PodTemplate → PodTemplate × Bool
add_volume_mounts name mounts pt =
    patch_container name (λ c. record c { volume_mounts = c.volume_mounts ++ mounts }) pt
