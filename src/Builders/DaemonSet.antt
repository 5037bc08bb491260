-- ===== src/Builders/DaemonSet.antt =====
-- pkg/resources/builders/daemonset.go. The selector is not given to the pods: they have labels of their own.
use controlplane_operator.Base.{String, Option, none, some, List}
use controlplane_operator.Api.{ObjectMeta}
use controlplane_operator.Builders.Meta
use controlplane_operator.Utils.Text.{merge_into}
use controlplane_operator.Cluster.{VolumeMount}
use controlplane_operator.Builders.Pod
use controlplane_operator.Builders.Pod.{Container, NodeRequirement, PodTemplate, Toleration, Volume}

pub record DaemonSet : Type 0 where
  pub meta : ObjectMeta
  pub match_labels : Option (List (String × String))
  pub update_strategy : String
  pub template : PodTemplate

abbrev pub new_daemon_set : DaemonSet
new_daemon_set = record {
  meta = Meta.empty_meta;
  match_labels = none;
  update_strategy = "";
  template = Pod.empty_pod;
}

abbrev pub with_labels : List (String × String) → DaemonSet → DaemonSet
with_labels labels w = record w { meta = Meta.with_labels labels w.meta }

abbrev pub with_annotations : List (String × String) → DaemonSet → DaemonSet
with_annotations ann w = record w { meta = Meta.with_annotations ann w.meta }

abbrev pub with_name : String → DaemonSet → DaemonSet
with_name name w = record w { meta = Meta.with_name name w.meta }

abbrev pub with_namespace : String → DaemonSet → DaemonSet
with_namespace ns w = record w { meta = Meta.with_namespace ns w.meta }

abbrev pub with_selector : List (String × String) → DaemonSet → DaemonSet
with_selector sel w = record w {
  match_labels = some (merge_into (Meta.or_empty w.match_labels) sel);
}

abbrev pub with_pod_labels : Option (List (String × String)) → DaemonSet → DaemonSet
with_pod_labels labels w = record w { template = Pod.with_labels labels w.template }

abbrev pub with_update_strategy : String → DaemonSet → DaemonSet
with_update_strategy strategy w = record w { update_strategy = strategy }

abbrev pub with_service_account : String → DaemonSet → DaemonSet
with_service_account sa w = record w { template = Pod.with_service_account sa w.template }

abbrev pub with_affinity : List NodeRequirement → DaemonSet → DaemonSet
with_affinity aff w = record w { template = Pod.with_affinity aff w.template }

abbrev pub with_tolerations : List Toleration → DaemonSet → DaemonSet
with_tolerations toleration w = record w { template = Pod.with_tolerations toleration w.template }

abbrev pub with_node_selector : Option (List (String × String)) → DaemonSet → DaemonSet
with_node_selector sel w = record w { template = Pod.with_node_selector sel w.template }

abbrev pub with_host_network : DaemonSet → DaemonSet
with_host_network w = record w { template = Pod.with_host_network w.template }

abbrev pub with_dns_policy : String → DaemonSet → DaemonSet
with_dns_policy policy w = record w { template = Pod.with_dns_policy policy w.template }

abbrev pub with_priority_class : String → DaemonSet → DaemonSet
with_priority_class name w = record w { template = Pod.with_priority_class name w.template }

abbrev pub with_container : Container → DaemonSet → DaemonSet
with_container c w = record w { template = Pod.with_container c w.template }

abbrev pub with_init_containers : List Container → DaemonSet → DaemonSet
with_init_containers cs w = record w { template = Pod.with_init_containers cs w.template }

abbrev pub add_volumes : List Volume → DaemonSet → DaemonSet
add_volumes vols w = record w { template = Pod.add_volumes vols w.template }

abbrev pub add_volume_mounts : String → List VolumeMount → DaemonSet → DaemonSet
add_volume_mounts name mounts w = record w {
  template = (Pod.add_volume_mounts name mounts w.template).0;
}

abbrev pub patch_container : String → (Container → Container) → DaemonSet → DaemonSet
patch_container name fn w = record w { template = (Pod.patch_container name fn w.template).0 }

-- A deep copy has the same value.
abbrev pub build : DaemonSet → DaemonSet
build w = w
