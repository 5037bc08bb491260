-- ===== src/Builders/Deployment.antt =====
-- pkg/resources/builders/deployment.go. A nil selector or
-- number of replicas is `none`.
use controlplane_operator.Base.{ℕ, String, Option, none, some, List}
use controlplane_operator.Api.{ObjectMeta}
use controlplane_operator.Utils.Text.{merge_into}
use controlplane_operator.Cluster.{VolumeMount}
use controlplane_operator.Builders.Meta
use controlplane_operator.Builders.Pod
use controlplane_operator.Builders.Pod.{Container, PodTemplate, Volume}

pub record Deployment : Type 0 where
  pub meta : ObjectMeta
  pub replicas : Option ℕ
  pub match_labels : Option (List (String × String))
  pub template : PodTemplate

abbrev pub new_deployment : Deployment
new_deployment = record {
  meta = Meta.empty_meta;
  replicas = none;
  match_labels = none;
  template = Pod.empty_pod;
}

abbrev pub with_labels : List (String × String) → Deployment → Deployment
with_labels labels d = record d { meta = Meta.with_labels labels d.meta }

-- The selector is merged, and the pods get the same labels.
abbrev pub with_selector : List (String × String) → Deployment → Deployment
with_selector sel d = record d {
  match_labels = some (merge_into (Meta.or_empty d.match_labels) sel);
  template = Pod.with_labels (some sel) d.template;
}

abbrev pub with_name : String → Deployment → Deployment
with_name name d = record d { meta = Meta.with_name name d.meta }

abbrev pub with_namespace : String → Deployment → Deployment
with_namespace ns d = record d { meta = Meta.with_namespace ns d.meta }

abbrev pub with_replicas : ℕ → Deployment → Deployment
with_replicas replicas d = record d { replicas = some replicas }

abbrev pub with_container : Container → Deployment → Deployment
with_container c d = record d { template = Pod.with_container c d.template }

abbrev pub add_volumes : List Volume → Deployment → Deployment
add_volumes vols d = record d { template = Pod.add_volumes vols d.template }

-- Whether the container was found is not told.
abbrev pub add_volume_mounts : String → List VolumeMount → Deployment → Deployment
add_volume_mounts name mounts d = record d {
  template = (Pod.add_volume_mounts name mounts d.template).0;
}

abbrev pub with_annotations : List (String × String) → Deployment → Deployment
with_annotations ann d = record d { meta = Meta.with_annotations ann d.meta }

abbrev pub with_service_account : String → Deployment → Deployment
with_service_account sa d = record d { template = Pod.with_service_account sa d.template }

abbrev pub patch_container : String → (Container → Container) → Deployment → Deployment
patch_container name fn d = record d { template = (Pod.patch_container name fn d.template).0 }

-- A deep copy has the same value.
abbrev pub build : Deployment → Deployment
build d = d
