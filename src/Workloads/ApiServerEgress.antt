-- ===== src/Workloads/ApiServerEgress.antt =====
-- How the API server and the konnectivity server of one pod are connected.
use controlplane_operator.Base.{
  [], ◌∷◌, String, ◌≡◌, refl, ap, subst, false, lookup, insert, some, List,
}
use Prim.Native.String
use mathlib.Core.List.{Memᴰ}
use controlplane_operator.Api.{ObjectMeta}
use controlplane_operator.Builders.Meta.{with_namespace-with_name}
use controlplane_operator.Api.{NetworkingSpec}
use controlplane_operator.Cluster.{ClusterContext, VolumeMount, join, namespace}
use controlplane_operator.Cluster.ApiServer
use controlplane_operator.Builders.Deployment.{Deployment}
use controlplane_operator.Builders.Pod.{
  PodTemplate, VolumeSource, config_map_source, empty_dir, Container,
}
use controlplane_operator.Workloads.Backing.{nth-Mem}
use controlplane_operator.Workloads.ApiServerFiles.{built}
use controlplane_operator.Workloads.ApiServer.{
  apiserver_container, arguments, EgressSelection, egress_selections, build_konnectivity_config_map,
  konnectivity_uds_volume_mount, konnectivity_config_volume_mount,
}
use controlplane_operator.Workloads.ApiServerDeployment.{
  build_deployment, deployment_with, konnectivity_container,
}

-- How the API server talks to the konnectivity server beside it.
pub record Connected (pod : PodTemplate) (config : VolumeSource) : Type 0 where
  pub client : Container
  pub server : Container
  pub client_present : Memᴰ client pod.containers
  pub server_present : Memᴰ server pod.containers
  pub told :
      Memᴰ "--egress-selector-config-file=/etc/konnectivity/konnectivity-egress-selector.yaml"
        client.args
  pub config_mount : VolumeMount
  pub config_mounted : Memᴰ config_mount client.volume_mounts
  pub config_there : config_mount.mount_path ≡ "/etc/konnectivity"
  pub config_volume : Memᴰ (record { name = config_mount.name; source = config }) pod.volumes
  pub selection : EgressSelection
  pub selected : Memᴰ selection egress_selections
  pub socket_mount : VolumeMount
  pub socket : selection.uds_name ≡ some (join socket_mount.mount_path "konnectivity-uds.sock")
  pub serves :
      Memᴰ
        (String.◌++◌ "--uds-name=" (join socket_mount.mount_path "konnectivity-uds.sock"))
        server.args
  pub client_mounts : Memᴰ socket_mount client.volume_mounts
  pub server_mounts : Memᴰ socket_mount server.volume_mounts
  pub writable : socket_mount.read_only ≡ false
  pub shared : Memᴰ (record { name = socket_mount.name; source = empty_dir }) pod.volumes

deployment_with-Connected :
    (cc : ClusterContext) (networking : NetworkingSpec)
    → Connected (deployment_with cc networking).template (
        config_map_source
          (ApiServer.konnectivity_config_map_name cc)
          (("konnectivity-egress-selector.yaml", "konnectivity-egress-selector.yaml") ∷ []))
unfolding deployment_with apiserver_container konnectivity_container arguments
deployment_with-Connected cc networking = record {
  client = _;
  server = _;
  client_present = nth-Mem 0 _ refl;
  server_present = nth-Mem 1 _ refl;
  told = nth-Mem 21 _ refl;
  config_mount = konnectivity_config_volume_mount;
  config_mounted = nth-Mem 0 _ refl;
  config_there = refl;
  config_volume = nth-Mem 1 _ refl;
  selection = _;
  selected = nth-Mem 0 _ refl;
  socket_mount = konnectivity_uds_volume_mount;
  socket = refl;
  serves = nth-Mem 1 _ refl;
  client_mounts = nth-Mem 1 _ refl;
  server_mounts = nth-Mem 0 _ refl;
  writable = refl;
  shared = nth-Mem 0 _ refl;
}

-- In a Deployment that is built, the API server is told the file of the egress selector, which the
-- ConfigMap that is built beside it has at the key of the volume; the socket of that selector is the one that
-- the konnectivity server is told to open, in an empty directory that both containers mount.
pub build_deployment-Connected :
    (yaml : List EgressSelection → String) (cc : ClusterContext) (dep : Deployment)
    → build_deployment cc ≡ some dep
    → Connected dep.template (
        config_map_source
          (ApiServer.konnectivity_config_map_name cc)
          (("konnectivity-egress-selector.yaml", "konnectivity-egress-selector.yaml") ∷ []))
      × ((build_konnectivity_config_map yaml cc).meta.name
          ≡ ApiServer.konnectivity_config_map_name cc)
      × (lookup "konnectivity-egress-selector.yaml" (build_konnectivity_config_map yaml cc).contents
          ≡ some (yaml egress_selections))
unfolding build_konnectivity_config_map lookup insert
build_deployment-Connected yaml cc dep e =
    let (networking, same) = built cc dep e in
    (
      subst
          (λ (x : Deployment). Connected x.template (
            config_map_source (ApiServer.konnectivity_config_map_name cc)
              (("konnectivity-egress-selector.yaml", "konnectivity-egress-selector.yaml") ∷ [])))
          same (deployment_with-Connected cc networking),
      ap (λ (x : ObjectMeta). x.name)
          (with_namespace-with_name (ApiServer.konnectivity_config_map_name cc) (namespace cc)),
      refl,
    )
