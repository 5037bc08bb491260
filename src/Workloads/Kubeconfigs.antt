-- ===== src/Workloads/Kubeconfigs.antt =====
-- The kubeconfigs of the controller manager and the scheduler, against their pods and the certificates
-- of the control plane.
use Prim.Native.String
use mathlib.Core.List.{Memᴰ}
use controlplane_operator.Base.{[], ◌∷◌, String, ◌≡◌, refl, sym, subst, some, List, lookup, insert}
use controlplane_operator.Api.{NetworkingSpec, ObjectMeta}
use controlplane_operator.Net.{Net}
use controlplane_operator.Utils.Kubeconfig.{Config, AuthInfo, build_component_kubeconfig}
use controlplane_operator.Utils.Kubeconfig
use controlplane_operator.Cluster
use controlplane_operator.Cluster.{
  ClusterContext, VolumeMount, join, namespace, cert_path, key_path,
}
use controlplane_operator.Cluster.ControllerManager
use controlplane_operator.Cluster.Scheduler
use controlplane_operator.Builders.Certificate.{Certificate}
use controlplane_operator.Builders.ConfigMap.{ConfigMap}
use controlplane_operator.Builders.Meta.{
  empty_meta, with_name, with_namespace, with_namespace-with_name,
}
use controlplane_operator.Builders.Pod.{Container, PodTemplate, Volume, config_map_source}
use controlplane_operator.Pki.CommonNames.{Durations}
use controlplane_operator.Pki.Resources.{certificate_resources}
use controlplane_operator.Workloads.Backing.{Provided, secret-Provided, nth-Mem}
use controlplane_operator.Workloads.ControllerManagerObjects
use controlplane_operator.Workloads.SchedulerObjects

-- The pod's container is told to read its kubeconfig from a file that the ConfigMap provides at this
-- key, with this text, and the files that the kubeconfig names for the cluster and the user are there.
pub record Wired (certs : List Certificate) (pod : PodTemplate) (cm : ConfigMap) (config : Config)
    (written user conf : String) : Type 0 where
  pub container : Container
  pub present : Memᴰ container pod.containers
  pub mount : VolumeMount
  pub told : Memᴰ (String.◌++◌ "--kubeconfig=" (join "/etc/kubernetes" conf)) container.args
  pub mounted : Memᴰ mount container.volume_mounts
  pub there : mount.mount_path ≡ "/etc/kubernetes"
  pub config_volume :
      Memᴰ
        (record { name = mount.name; source = config_map_source cm.meta.name ((conf, conf) ∷ []) })
        pod.volumes
  pub contents : lookup conf cm.contents ≡ some written
  pub cluster : Kubeconfig.Cluster
  pub cluster_known : lookup "local" config.clusters ≡ some cluster
  pub user_info : AuthInfo
  pub user_known : lookup user config.auth_infos ≡ some user_info
  pub authority : Provided certs pod.volumes container cluster.certificate_authority
  pub certificate : Provided certs pod.volumes container user_info.client_certificate
  pub key : Provided certs pod.volumes container user_info.client_key

-- A new ConfigMap is called as it was told.
sym_volume :
    (n ns conf : String) {vols : List Volume}
    → Memᴰ (record { name = "kubeconfig"; source = config_map_source n ((conf, conf) ∷ []) }) vols
    → Memᴰ
        (record {
          name = "kubeconfig";
          source =
              config_map_source
                (with_namespace ns (with_name n empty_meta)).name
                ((conf, conf) ∷ []);
        })
        vols
sym_volume n ns conf {vols} m =
    subst
      (λ (x : ObjectMeta).
        Memᴰ (record { name = "kubeconfig"; source = config_map_source x.name ((conf, conf) ∷ []) })
          vols)
      (sym (with_namespace-with_name n ns)) m

pub controller_manager-Wired :
    (net : Net) (cc : ClusterContext) (d : Durations) (networking : NetworkingSpec)
    (written : String)
    → Wired
        (certificate_resources net cc d)
        (ControllerManagerObjects.deployment_with cc networking).template
        (ControllerManagerObjects.config_map_of cc written)
        (ControllerManagerObjects.kubeconfig cc)
        written
        "cm"
        "controller-manager.conf"
unfolding certificate_resources ControllerManagerObjects.deployment_with
    ControllerManagerObjects.config_map_of ControllerManagerObjects.kubeconfig
    ControllerManagerObjects.container ControllerManagerObjects.arguments
    ControllerManagerObjects.mounts build_component_kubeconfig lookup insert cert_path key_path
    Cluster.secret_mount Cluster.secret_volume ControllerManager.cluster_ca_secret
    ControllerManager.client_cert_secret
controller_manager-Wired net cc d networking written = record {
  container = _;
  present = nth-Mem 0 _ refl;
  told = nth-Mem 2 _ refl;
  mount = ControllerManagerObjects.kubeconfig_mount;
  mounted = nth-Mem 0 _ refl;
  there = refl;
  config_volume =
      sym_volume (ControllerManager.kubeconfig_config_map_name cc) (namespace cc)
        "controller-manager.conf" (nth-Mem 0 _ refl);
  contents = refl;
  cluster = _;
  cluster_known = refl;
  user_info = _;
  user_known = refl;
  authority =
      secret-Provided cc (ControllerManager.cluster_ca_secret cc) "tls.crt" (nth-Mem 1 _ refl)
        (nth-Mem 1 _ refl) (nth-Mem 0 _ refl) (nth-Mem 1 _ refl);
  certificate =
      secret-Provided cc (ControllerManager.client_cert_secret cc) "tls.crt" (nth-Mem 2 _ refl)
        (nth-Mem 2 _ refl) (nth-Mem 14 _ refl) (nth-Mem 1 _ refl);
  key =
      secret-Provided cc (ControllerManager.client_cert_secret cc) "tls.key" (nth-Mem 2 _ refl)
        (nth-Mem 2 _ refl) (nth-Mem 14 _ refl) (nth-Mem 2 _ refl);
}

pub scheduler-Wired :
    (net : Net) (cc : ClusterContext) (d : Durations) (written : String)
    → Wired
        (certificate_resources net cc d)
        (SchedulerObjects.build_deployment cc).template
        (SchedulerObjects.config_map_of cc written)
        (SchedulerObjects.kubeconfig cc)
        written
        "scheduler"
        "scheduler.conf"
unfolding certificate_resources SchedulerObjects.build_deployment SchedulerObjects.config_map_of
    SchedulerObjects.kubeconfig SchedulerObjects.container SchedulerObjects.arguments
    SchedulerObjects.mounts build_component_kubeconfig lookup insert cert_path key_path
    Cluster.secret_mount Cluster.secret_volume Scheduler.cluster_ca_secret
    Scheduler.client_cert_secret
scheduler-Wired net cc d written = record {
  container = _;
  present = nth-Mem 0 _ refl;
  told = nth-Mem 1 _ refl;
  mount = SchedulerObjects.kubeconfig_mount;
  mounted = nth-Mem 0 _ refl;
  there = refl;
  config_volume =
      sym_volume (Scheduler.kubeconfig_config_map_name cc) (namespace cc) "scheduler.conf"
        (nth-Mem 0 _ refl);
  contents = refl;
  cluster = _;
  cluster_known = refl;
  user_info = _;
  user_known = refl;
  authority =
      secret-Provided cc (Scheduler.cluster_ca_secret cc) "tls.crt" (nth-Mem 1 _ refl)
        (nth-Mem 1 _ refl) (nth-Mem 0 _ refl) (nth-Mem 1 _ refl);
  certificate =
      secret-Provided cc (Scheduler.client_cert_secret cc) "tls.crt" (nth-Mem 2 _ refl)
        (nth-Mem 2 _ refl) (nth-Mem 15 _ refl) (nth-Mem 1 _ refl);
  key =
      secret-Provided cc (Scheduler.client_cert_secret cc) "tls.key" (nth-Mem 2 _ refl)
        (nth-Mem 2 _ refl) (nth-Mem 15 _ refl) (nth-Mem 2 _ refl);
}
