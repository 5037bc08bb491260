-- ===== src/Cluster.antt =====
-- pkg/cluster/cluster.go and const.go: the names and mount paths that are derived from one
-- ManagedControlPlane. A ClusterContext is the resource itself (its logger has no effect). Secret
-- names hold no slash, so filepath.Join only puts one between its two parts.
pub mod Certificates
pub mod Issuers
pub mod Etcd
pub mod ApiServer
pub mod ControllerManager
pub mod Scheduler
pub mod Admin
pub mod Konnectivity
pub mod ManagedAddons
pub mod Names
use Prim.Native.String.{◌++◌}
use controlplane_operator.Base.{String, Bool}
use controlplane_operator.Api.{
  ManagedControlPlane, ManagedControlPlaneSpec, ManagedControlPlaneStatus,
}

abbrev pub ClusterContext : Type 0
ClusterContext = ManagedControlPlane

abbrev pub name : ClusterContext → String
name cc = cc.meta.name

abbrev pub namespace : ClusterContext → String
namespace cc = cc.meta.namespace

abbrev pub get_managed_control_plane_spec : ClusterContext → ManagedControlPlaneSpec
get_managed_control_plane_spec cc = cc.spec

abbrev pub get_kubernetes_version : ClusterContext → String
get_kubernetes_version cc = cc.spec.kubernetes.version

abbrev pub get_managed_control_plane_status : ClusterContext → ManagedControlPlaneStatus
get_managed_control_plane_status cc = cc.status

unfoldable pub prefix : ClusterContext → String → String
prefix cc s = name cc ++ "-" ++ s

abbrev pub pki_root : String
pki_root = "/var/run/k8s"

abbrev pub tls_crt : String
tls_crt = "tls.crt"

abbrev pub tls_key : String
tls_key = "tls.key"

abbrev pub ca_crt : String
ca_crt = "ca.crt"

-- filepath.Join of two parts
abbrev pub join : String → String → String
join dir file = dir ++ "/" ++ file

unfoldable pub secret_mount_dir : ClusterContext → String → String
secret_mount_dir cc secret_name = join pki_root secret_name

unfoldable pub cert_path : ClusterContext → String → String
unfolding secret_mount_dir
cert_path cc secret_name = join (secret_mount_dir cc secret_name) tls_crt

unfoldable pub key_path : ClusterContext → String → String
unfolding secret_mount_dir
key_path cc secret_name = join (secret_mount_dir cc secret_name) tls_key

unfoldable pub ca_path : ClusterContext → String → String
unfolding secret_mount_dir
ca_path cc secret_name = join (secret_mount_dir cc secret_name) ca_crt

-- corev1.Volume with a secret source
pub record SecretVolume : Type 0 where
  pub name : String
  pub secret_name : String

pub record VolumeMount : Type 0 where
  pub name : String
  pub read_only : Bool
  pub mount_path : String

unfoldable pub secret_volume : ClusterContext → String → SecretVolume
secret_volume cc secret_name = record { name = secret_name; secret_name = secret_name }

unfoldable pub secret_mount : ClusterContext → String → Bool → VolumeMount
unfolding secret_mount_dir
secret_mount cc secret_name read_only = record {
  name = secret_name;
  read_only = read_only;
  mount_path = secret_mount_dir cc secret_name;
}
