-- ===== src/Builders/Pod/Containers.antt =====
-- The parts of a pod: of corev1's volumes, probes and containers, what the builders set, with the
-- helpers of pkg/utils/kubernetes.go. A text or number that is not set is empty or 0.
use controlplane_operator.Base.{ℕ, String, Bool, Option, none, List, [], ◌∷◌}
use Prim.Native.String
use controlplane_operator.Cluster.{SecretVolume, VolumeMount}

pub data VolumeSource : Type 0 where
  secret_source : String → VolumeSource
  -- the name of the ConfigMap, and its keys with the files that they become; all of them if there is none
  config_map_source : String → List (String × String) → VolumeSource
  empty_dir : VolumeSource
  -- the path on the node, and its type
  host_path : String → String → VolumeSource
  -- secrets, each with its keys and the files that they become
  projected : List (String × List (String × String)) → VolumeSource

pub record Volume : Type 0 where
  pub name : String
  pub source : VolumeSource

-- The volume of cluster.SecretVolume as a corev1.Volume.
abbrev pub of_secret : SecretVolume → Volume
of_secret v = record { name = v.name; source = secret_source v.secret_name }

abbrev pub config_map_volume : String → String → String → String → Volume
config_map_volume mount_name cm_name cm_key path = record {
  name = mount_name;
  source = config_map_source cm_name ((cm_key, path) ∷ []);
}

abbrev pub empty_dir_volume : String → Volume
empty_dir_volume mount_name = record { name = mount_name; source = empty_dir }

pub data ProbeHandler : Type 0 where
  -- scheme, host, port and path
  http_get : String → String → ℕ → String → ProbeHandler
  exec : List String → ProbeHandler

-- A number that is not set is 0.
pub record Probe : Type 0 where
  pub handler : ProbeHandler
  pub initial_delay_seconds : ℕ
  pub period_seconds : ℕ
  pub timeout_seconds : ℕ
  pub failure_threshold : ℕ
  pub success_threshold : ℕ

abbrev pub https_health_probe : ℕ → String → ℕ → ℕ → ℕ → ℕ → Probe
https_health_probe port path initial_delay period timeout failure_threshold = record {
  handler = http_get "HTTPS" "localhost" port path;
  initial_delay_seconds = initial_delay;
  period_seconds = period;
  timeout_seconds = timeout;
  failure_threshold = failure_threshold;
  success_threshold = 1;
}

abbrev pub etcd_health_probe : String → String → String → Probe
etcd_health_probe ca_path cert_path key_path = record {
  handler = exec (
      "etcdctl"
      ∷ "--endpoints=https://localhost:2379"
      ∷ String.◌++◌ "--cacert=" ca_path
      ∷ String.◌++◌ "--cert=" cert_path
      ∷ String.◌++◌ "--key=" key_path
      ∷ "endpoint"
      ∷ "health"
      ∷ []);
  initial_delay_seconds = 10;
  period_seconds = 10;
  timeout_seconds = 2;
  failure_threshold = 0;
  success_threshold = 0;
}

pub record ContainerPort : Type 0 where
  pub name : String
  pub container_port : ℕ
  pub host_port : ℕ
  pub protocol : String

-- A port of the pod alone, with the default protocol.
abbrev pub pod_port : String → ℕ → ContainerPort
pod_port name port = record { name = name; container_port = port; host_port = 0; protocol = "" }

pub data EnvSource : Type 0 where
  env_value : String → EnvSource
  -- a field of the pod: its API version and path
  env_field : String → String → EnvSource

pub record SecurityContext : Type 0 where
  pub privileged : Option Bool
  pub added_capabilities : List String

pub record Container : Type 0 where
  pub name : String
  pub image : String
  pub image_pull_policy : String
  pub command : List String
  pub args : List String
  pub env : List (String × EnvSource)
  pub ports : List ContainerPort
  pub startup_probe : Option Probe
  pub liveness_probe : Option Probe
  pub readiness_probe : Option Probe
  pub security_context : Option SecurityContext
  pub requests : List (String × String)
  pub volume_mounts : List VolumeMount

abbrev pub new_container : String → String → Container
new_container name image = record {
  name = name;
  image = image;
  image_pull_policy = "";
  command = [];
  args = [];
  env = [];
  ports = [];
  startup_probe = none;
  liveness_probe = none;
  readiness_probe = none;
  security_context = none;
  requests = [];
  volume_mounts = [];
}
