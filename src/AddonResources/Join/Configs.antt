-- ===== src/AddonResources/Join/Configs.antt =====
-- pkg/resources/addons/rbac.go: the ConfigMaps that a joining node reads. The writers of YAML are
-- parameters; their errors are dropped, and what they wrote is kept.
use Prim.Native.String.{◌++◌}
use controlplane_operator.Base.{
  String, Bool, true, false, Option, none, some, List, [], ◌∷◌, Result, ok, err, insert, str_eq,
  if◌then◌else◌,
}
use controlplane_operator.Api.{NetworkingSpec}
use controlplane_operator.Net.{Ip, Net, ip_string}
use controlplane_operator.Utils.Text.{ip_at_offset, get_major_minor_string}
use controlplane_operator.Utils.Kubeconfig.{Bytes, Config, new_config}
use controlplane_operator.Cluster.{
  ClusterContext, name, get_kubernetes_version, get_managed_control_plane_status,
}
use controlplane_operator.Builders.Pipe.{◌▷◌}
use controlplane_operator.Builders.Meta.{empty_meta}
use controlplane_operator.Builders.ConfigMap
use controlplane_operator.Builders.ConfigMap.{ConfigMap}
use controlplane_operator.AddonResources.Objects.{kube_system_namespace, part_of}
use controlplane_operator.AddonResources.CoreDns.{ip_or_nil}
use controlplane_operator.AddonResources.Join.Roles.{config_map_cluster_info}

-- Of kubelet.config.k8s.io's KubeletConfiguration, the fields that are set.
pub record KubeletConfiguration : Type 0 where
  pub api_version : String
  pub kind : String
  pub rotate_certificates : Bool
  pub server_tls_bootstrap : Bool
  pub cluster_dns : List String
  pub cluster_domain : String
  pub anonymous_enabled : Option Bool
  pub webhook_enabled : Option Bool
  pub authorization_mode : String
  pub fail_swap_on : Option Bool

-- Of kubeadm.k8s.io's ClusterConfiguration, the fields that are set.
pub record ClusterConfiguration : Type 0 where
  pub api_version : String
  pub kind : String
  pub cluster_name : String
  pub kubernetes_version : String
  pub control_plane_endpoint : String
  pub dns_domain : String
  pub service_subnet : String
  pub pod_subnet : String

-- What is called to write texts: the buffer after the YAML serializer, and clientcmd.Write, whose bytes
-- are nil when it fails.
pub record Encoders : Type 0 where
  pub write_config : Config → Result String
  pub kubelet_yaml : KubeletConfiguration → String
  pub cluster_yaml : ClusterConfiguration → String

abbrev pub text_or_nil : Result String → String
text_or_nil (ok s) = s
text_or_nil (err e) = ""

unfoldable pub cluster_info_config : ClusterContext → Bytes → Config
cluster_info_config cc ca_pem = record new_config {
  clusters =
      insert ""
        (record {
          server = "https://" ++ (get_managed_control_plane_status cc).address ++ ":6443";
          certificate_authority = "";
          certificate_authority_data = ca_pem;
        })
        new_config.clusters;
  contexts = [];
  auth_infos = [];
}

unfoldable pub cluster_info : Encoders → ClusterContext → Bytes → ConfigMap
cluster_info enc cc ca_pem =
    ConfigMap.new_config_map
    ▷ ConfigMap.with_name config_map_cluster_info
    ▷ ConfigMap.with_namespace "kube-public"
    ▷ ConfigMap.with_annotations part_of
    ▷ ConfigMap.put "kubeconfig" (text_or_nil (enc.write_config (cluster_info_config cc ca_pem)))
    ▷ ConfigMap.build

unfoldable pub versioned_configuration_for : Net → Option Ip → KubeletConfiguration
versioned_configuration_for net cluster_dns = record {
  api_version = "kubelet.config.k8s.io/v1beta1";
  kind = "KubeletConfiguration";
  rotate_certificates = true;
  server_tls_bootstrap = false;
  cluster_dns = ip_string net cluster_dns ∷ [];
  cluster_domain = "cluster.local";
  anonymous_enabled = some false;
  webhook_enabled = some true;
  authorization_mode = "Webhook";
  fail_swap_on = some false;
}

-- What kubeletConfigVersioned sets; none where it panics.
unfoldable pub versioned_configuration : Net → ClusterContext → Option KubeletConfiguration
versioned_configuration net cc = elim cc.spec.kubernetes.networking [
  | none ↦ none
  | some networking ↦ elim (ip_or_nil (ip_at_offset net networking.service_cidr 10)) [
    | none ↦ none
    | some cluster_dns ↦ some (versioned_configuration_for net cluster_dns)
  ]
]

unfoldable pub unversioned_configuration_for : Net → Option Ip → KubeletConfiguration
unversioned_configuration_for net cluster_dns = record {
  api_version = "kubelet.config.k8s.io/v1beta1";
  kind = "KubeletConfiguration";
  rotate_certificates = true;
  server_tls_bootstrap = false;
  cluster_dns = ip_string net cluster_dns ∷ [];
  cluster_domain = "cluster.local";
  anonymous_enabled = some false;
  webhook_enabled = some true;
  authorization_mode = "Webhook";
  fail_swap_on = some false;
}

-- What kubeletConfigUnversioned sets, in a copy of that text; none where it panics.
unfoldable pub unversioned_configuration : Net → ClusterContext → Option KubeletConfiguration
unversioned_configuration net cc = elim cc.spec.kubernetes.networking [
  | none ↦ none
  | some networking ↦ elim (ip_or_nil (ip_at_offset net networking.service_cidr 10)) [
    | none ↦ none
    | some cluster_dns ↦ some (unversioned_configuration_for net cluster_dns)
  ]
]

-- The version and the kind are set again.
unfoldable pub must_encode_kubelet_config_yaml : Encoders → KubeletConfiguration → String
must_encode_kubelet_config_yaml enc kc =
    enc.kubelet_yaml
      (record kc { api_version = "kubelet.config.k8s.io/v1beta1"; kind = "KubeletConfiguration" })

unfoldable pub kubelet_config_unversioned : Encoders → KubeletConfiguration → ConfigMap
kubelet_config_unversioned enc kc = record {
  meta = record empty_meta { name = "kubelet-config"; namespace = "kube-system" };
  contents = ("kubelet", must_encode_kubelet_config_yaml enc kc) ∷ [];
  binary_data = [];
}

unfoldable pub kubelet_config_versioned :
    Encoders → ClusterContext → KubeletConfiguration → ConfigMap
kubelet_config_versioned enc cc kc =
    ConfigMap.new_config_map
    ▷ ConfigMap.with_name ("kubelet-config-" ++ get_major_minor_string (get_kubernetes_version cc))
    ▷ ConfigMap.with_namespace "kube-system"
    ▷ ConfigMap.with_annotations part_of
    ▷ ConfigMap.put "kubelet" (must_encode_kubelet_config_yaml enc kc)
    ▷ ConfigMap.build

abbrev pub kubeadm_config_cm_name : String
kubeadm_config_cm_name = "kubeadm-config"

abbrev pub service_subnet_of : Option NetworkingSpec → String
service_subnet_of none = ""
service_subnet_of (some networking) = networking.service_cidr

abbrev pub pod_subnet_of : Option NetworkingSpec → String
pod_subnet_of none = ""
pod_subnet_of (some networking) = networking.pod_cidr

unfoldable pub cluster_configuration : ClusterContext → ClusterConfiguration
cluster_configuration cc =
    let address = (get_managed_control_plane_status cc).address in
    record {
      api_version = "kubeadm.k8s.io/v1beta4";
      kind = "ClusterConfiguration";
      cluster_name = name cc;
      kubernetes_version = get_kubernetes_version cc;
      control_plane_endpoint = if str_eq address "" then "" else address ++ ":6443";
      dns_domain = "cluster.local";
      service_subnet = service_subnet_of cc.spec.kubernetes.networking;
      pod_subnet = pod_subnet_of cc.spec.kubernetes.networking;
    }

unfoldable pub must_encode_kubeadm_cluster_config_yaml : Encoders → ClusterConfiguration → String
must_encode_kubeadm_cluster_config_yaml enc config =
    enc.cluster_yaml
      (record config { api_version = "kubeadm.k8s.io/v1beta4"; kind = "ClusterConfiguration" })

unfoldable pub kubeadm_config_config_map : Encoders → ClusterContext → ConfigMap
kubeadm_config_config_map enc cc = record {
  meta = record empty_meta { name = kubeadm_config_cm_name; namespace = kube_system_namespace };
  contents =
      (
        "ClusterConfiguration",
        must_encode_kubeadm_cluster_config_yaml enc (cluster_configuration cc),
      )
      ∷ [];
  binary_data = [];
}
