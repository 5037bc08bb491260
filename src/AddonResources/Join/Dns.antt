-- ===== src/AddonResources/Join/Dns.antt =====
-- The DNS server that nodes are told of is the Service of CoreDNS.
use controlplane_operator.Base.{String, ◌≡◌, refl, Option, none, some, List, [], ◌∷◌, ap}
use mathlib.Core.List.{Memᴰ}
use controlplane_operator.Api.{NetworkingSpec}
use controlplane_operator.Net.{Ip, Net, ip_string}
use controlplane_operator.Utils.Kubeconfig.{Bytes}
use controlplane_operator.Utils.Text.{
  AtOffset, at, invalid_cidr, only_ipv4, out_of_range, index_panic, ip_at_offset,
}
use controlplane_operator.Cluster.{ClusterContext}
use controlplane_operator.Workloads.Backing.{nth-Mem}
use controlplane_operator.Builders.Meta.{with_name, with_namespace, with_labels, with_annotations}
use controlplane_operator.Builders.Service.{Service}
use controlplane_operator.Controller.Addons.Token.{BootstrapToken}
use controlplane_operator.AddonResources.Objects.{Object, config_map_object, service_object}
use controlplane_operator.AddonResources.CoreDns
use controlplane_operator.AddonResources.Konnectivity
use controlplane_operator.AddonResources.CoreDns.{ip_or_nil, core_dns_service}
use controlplane_operator.AddonResources.Addons
use controlplane_operator.AddonResources.Addons.Supported.{all_objects, objects-Built}
use controlplane_operator.AddonResources.Join.{objects, objects_with}
use controlplane_operator.AddonResources.Join.References.{objects_inv}
use controlplane_operator.AddonResources.Join.Configs.{
  Encoders, KubeletConfiguration, kubelet_config_unversioned, kubelet_config_versioned,
  versioned_configuration, versioned_configuration_for, unversioned_configuration,
  unversioned_configuration_for,
}

-- The text that the tenth address has: that of a nil address where there is none.
abbrev pub dns_text : Net → AtOffset → String
dns_text net (at ip) = ip_string net (some ip)
dns_text net _ = "<nil>"

dns_text-ip_or_nil :
    (net : Net) (o : AtOffset) (ip : Option Ip)
    → ip_or_nil o ≡ some ip
    → ip_string net ip ≡ dns_text net o
unfolding ip_or_nil ip_string
dns_text-ip_or_nil net (at i) ip h = let same : ip ≡ some i = cc in ap (ip_string net) same
dns_text-ip_or_nil net invalid_cidr ip h = let same : ip ≡ none = cc in ap (ip_string net) same
dns_text-ip_or_nil net only_ipv4 ip h = let same : ip ≡ none = cc in ap (ip_string net) same
dns_text-ip_or_nil net out_of_range ip h = let same : ip ≡ none = cc in ap (ip_string net) same
dns_text-ip_or_nil net index_panic ip h = cc

-- What kubelets are told where the network has its tenth address.
versioned_configuration_lem :
    (net : Net) (mcp : ClusterContext) (networking : NetworkingSpec) (ip : Option Ip)
    → mcp.spec.kubernetes.networking ≡ some networking
    → ip_or_nil (ip_at_offset net networking.service_cidr 10) ≡ some ip
    → versioned_configuration net mcp ≡ some (versioned_configuration_for net ip)
unfolding versioned_configuration
versioned_configuration_lem net mcp networking ip given tenth =
    rw given (rw (tenth, versioned_configuration) refl)

unversioned_configuration_lem :
    (net : Net) (mcp : ClusterContext) (networking : NetworkingSpec) (ip : Option Ip)
    → mcp.spec.kubernetes.networking ≡ some networking
    → ip_or_nil (ip_at_offset net networking.service_cidr 10) ≡ some ip
    → unversioned_configuration net mcp ≡ some (unversioned_configuration_for net ip)
unfolding unversioned_configuration
unversioned_configuration_lem net mcp networking ip given tenth =
    rw given (rw (tenth, unversioned_configuration) refl)

-- The Service of CoreDNS and both ConfigMaps of the kubelets.
pub record Agree (net : Net) (enc : Encoders) (mcp : ClusterContext) (objs adds : List Object)
    : Type 0 where
  pub networking : NetworkingSpec
  pub service : Service
  pub config : KubeletConfiguration
  pub unversioned_config : KubeletConfiguration
  pub given : mcp.spec.kubernetes.networking ≡ some networking
  pub served : Memᴰ (service_object service) adds
  pub named : (service.meta.name ≡ "kube-dns") × (service.meta.namespace ≡ "kube-system")
  pub versioned : Memᴰ (config_map_object (kubelet_config_versioned enc mcp config)) objs
  pub unversioned :
      Memᴰ (config_map_object (kubelet_config_unversioned enc unversioned_config)) objs
  pub told : config.cluster_dns ≡ service.cluster_ip ∷ []
  pub told_unversioned : unversioned_config.cluster_dns ≡ service.cluster_ip ∷ []
  pub spelled : service.cluster_ip ≡ dns_text net (ip_at_offset net networking.service_cidr 10)

module _ (net : Net) (enc : Encoders) (mcp : ClusterContext) (tok : BootstrapToken)
    (ca_pem : Bytes) where
  -- When the join resources and the add-ons are built, the Service kube-dns is among the add-ons, the
  -- kubelets' configurations in both ConfigMaps have its cluster IP as the one DNS server, and that IP
  -- is the tenth address of the service network; where there is no such address it is the text `<nil>`.
  pub dns-Agree :
      (objs adds : List Object)
      → objects net enc mcp tok ca_pem ≡ some objs
      → Addons.objects net mcp ≡ some adds
      → Agree net enc mcp objs adds
  unfolding objects_with versioned_configuration_for unversioned_configuration_for
      CoreDns.core_dns_service CoreDns.core_dns_objects with_name with_namespace with_labels
      with_annotations Konnectivity.build_konnectivity_agent
  dns-Agree objs adds h more =
      let (kc, unversioned, made, made', whole) = objects_inv net enc mcp tok ca_pem h in
      let b = objects-Built net mcp more in
      let expected = versioned_configuration_lem net mcp b.networking b.ip b.given b.tenth in
      let same : kc ≡ versioned_configuration_for net b.ip = cc in
      let expected' = unversioned_configuration_lem net mcp b.networking b.ip b.given b.tenth in
      let same' : unversioned ≡ unversioned_configuration_for net b.ip = cc in
      record {
        networking = b.networking;
        service = core_dns_service net b.ip;
        config = kc;
        unversioned_config = unversioned;
        given = b.given;
        served = rw (b.whole) (nth-Mem 17 (all_objects net mcp b.networking b.ip) refl);
        named = (refl, refl);
        versioned = rw whole (nth-Mem 7 (objects_with enc mcp tok ca_pem kc unversioned) refl);
        unversioned = rw whole (nth-Mem 8 (objects_with enc mcp tok ca_pem kc unversioned) refl);
        told = ap (λ (k : KubeletConfiguration). k.cluster_dns) same;
        told_unversioned = ap (λ (k : KubeletConfiguration). k.cluster_dns) same';
        spelled = dns_text-ip_or_nil net _ b.ip b.tenth;
      }
