-- ===== src/AddonResources/Join/References.antt =====
-- What the join resources refer to, and the one ClusterRole that is missing.
use controlplane_operator.Base.{
  String, ◌≡◌, refl, Option, none, some, true, false, List, [], ◌∷◌, ◌++◌, All, ◌&◌, Option-cases,
  inl, inr, insert, lookup,
}
use mathlib.Core.List.{Memᴰ}
use controlplane_operator.Api.{NetworkingSpec}
use controlplane_operator.Net.{Ip, Net}
use controlplane_operator.Workloads.Backing.{nth-Mem}
use controlplane_operator.Utils.Kubeconfig.{Bytes}
use controlplane_operator.Utils.Text.{merge_into}
use controlplane_operator.Cluster.{ClusterContext}
use controlplane_operator.Builders.Meta.{with_name, with_namespace, with_labels, with_annotations}
use controlplane_operator.Controller.Addons.Token.{BootstrapToken}
use controlplane_operator.AddonResources.Objects.{Object, cluster_role_binding_object}
use controlplane_operator.AddonResources.Backing.Longer.{Closed}
use controlplane_operator.AddonResources.Backing.{Backed, namespaces_first, role_built}
use controlplane_operator.AddonResources.Konnectivity
use controlplane_operator.AddonResources.CoreDns
use controlplane_operator.AddonResources.Flannel
use controlplane_operator.AddonResources.Csi
use controlplane_operator.AddonResources.Addons
use controlplane_operator.AddonResources.Addons.Supported.{all_objects, objects-Built}
use controlplane_operator.AddonResources.Join.{objects, objects_with}
use controlplane_operator.AddonResources.Join.Token.{bootstrap_token_secret}
use controlplane_operator.AddonResources.Join.Bindings
use controlplane_operator.AddonResources.Join.Roles
use controlplane_operator.AddonResources.Join.Configs.{
  Encoders, KubeletConfiguration, cluster_info, kubeadm_config_config_map,
  kubelet_config_unversioned, kubelet_config_versioned, versioned_configuration,
  unversioned_configuration,
}

-- The ClusterRoles of a new cluster that the join resources use.
abbrev pub own_cluster_roles : List String
own_cluster_roles =
    Bindings.role_node_client_csr_approve ∷ Bindings.role_self_node_client_csr
    ∷ Bindings.role_node_bootstrapper ∷ []

abbrev pub missing_role : String
missing_role = "system:kubelet-config-reader"

pub objects_inv :
    (net : Net) (enc : Encoders) (mcp : ClusterContext) (tok : BootstrapToken) (ca_pem : Bytes)
    {objs : List Object}
    → objects net enc mcp tok ca_pem ≡ some objs
    → (kc unversioned : KubeletConfiguration) × (versioned_configuration net mcp ≡ some kc)
      × (unversioned_configuration net mcp ≡ some unversioned)
      × (objs ≡ objects_with enc mcp tok ca_pem kc unversioned)
unfolding objects
objects_inv net enc mcp tok ca_pem {objs} h =
    elim (Option-cases (versioned_configuration net mcp)) [
      | inl e ↦
          let gone : ◌≡◌ {A = Option (List Object)} none (some objs) = rw (e, objects) at h in cc
      | inr (kc, e) ↦ elim (Option-cases (unversioned_configuration net mcp)) [
        | inl e' ↦
            let gone : ◌≡◌ {A = Option (List Object)} none (some objs) = rw (e, e', objects) at h in
            cc
        | inr (other, e') ↦ (
          kc,
          other,
          e,
          e',
          let same : some (objects_with enc mcp tok ca_pem kc other) ≡ some objs =
                rw (e, e', objects) at h in
              cc,
        )
      ]
    ]

module _ (enc : Encoders) (mcp : ClusterContext) (tok : BootstrapToken) (ca_pem : Bytes)
    (kc unversioned : KubeletConfiguration) where
  objects_with-Closed :
      Closed (missing_role ∷ own_cluster_roles) (objects_with enc mcp tok ca_pem kc unversioned)
  unfolding objects_with bootstrap_token_secret cluster_info kubeadm_config_config_map
      kubelet_config_unversioned kubelet_config_versioned Bindings.kubelet_config
      Bindings.node_autoapprove_bootstrap Bindings.node_autoapprove_rotation
      Bindings.node_bootstrapper Roles.cluster_info_role Roles.cluster_info_role_binding_anon
      Roles.kubeadm_get_nodes_cluster_role Roles.kubeadm_get_nodes_cluster_role_binding
      Roles.kubeadm_kubelet_config_role Roles.kubeadm_kubelet_config_role_binding
      Roles.kubeadm_nodes_kubeadm_config_role Roles.kubeadm_nodes_kubeadm_config_role_binding
      with_name with_namespace with_labels with_annotations merge_into insert lookup
  objects_with-Closed = (
    tt
        & (refl, refl)
        & (refl, refl)
        & (refl, refl)
        & tt
        & refl
        & (refl, refl)
        & tt
        & tt
        & (refl, refl)
        & refl
        & (refl, refl)
        & refl
        & (refl, refl)
        & tt
        & (refl, refl)
        & tt
        & tt,
    refl,
  )

  kubelet_config_built :
      Memᴰ
        (cluster_role_binding_object Bindings.kubelet_config)
        (objects_with enc mcp tok ca_pem kc unversioned)
  unfolding objects_with
  kubelet_config_built = nth-Mem 9 (objects_with enc mcp tok ca_pem kc unversioned) refl

  -- Neither the join resources nor the add-ons have the role.
  missing_nowhere :
      (net : Net) (networking : NetworkingSpec) (ip : Option Ip)
      → role_built own_cluster_roles
          (objects_with enc mcp tok ca_pem kc unversioned ++ all_objects net mcp networking ip)
          ""
          "ClusterRole"
          missing_role
        ≡ false
  unfolding objects_with bootstrap_token_secret cluster_info kubeadm_config_config_map
      kubelet_config_unversioned kubelet_config_versioned Bindings.kubelet_config
      Bindings.node_autoapprove_bootstrap Bindings.node_autoapprove_rotation
      Bindings.node_bootstrapper Roles.cluster_info_role Roles.cluster_info_role_binding_anon
      Roles.kubeadm_get_nodes_cluster_role Roles.kubeadm_get_nodes_cluster_role_binding
      Roles.kubeadm_kubelet_config_role Roles.kubeadm_kubelet_config_role_binding
      Roles.kubeadm_nodes_kubeadm_config_role Roles.kubeadm_nodes_kubeadm_config_role_binding
      with_name with_namespace Konnectivity.build_konnectivity_agent Csi.build_csi
      Csi.build_csi_cluster_role CoreDns.core_dns_objects CoreDns.build_core_dns_cluster_role
      Flannel.build_flannel_cluster_role with_annotations with_labels
  missing_nowhere net networking ip = refl

module _ (net : Net) (enc : Encoders) (mcp : ClusterContext) (tok : BootstrapToken)
    (ca_pem : Bytes) where
  -- When the join resources are built, each has what it refers to among them, or is a binding of a
  -- ClusterRole that a new cluster has, and stands behind its namespace; but for the binding
  -- `kubeadm:kubelet-config`, which is among them and whose ClusterRole is neither one of those nor
  -- among the join resources or the add-ons.
  pub join-Backed_but_one :
      (objs adds : List Object)
      → objects net enc mcp tok ca_pem ≡ some objs
      → Addons.objects net mcp ≡ some adds
      → All (Backed (missing_role ∷ own_cluster_roles) objs) objs
        × (namespaces_first [] objs ≡ true)
        × Memᴰ (cluster_role_binding_object Bindings.kubelet_config) objs
        × (Bindings.kubelet_config.role_ref.name ≡ missing_role)
        × (role_built own_cluster_roles (objs ++ adds) "" "ClusterRole" missing_role ≡ false)
  unfolding Bindings.kubelet_config
  join-Backed_but_one objs adds h more =
      let (kc, unversioned, made, made', whole) = objects_inv net enc mcp tok ca_pem h in
      let b = objects-Built net mcp more in
      let (backed, ordered) = objects_with-Closed enc mcp tok ca_pem kc unversioned in
      rw (whole) (
        rw (b.whole) (
          backed,
          ordered,
          kubelet_config_built enc mcp tok ca_pem kc unversioned,
          refl,
          missing_nowhere enc mcp tok ca_pem kc unversioned net b.networking b.ip,
        ))
