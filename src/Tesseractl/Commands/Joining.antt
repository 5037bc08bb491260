-- ===== src/Tesseractl/Commands/Joining.antt =====
-- The printed join command names what the operator made.
use Prim.Native.String.{◌++◌}
use text.Mathlib.TextLemmas.{cons-append}
use mathlib.Core.List.{Memᴰ}
use controlplane_operator.Base.{
  ◌<◌, String, ◌≡◌, ◌≢◌, ◌⊎◌, ◌∙◌, ap, sym, refl, true, some, List, [], ◌∷◌, Error, Result, ok, err,
  All, arith, eq_iff, lookup, insert, is_some,
}
use controlplane_operator.Utils.Kubeconfig
use controlplane_operator.Utils.Kubeconfig.{Bytes, Config, build_kubeconfig_with_cert_data}
use controlplane_operator.Utils.Text.{index_byte}
use controlplane_operator.Cluster.{ClusterContext}
use controlplane_operator.Controller.Kube.{Secret}
use controlplane_operator.Controller.AdminConfig.{admin_kubeconfig, kubeconfig_secret}
use controlplane_operator.Controller.Addons.Token.{BootstrapToken, token_string}
use controlplane_operator.AddonResources.Join.Token.{bootstrap_token_secret}
use controlplane_operator.AddonResources.Join.Configs.{Encoders, cluster_info, cluster_info_config}
use controlplane_operator.Tesseractl.Strings.{has_colon, trim_space}
use controlplane_operator.Tesseractl.Host.{
  CliHost, ChildClient, HostClient, IsSort, Listed, RestConfig, StoredSecret,
}
use controlplane_operator.Tesseractl.Flags.{
  EffectiveFlags, GivenFlags, effective_kubeconfig_flags, new_client,
}
use controlplane_operator.Tesseractl.Tokens.{bootstrap_tokens, get_latest_bootstrap_token}
use controlplane_operator.Tesseractl.Tokens.Latest.{
  IsPart, IsStored, get_latest_bootstrap_token-bootstrap_token_secret,
}
use controlplane_operator.Tesseractl.Discovery.{
  endpoint_of_server, first_authority, get_api_endpoint, get_discovery_ca_hash, hash_of,
  hash_of_authority, hash_of_kubeconfig, parse_ca, text_entry,
}
use controlplane_operator.Tesseractl.Commands.{
  admin_config_secret_key, admin_secret, join_for, join_line, join_with,
}

index_byte-port : (s : String) → is_some (index_byte (s ++ ":6443") b':') ≡ true
unfolding index_byte
index_byte-port String.[] = refl
index_byte-port (String.◌∷◌ c s) = rw (cons-append c s ":6443") (ground (arith, index_byte-port s))

has_colon-port : (s : String) → has_colon (s ++ ":6443") ≡ true
unfolding has_colon
has_colon-port s = index_byte-port s

port-ne-empty : (s : String) → s ++ ":6443" ≢ ""
unfolding has_colon index_byte
port-ne-empty s e = let colon : has_colon "" ≡ true = rw e at (has_colon-port s) in cc

-- What the libraries of the operator and of the tool promise each other: what base64 encodes it decodes,
-- and of a kubeconfig that is written with one cluster, the encoded authority is read back.
pub record IsFaithful {Cert Yaml : Type 0} (host : CliHost Cert Yaml) (enc : Encoders)
    : Type 0 where
  pub encode64 : Bytes → String
  pub blank : encode64 [] ≡ ""
  pub decodes : (b : Bytes) → host.base64_decode (encode64 b) ≡ ok b
  pub reads :
      (cfg : Config) (name : String) (cl : Kubeconfig.Cluster) (text : String)
      → enc.write_config cfg ≡ ok text
      → cfg.clusters ≡ (name, cl) ∷ []
      → host.unmarshal_authorities text ≡ ok (encode64 cl.certificate_authority_data ∷ [])

module _ {Cert Yaml : Type 0} (host : CliHost Cert Yaml) (sorts : IsSort host.sort_by_creation)
    (enc : Encoders) (faithful : IsFaithful host enc) (write : Config → Result Bytes)
    (mcp : ClusterContext) (tok : BootstrapToken) (ca_pem : Bytes) where
  abbrev endpoint : String
  endpoint = mcp.status.address ++ ":6443"

  -- A managed cluster that has the join resources of a control plane, as they were applied, the token
  -- the newest; its authority is the PEM of a certificate, and no Service has its own address.
  pub record Joinable (child : ChildClient) : Type 0 where
    pub bytes : String → Bytes
    pub secs : List StoredSecret
    pub kept : StoredSecret
    pub listed : child.list_secrets "kube-system" ≡ ok secs
    pub among : Memᴰ kept secs
    pub stored : IsStored bytes (bootstrap_token_secret tok) kept
    pub newest :
        All (λ (t : StoredSecret). (t ≡ kept) ⊎ (t.created < kept.created)) (bootstrap_tokens secs)
    pub id : IsPart host.text bytes tok.id
    pub secret : IsPart host.text bytes tok.secret
    pub info :
        child.get_config_map "kube-public" "cluster-info"
        ≡ ok (cluster_info enc mcp ca_pem).contents
    pub written : String
    pub writes : enc.write_config (cluster_info_config mcp ca_pem) ≡ ok written
    pub some_text : trim_space written ≢ ""
    pub some_ca : ca_pem ≢ []
    pub der : Bytes
    pub cert : Cert
    pub not_der : (e : Error) × (host.parse_certificate ca_pem ≡ err e)
    pub pem : host.pem_decode ca_pem ≡ some der
    pub parses : host.parse_certificate der ≡ ok cert
    pub spki_der : Bytes
    pub marshals : host.marshal_public_key cert ≡ ok spki_der
    pub no_service : (e : Error) × (child.get_service "default" "kube-apiserver" ≡ err e)
    -- The address is one that a URL can have.
    pub is_host : host.parse_url ("https://" ++ mcp.status.address ++ ":6443") ≡ ok endpoint

  -- A host cluster in which the tool finds the administrator's kubeconfig as the operator wrote it; the
  -- client that is configured from it has the server of its cluster and reaches the managed cluster.
  pub record Hosted (given : GivenFlags) (name : String) (child : ChildClient) : Type 0 where
    pub eff : EffectiveFlags
    pub selected : effective_kubeconfig_flags host given ≡ ok eff
    pub k8s : HostClient
    pub connected : new_client host eff.context eff.kubeconfig_path ≡ ok k8s
    pub found : Listed
    pub read : k8s.get_control_plane (record { namespace = eff.namespace; name = name }) ≡ ok found
    pub sec : StoredSecret
    pub fetched :
        k8s.get_secret (record {
          namespace = eff.namespace;
          name = found.mcp.status.admin_kubeconfig_secret_ref;
        })
        ≡ ok sec
    pub admin_client : Secret
    pub config_bytes : Bytes
    pub wrote : write (admin_kubeconfig mcp admin_client) ≡ ok config_bytes
    pub same : sec.contents ≡ (kubeconfig_secret mcp config_bytes).contents
    pub loads :
        (cluster : String) (cl : Kubeconfig.Cluster)
        → (admin_kubeconfig mcp admin_client).clusters ≡ (cluster, cl) ∷ []
        → host.rest_config_from_kube_config config_bytes ≡ ok (record { host = cl.server })
    pub reaches :
        (cfg : RestConfig)
        → host.rest_config_from_kube_config config_bytes ≡ ok cfg
        → host.new_for_config cfg ≡ ok child

  -- The cluster of the ConfigMap cluster-info, at which kubeadm goes on.
  abbrev info_cluster : Kubeconfig.Cluster
  info_cluster = record {
    server = "https://" ++ mcp.status.address ++ ":6443";
    certificate_authority = "";
    certificate_authority_data = ca_pem;
  }

  info_clusters : (cluster_info_config mcp ca_pem).clusters ≡ ("", info_cluster) ∷ []
  unfolding cluster_info_config insert
  info_clusters = refl

  encoded-ne-empty : ca_pem ≢ [] → faithful.encode64 ca_pem ≢ ""
  encoded-ne-empty some_ca e =
      let same : ◌≡◌ {A = Result Bytes} (ok ca_pem) (ok []) =
        sym (faithful.decodes ca_pem)
        ∙ ap host.base64_decode (e ∙ sym faithful.blank)
        ∙ faithful.decodes [] in
      absurd (some_ca cc)

  module _ (child : ChildClient) (j : Joinable child) where
    endpoint-found :
        get_api_endpoint host child ("https://" ++ mcp.status.address ++ ":6443") ≡ ok endpoint
    unfolding get_api_endpoint endpoint_of_server
    endpoint-found =
        rw (j.no_service.1, get_api_endpoint)
          (rw (j.is_host, endpoint_of_server)
            (ground (
              arith,
              has_colon-port mcp.status.address,
              port-ne-empty mcp.status.address,
              eq_iff (mcp.status.address ++ ":6443") "",
            )))

    info_text : text_entry "kubeconfig" (cluster_info enc mcp ca_pem).contents ≡ j.written
    unfolding text_entry cluster_info insert lookup
    info_text = rw (j.writes) refl

    certificate : parse_ca host ca_pem ≡ ok j.cert
    unfolding parse_ca
    certificate = rw (j.not_der.1, parse_ca) (rw (j.pem, parse_ca) j.parses)

    authority_hash :
        hash_of_authority host (faithful.encode64 ca_pem)
        ≡ ok ("sha256:" ++ host.sha256_hex j.spki_der)
    unfolding hash_of_authority hash_of
    authority_hash =
        rw (faithful.decodes ca_pem, hash_of_authority)
          (rw (certificate, hash_of_authority) (rw (j.marshals, hash_of) refl))

    kubeconfig_hash :
        hash_of_kubeconfig host j.written ≡ ok ("sha256:" ++ host.sha256_hex j.spki_der)
    unfolding hash_of_kubeconfig first_authority
    kubeconfig_hash =
        let full = j.some_text in
        let known = encoded-ne-empty j.some_ca in
        ground (
          arith,
          faithful.reads (cluster_info_config mcp ca_pem) "" info_cluster j.written j.writes
              info_clusters,
          authority_hash,
          full,
          known,
          eq_iff (trim_space j.written) "",
          eq_iff (faithful.encode64 ca_pem) "",
        )

    hash-found : get_discovery_ca_hash host child ≡ ok ("sha256:" ++ host.sha256_hex j.spki_der)
    unfolding get_discovery_ca_hash
    hash-found = rw (j.info, get_discovery_ca_hash) (rw (info_text) (kubeconfig_hash))

    abbrev printed_line : String
    printed_line = join_line endpoint (token_string tok) ("sha256:" ++ host.sha256_hex j.spki_der)

    join_with-printed :
        join_with host child (record { host = "https://" ++ mcp.status.address ++ ":6443" })
        ≡ ok printed_line
    unfolding join_with
    join_with-printed =
        let token : get_latest_bootstrap_token host child ≡ ok (token_string tok) =
          get_latest_bootstrap_token-bootstrap_token_secret host sorts child j.bytes tok j.kept
            j.secs j.listed j.among j.stored j.newest j.id j.secret in
        rw (token) (rw (hash-found) (rw (endpoint-found) refl))

    module _ (given : GivenFlags) (name : String) (hosted : Hosted given name child) where
      secret-found : admin_secret host hosted.k8s hosted.eff name ≡ ok hosted.sec
      unfolding admin_secret
      secret-found = rw (hosted.read) (rw (hosted.fetched) refl)

      bytes-found : lookup admin_config_secret_key hosted.sec.contents ≡ some hosted.config_bytes
      unfolding kubeconfig_secret lookup
      bytes-found = rw (hosted.same) refl

      config-loaded :
          host.rest_config_from_kube_config hosted.config_bytes
          ≡ ok (record { host = "https://" ++ mcp.status.address ++ ":6443" })
      unfolding admin_kubeconfig build_kubeconfig_with_cert_data insert
      config-loaded = hosted.loads _ _ refl

      -- In a host cluster with the administrator's kubeconfig that the operator wrote for a control
      -- plane, and a managed cluster that has its join resources, the token the newest, the tool prints
      -- the join command with the control plane's address at port 6443, with exactly that token, and
      -- with the hash of the public key of the certificate that is the authority's PEM; and the ConfigMap
      -- where kubeadm goes on names one cluster, at the same address and with the same authority.
      pub join_for_lem :
          (join_for host given name ≡ ok printed_line)
          × ((cl : Kubeconfig.Cluster) × ((cluster_info_config mcp ca_pem).clusters ≡ ("", cl) ∷ [])
              × (cl.server ≡ "https://" ++ mcp.status.address ++ ":6443")
              × (cl.certificate_authority_data ≡ ca_pem))
      unfolding join_for
      join_for_lem = (
        rw (hosted.selected) (
            rw (hosted.connected) (
              rw (secret-found) (
                rw (bytes-found)
                  (rw (config-loaded) (rw (hosted.reaches _ config-loaded) join_with-printed))))),
        (info_cluster, info_clusters, refl, refl),
      )
