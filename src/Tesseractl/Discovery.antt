-- ===== src/Tesseractl/Discovery.antt =====
-- cmd/tesseractl/cli/mcp.go, getDiscoveryCAHash and getAPIEndpoint: where a node joins and by which
-- authority it trusts the answer. Errors are without the texts that they quote.
use Prim.Native.String.{◌++◌}
use controlplane_operator.Base.{
  String, none, some, List, [], ◌∷◌, other, wrapped, Result, ok, err, str_eq, lookup, not,
  if◌then◌else◌,
}
use controlplane_operator.Utils.Kubeconfig.{Bytes}
use controlplane_operator.Controller.Kube.{Ingress}
use controlplane_operator.Tesseractl.Strings.{has_colon, trim_space}
use controlplane_operator.Tesseractl.Host.{CliHost, ChildClient}

-- m[key] on a map of texts: empty where the key is missing
unfoldable pub text_entry : String → List (String × String) → String
text_entry key contents = elim (lookup key contents) [ none ↦ "" | some s ↦ s ]

-- The authority of the first cluster of a kubeconfig.
unfoldable pub first_authority : List String → Result String
first_authority [] = err (other "cluster-info kubeconfig missing certificate-authority-data")
first_authority (data_text ∷ rest) =
    if str_eq data_text ""
    then err (other "cluster-info kubeconfig missing certificate-authority-data")
    else ok data_text

-- The host of the load balancer, where it has one.
unfoldable pub ingress_host : List Ingress → String
ingress_host [] = ""
ingress_host (ing ∷ rest) = if str_eq ing.ip "" then ing.hostname else ing.ip

module _ {Cert Yaml : Type 0} (host : CliHost Cert Yaml) where
  -- The certificate in the bytes, or in their first PEM block; without a block the first error stays.
  unfoldable pub parse_ca : Bytes → Result Cert
  parse_ca ca_der = elim (host.parse_certificate ca_der) [
    | ok cert ↦ ok cert
    | err e ↦ elim (host.pem_decode ca_der) [
      | none ↦ err e
      | some block ↦ host.parse_certificate block
    ]
  ]

  unfoldable pub hash_of : Cert → Result String
  hash_of cert = elim (host.marshal_public_key cert) [
    | err e ↦ err e
    | ok spki_der ↦ ok ("sha256:" ++ host.sha256_hex spki_der)
  ]

  unfoldable pub hash_of_authority : String → Result String
  hash_of_authority data_text = elim (host.base64_decode data_text) [
    | err e ↦ err e
    | ok ca_der ↦ elim (parse_ca ca_der) [ err e ↦ err e | ok cert ↦ hash_of cert ]
  ]

  unfoldable pub hash_of_kubeconfig : String → Result String
  hash_of_kubeconfig kcfg =
      if str_eq (trim_space kcfg) ""
      then err (other "kube-public/cluster-info missing .data.kubeconfig")
      else elim (host.unmarshal_authorities kcfg) [
        | err e ↦ err e
        | ok clusters ↦ elim (first_authority clusters) [
          | err e ↦ err e
          | ok data_text ↦ hash_of_authority data_text
        ]
      ]

  unfoldable pub get_discovery_ca_hash : ChildClient → Result String
  get_discovery_ca_hash child = elim (child.get_config_map "kube-public" "cluster-info") [
    | err e ↦ err e
    | ok cm ↦ hash_of_kubeconfig (text_entry "kubeconfig" cm)
  ]

  -- The host of the kubeconfig's server, with the port 6443 if it has none.
  unfoldable pub endpoint_of_server : String → Result String
  endpoint_of_server fallback_server = elim (host.parse_url fallback_server) [
    | err e ↦ err (wrapped "cannot parse kubeconfig server" e)
    | ok found ↦
        if str_eq found ""
        then err (other "kubeconfig server missing host")
        else if not (has_colon found)
        then ok (found ++ ":6443")
        else ok found
  ]

  -- The load balancer of the Service kube-apiserver, or else the server; an error of the read is
  -- dropped.
  unfoldable pub get_api_endpoint : ChildClient → String → Result String
  get_api_endpoint child fallback_server = elim (child.get_service "default" "kube-apiserver") [
    | err e ↦ endpoint_of_server fallback_server
    | ok ingress ↦
        let found = ingress_host ingress in
        if str_eq found "" then endpoint_of_server fallback_server else ok (found ++ ":6443")
  ]
