-- ===== src/Workloads/ApiServerFiles.antt =====
-- The files of the API server and of its konnectivity server, against the certificates of the control
-- plane.
use controlplane_operator.Base.{
  String, ◌≡◌, refl, Option-cases, inl, inr, none, subst, some, List, [], ◌∷◌,
}
use controlplane_operator.Net.{Net}
use controlplane_operator.Api.{NetworkingSpec}
use controlplane_operator.Cluster
use controlplane_operator.Cluster.{
  ClusterContext, VolumeMount, join, namespace, cert_path, key_path, ca_path,
}
use controlplane_operator.Cluster.ApiServer
use controlplane_operator.Builders.Deployment.{Deployment}
use controlplane_operator.Pki.CommonNames.{Durations}
use controlplane_operator.Pki.Resources.{certificate_resources}
use controlplane_operator.Workloads.Backing.{Runs, no_flags, ◌▸◌, nth-Mem, secret-Opens}
use controlplane_operator.Workloads.ApiServer.{apiserver_container, arguments}
use controlplane_operator.Workloads.ApiServerDeployment.{
  build_deployment, deployment_with, konnectivity_container, mounts,
}

abbrev pub apiserver_flags : List String
apiserver_flags =
    "--etcd-cafile=" ∷ "--etcd-certfile=" ∷ "--etcd-keyfile=" ∷ "--client-ca-file="
    ∷ "--tls-cert-file=" ∷ "--tls-private-key-file=" ∷ "--kubelet-client-certificate="
    ∷ "--kubelet-client-key=" ∷ "--service-account-key-file="
    ∷ "--service-account-signing-key-file=" ∷ []

abbrev pub konnectivity_flags : List String
konnectivity_flags = "--cluster-cert=" ∷ "--cluster-key=" ∷ "--cluster-ca-cert=" ∷ []

apiserver-Runs :
    (net : Net) (cc : ClusterContext) (d : Durations) (networking : NetworkingSpec)
    → Runs
        (certificate_resources net cc d)
        (deployment_with cc networking).template
        "apiserver"
        apiserver_flags
unfolding certificate_resources deployment_with apiserver_container konnectivity_container mounts
    arguments cert_path key_path ca_path Cluster.secret_mount Cluster.secret_volume
    ApiServer.client_ca_secret ApiServer.serving_tls_secret ApiServer.etcd_ca_secret
    ApiServer.etcd_client_secret ApiServer.kubelet_client_secret ApiServer.sa_signer_secret
apiserver-Runs net cc d networking = record {
  container = _;
  present = nth-Mem 0 _ refl;
  named = refl;
  opens =
      secret-Opens cc "--etcd-cafile=" (ApiServer.etcd_ca_secret cc) "ca.crt" (nth-Mem 5 _ refl)
        (nth-Mem 4 _ refl) (nth-Mem 4 _ refl) (nth-Mem 1 _ refl) (nth-Mem 0 _ refl)
      ▸ secret-Opens cc "--etcd-certfile=" (ApiServer.etcd_client_secret cc) "tls.crt"
          (nth-Mem 6 _ refl) (nth-Mem 5 _ refl) (nth-Mem 5 _ refl) (nth-Mem 12 _ refl)
          (nth-Mem 1 _ refl)
      ▸ secret-Opens cc "--etcd-keyfile=" (ApiServer.etcd_client_secret cc) "tls.key"
          (nth-Mem 7 _ refl) (nth-Mem 5 _ refl) (nth-Mem 5 _ refl) (nth-Mem 12 _ refl)
          (nth-Mem 2 _ refl)
      ▸ secret-Opens cc "--client-ca-file=" (ApiServer.client_ca_secret cc) "tls.crt"
          (nth-Mem 8 _ refl) (nth-Mem 2 _ refl) (nth-Mem 2 _ refl) (nth-Mem 0 _ refl)
          (nth-Mem 1 _ refl)
      ▸ secret-Opens cc "--tls-cert-file=" (ApiServer.serving_tls_secret cc) "tls.crt"
          (nth-Mem 9 _ refl) (nth-Mem 3 _ refl) (nth-Mem 3 _ refl) (nth-Mem 5 _ refl)
          (nth-Mem 1 _ refl)
      ▸ secret-Opens cc "--tls-private-key-file=" (ApiServer.serving_tls_secret cc) "tls.key"
          (nth-Mem 10 _ refl) (nth-Mem 3 _ refl) (nth-Mem 3 _ refl) (nth-Mem 5 _ refl)
          (nth-Mem 2 _ refl)
      ▸ secret-Opens cc "--kubelet-client-certificate=" (ApiServer.kubelet_client_secret cc)
          "tls.crt" (nth-Mem 11 _ refl) (nth-Mem 6 _ refl) (nth-Mem 6 _ refl) (nth-Mem 7 _ refl)
          (nth-Mem 1 _ refl)
      ▸ secret-Opens cc "--kubelet-client-key=" (ApiServer.kubelet_client_secret cc) "tls.key"
          (nth-Mem 12 _ refl) (nth-Mem 6 _ refl) (nth-Mem 6 _ refl) (nth-Mem 7 _ refl)
          (nth-Mem 2 _ refl)
      ▸ secret-Opens cc "--service-account-key-file=" (ApiServer.sa_signer_secret cc) "tls.crt"
          (nth-Mem 18 _ refl) (nth-Mem 7 _ refl) (nth-Mem 7 _ refl) (nth-Mem 4 _ refl)
          (nth-Mem 1 _ refl)
      ▸ secret-Opens cc "--service-account-signing-key-file=" (ApiServer.sa_signer_secret cc)
          "tls.key" (nth-Mem 19 _ refl) (nth-Mem 7 _ refl) (nth-Mem 7 _ refl) (nth-Mem 4 _ refl)
          (nth-Mem 2 _ refl)
      ▸ no_flags;
}

konnectivity-Runs :
    (net : Net) (cc : ClusterContext) (d : Durations) (networking : NetworkingSpec)
    → Runs
        (certificate_resources net cc d)
        (deployment_with cc networking).template
        "konnectivity-server"
        konnectivity_flags
unfolding certificate_resources deployment_with apiserver_container konnectivity_container mounts
    cert_path key_path ca_path Cluster.secret_mount Cluster.secret_volume
    ApiServer.konnectivity_server_secret ApiServer.konnectivity_ca_secret
konnectivity-Runs net cc d networking = record {
  container = _;
  present = nth-Mem 1 _ refl;
  named = refl;
  opens =
      secret-Opens cc "--cluster-cert=" (ApiServer.konnectivity_server_secret cc) "tls.crt"
        (nth-Mem 3 _ refl) (nth-Mem 1 _ refl) (nth-Mem 10 _ refl) (nth-Mem 6 _ refl)
        (nth-Mem 1 _ refl)
      ▸ secret-Opens cc "--cluster-key=" (ApiServer.konnectivity_server_secret cc) "tls.key"
          (nth-Mem 4 _ refl) (nth-Mem 1 _ refl) (nth-Mem 10 _ refl) (nth-Mem 6 _ refl)
          (nth-Mem 2 _ refl)
      ▸ secret-Opens cc "--cluster-ca-cert=" (ApiServer.konnectivity_ca_secret cc) "ca.crt"
          (nth-Mem 5 _ refl) (nth-Mem 2 _ refl) (nth-Mem 11 _ refl) (nth-Mem 3 _ refl)
          (nth-Mem 0 _ refl)
      ▸ no_flags;
}

pub built :
    (cc : ClusterContext) (dep : Deployment)
    → build_deployment cc ≡ some dep
    → (networking : NetworkingSpec) × (deployment_with cc networking ≡ dep)
unfolding build_deployment
built cp dep e = elim (Option-cases cp.spec.kubernetes.networking) [
  | inr (networking, given) ↦
      let same : some (deployment_with cp networking) ≡ some dep =
        rw (build_deployment, given) at e in
      (networking, cc)
  | inl absent ↦ let clash : none ≡ some dep = rw (build_deployment, absent) at e in cc
]

-- A Deployment that is built has the containers of the API server and of the konnectivity server, and
-- each certificate file that their arguments name is a file of a secret that one of the control
-- plane's certificates writes, in a volume that the container mounts.
pub build_deployment-Runs :
    (net : Net) (cc : ClusterContext) (d : Durations) (dep : Deployment)
    → build_deployment cc ≡ some dep
    → Runs (certificate_resources net cc d) dep.template "apiserver" apiserver_flags
      × Runs (certificate_resources net cc d) dep.template "konnectivity-server" konnectivity_flags
build_deployment-Runs net cc d dep e =
    let (networking, same) = built cc dep e in
    subst
      (λ (x : Deployment).
        Runs (certificate_resources net cc d) x.template "apiserver" apiserver_flags
        × Runs (certificate_resources net cc d) x.template "konnectivity-server" konnectivity_flags)
      same (apiserver-Runs net cc d networking, konnectivity-Runs net cc d networking)
