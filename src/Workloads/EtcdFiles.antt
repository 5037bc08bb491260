-- ===== src/Workloads/EtcdFiles.antt =====
-- The files and the addresses of the etcd member, against the certificates of the control plane.
use Prim.Native.String
use controlplane_operator.Base.{ℕ, String, ◌≡◌, refl, ap, sym, ◌∙◌, some, true, List, [], ◌∷◌}
use mathlib.Core.List.{Memᴰ}
use text.Mathlib.TextLemmas.{append_assoc}
use controlplane_operator.Net.{Net}
use controlplane_operator.Utils.Text.{port_string}
use controlplane_operator.Builders.Pod.{Container, PodTemplate, secret_source}
use controlplane_operator.Cluster.{
  ClusterContext, VolumeMount, join, prefix, namespace, cert_path, key_path, ca_path,
}
use controlplane_operator.Cluster
use controlplane_operator.Cluster.Etcd
use controlplane_operator.Builders.Certificate.{Certificate}
use controlplane_operator.Pki.CommonNames.{Durations}
use controlplane_operator.Pki.EtcdCertificates.{
  etcd_server_certificate, etcd_peer_certificate, etcd_dns_names, etcd0_short, etcd_svc_short, pod0,
}
use controlplane_operator.Pki.Resources.{certificate_resources}
use controlplane_operator.Builders.Service.{Service, ServicePort}
use controlplane_operator.Builders.StatefulSet.{StatefulSet}
use controlplane_operator.Api.{ObjectMeta}
use controlplane_operator.Builders.Meta.{with_labels, with_namespace-with_name}
use controlplane_operator.Workloads.Backing.{Runs, no_flags, ◌▸◌, nth-Mem, secret-Opens}
use controlplane_operator.Workloads.Etcd.{
  arguments, build_stateful_set, etcd_container, build_service,
}

abbrev pub file_flags : List String
file_flags =
    "--trusted-ca-file=" ∷ "--cert-file=" ∷ "--key-file=" ∷ "--peer-trusted-ca-file="
    ∷ "--peer-cert-file=" ∷ "--peer-key-file=" ∷ []

-- The pod of etcd has the container, and each certificate file that its arguments name is a file of a
-- secret that one of the control plane's certificates writes, in a volume that the container mounts.
pub build_stateful_set-Runs :
    (net : Net) (cc : ClusterContext) (d : Durations)
    → Runs
        (certificate_resources net cc d)
        (build_stateful_set cc).template
        (Etcd.service_name cc)
        file_flags
unfolding certificate_resources build_stateful_set etcd_container arguments Etcd.ca_path
    Etcd.server_cert_path Etcd.server_key_path Etcd.peer_cert_path Etcd.peer_key_path Etcd.ca_secret
    Etcd.server_tls_secret Etcd.peer_tls_secret cert_path key_path ca_path Cluster.secret_mount
    Cluster.secret_volume
build_stateful_set-Runs net cc d = record {
  container = etcd_container cc;
  present = nth-Mem 0 _ refl;
  named = refl;
  opens =
      secret-Opens cc "--trusted-ca-file=" (Etcd.ca_secret cc) "ca.crt" (nth-Mem 10 _ refl)
        (nth-Mem 1 _ refl) (nth-Mem 0 _ refl) (nth-Mem 1 _ refl) (nth-Mem 0 _ refl)
      ▸ secret-Opens cc "--cert-file=" (Etcd.server_tls_secret cc) "tls.crt" (nth-Mem 11 _ refl)
          (nth-Mem 2 _ refl) (nth-Mem 1 _ refl) (nth-Mem 9 _ refl) (nth-Mem 1 _ refl)
      ▸ secret-Opens cc "--key-file=" (Etcd.server_tls_secret cc) "tls.key" (nth-Mem 12 _ refl)
          (nth-Mem 2 _ refl) (nth-Mem 1 _ refl) (nth-Mem 9 _ refl) (nth-Mem 2 _ refl)
      ▸ secret-Opens cc "--peer-trusted-ca-file=" (Etcd.ca_secret cc) "ca.crt" (nth-Mem 13 _ refl)
          (nth-Mem 1 _ refl) (nth-Mem 0 _ refl) (nth-Mem 1 _ refl) (nth-Mem 0 _ refl)
      ▸ secret-Opens cc "--peer-cert-file=" (Etcd.peer_tls_secret cc) "tls.crt" (nth-Mem 14 _ refl)
          (nth-Mem 3 _ refl) (nth-Mem 2 _ refl) (nth-Mem 10 _ refl) (nth-Mem 1 _ refl)
      ▸ secret-Opens cc "--peer-key-file=" (Etcd.peer_tls_secret cc) "tls.key" (nth-Mem 15 _ refl)
          (nth-Mem 3 _ refl) (nth-Mem 2 _ refl) (nth-Mem 10 _ refl) (nth-Mem 2 _ refl)
      ▸ no_flags;
}

abbrev tcp_port : String → ℕ → ServicePort
tcp_port n port = record { name = n; port = port; target_port = port; protocol = "TCP" }

-- The flags with which etcd is told where to listen, what to advertise and which certificate to show.
pub record Flags : Type 0 where
  pub listen : String
  pub advertise : String
  pub cert_file : String
  pub key_file : String

abbrev pub client_flags : Flags
client_flags = record {
  listen = "--listen-client-urls=https://0.0.0.0:";
  advertise = "--advertise-client-urls=https://";
  cert_file = "--cert-file=";
  key_file = "--key-file=";
}

abbrev pub peer_flags : Flags
peer_flags = record {
  listen = "--listen-peer-urls=https://0.0.0.0:";
  advertise = "--initial-advertise-peer-urls=https://";
  cert_file = "--peer-cert-file=";
  key_file = "--peer-key-file=";
}

-- The container of the member listens on the port, advertises the address and shows the certificate:
-- the files that it is told to show are in a mount of the secret that the certificate is written to.
pub record Shows (pod : PodTemplate) (cert : Certificate) (flags : Flags) (fqdn : String) (port : ℕ)
    : Type 0 where
  pub container : Container
  pub present : Memᴰ container pod.containers
  pub listening : Memᴰ (String.◌++◌ flags.listen (port_string port)) container.args
  pub advertised : Memᴰ (String.◌++◌ flags.advertise fqdn) container.args
  pub mount : VolumeMount
  pub cert_shown :
      Memᴰ (String.◌++◌ flags.cert_file (join mount.mount_path "tls.crt")) container.args
  pub key_shown : Memᴰ (String.◌++◌ flags.key_file (join mount.mount_path "tls.key")) container.args
  pub mounted : Memᴰ mount container.volume_mounts
  pub volume :
      Memᴰ (record { name = mount.name; source = secret_source cert.spec.secret_name }) pod.volumes

-- How a client gets from the address that etcd advertises to the etcd member.
pub record Reached (svc : Service) (ss : StatefulSet) (cert : Certificate) (flags : Flags)
    (fqdn : String) (port : ℕ) : Type 0 where
  pub shows : Shows ss.template cert flags fqdn port
  pub host : String
  pub address : fqdn ≡ String.◌++◌ host (String.◌++◌ ":" (port_string port))
  -- The host is the first pod of the set, under its governing service, which is headless.
  pub first_pod :
      host
      ≡ String.◌++◌ (String.◌++◌ ss.meta.name "-0") (
          String.◌++◌ "."
            (String.◌++◌ svc.meta.name (String.◌++◌ "." (String.◌++◌ svc.meta.namespace ".svc"))))
  pub governed : ss.service_name ≡ svc.meta.name
  pub together : ss.meta.namespace ≡ svc.meta.namespace
  pub headless : svc.cluster_ip ≡ "None"
  pub selects : ss.template.labels ≡ some svc.selector
  pub listens : (n : String) × Memᴰ (tcp_port n port) svc.ports
  pub covered : Memᴰ host cert.spec.dns_names

member_text : (s : String) → String.◌++◌ "etcd-0" s ≡ String.◌++◌ "etcd" (String.◌++◌ "-0" s)
member_text s = append_assoc "etcd" "-0" s

port_text : (s : String) → String.◌++◌ ".svc:" s ≡ String.◌++◌ ".svc" (String.◌++◌ ":" s)
port_text s = append_assoc ".svc" ":" s

etcd0_short-port :
    (cc : ClusterContext) (port : String)
    → String.◌++◌ (Etcd.member_name cc) (
        String.◌++◌ "." (
          String.◌++◌
            (Etcd.service_name cc)
            (String.◌++◌ "." (String.◌++◌ (namespace cc) (String.◌++◌ ".svc:" port)))))
      ≡ String.◌++◌ (etcd0_short cc) (String.◌++◌ ":" port)
unfolding etcd0_short etcd_svc_short pod0 Etcd.member_name prefix Etcd.stateful_set_name
etcd0_short-port cc port = simp (append_assoc, member_text, port_text)

service_named :
    (cc : ClusterContext)
    → ((build_service cc).meta.name ≡ Etcd.service_name cc)
      × ((build_service cc).meta.namespace ≡ namespace cc)
unfolding build_service with_labels
service_named cc =
    let made = with_namespace-with_name (Etcd.service_name cc) (namespace cc) in
    (ap (λ (x : ObjectMeta). x.name) made, ap (λ (x : ObjectMeta). x.namespace) made)

set_named :
    (cc : ClusterContext)
    → ((build_stateful_set cc).meta.name ≡ Etcd.stateful_set_name cc)
      × ((build_stateful_set cc).meta.namespace ≡ namespace cc)
unfolding build_stateful_set with_labels
set_named cc =
    let made = with_namespace-with_name (Etcd.stateful_set_name cc) (namespace cc) in
    (ap (λ (x : ObjectMeta). x.name) made, ap (λ (x : ObjectMeta). x.namespace) made)

governs : (cc : ClusterContext) → (build_stateful_set cc).service_name ≡ Etcd.service_name cc
unfolding build_stateful_set
governs cc = refl

selected :
    (cc : ClusterContext)
    → ((build_stateful_set cc).template.labels ≡ some (build_service cc).selector)
      × ((build_service cc).cluster_ip ≡ "None")
unfolding build_service build_stateful_set
selected cc = (refl, refl)

-- What both addresses share.
member-Reached :
    (cc : ClusterContext) (cert : Certificate) (flags : Flags) (fqdn : String) (port : ℕ)
    → Shows (build_stateful_set cc).template cert flags fqdn port
    → fqdn ≡ String.◌++◌ (etcd0_short cc) (String.◌++◌ ":" (port_string port))
    → (n : String) × Memᴰ (tcp_port n port) (build_service cc).ports
    → Memᴰ (etcd0_short cc) cert.spec.dns_names
    → Reached (build_service cc) (build_stateful_set cc) cert flags fqdn port
unfolding etcd0_short etcd_svc_short pod0
member-Reached cc cert flags fqdn port shows address listens covered =
    let (svc, svc_ns) = service_named cc in
    let (ss, ss_ns) = set_named cc in
    record {
      shows = shows;
      host = etcd0_short cc;
      address = address;
      first_pod = rw (svc, svc_ns, ss) refl;
      governed = governs cc ∙ sym svc;
      together = ss_ns ∙ sym svc_ns;
      headless = (selected cc).1;
      selects = (selected cc).0;
      listens = listens;
      covered = covered;
    }

client-Shows :
    (cc : ClusterContext) (d : Durations)
    → Shows
        (build_stateful_set cc).template
        (etcd_server_certificate cc d)
        client_flags
        (Etcd.member_fqdn_client cc)
        Etcd.client_port
unfolding build_stateful_set etcd_container arguments Etcd.server_cert_path Etcd.server_key_path
    Etcd.server_tls_secret cert_path key_path Cluster.secret_mount Cluster.secret_volume
client-Shows cc d = record {
  container = etcd_container cc;
  present = nth-Mem 0 _ refl;
  listening = nth-Mem 2 _ refl;
  advertised = nth-Mem 3 _ refl;
  mount = Cluster.secret_mount cc (Etcd.server_tls_secret cc) true;
  cert_shown = nth-Mem 11 _ refl;
  key_shown = nth-Mem 12 _ refl;
  mounted = nth-Mem 2 _ refl;
  volume = nth-Mem 1 _ refl;
}

peer-Shows :
    (cc : ClusterContext) (d : Durations)
    → Shows
        (build_stateful_set cc).template
        (etcd_peer_certificate cc d)
        peer_flags
        (Etcd.member_fqdn_peer cc)
        Etcd.peer_port
unfolding build_stateful_set etcd_container arguments Etcd.peer_cert_path Etcd.peer_key_path
    Etcd.peer_tls_secret cert_path key_path Cluster.secret_mount Cluster.secret_volume
peer-Shows cc d = record {
  container = etcd_container cc;
  present = nth-Mem 0 _ refl;
  listening = nth-Mem 4 _ refl;
  advertised = nth-Mem 5 _ refl;
  mount = Cluster.secret_mount cc (Etcd.peer_tls_secret cc) true;
  cert_shown = nth-Mem 14 _ refl;
  key_shown = nth-Mem 15 _ refl;
  mounted = nth-Mem 3 _ refl;
  volume = nth-Mem 2 _ refl;
}

-- etcd listens on the ports for clients and for peers, advertises an address for each, and shows there
-- the server certificate and the peer certificate: the files that it is told to show are in a mount of
-- the secret that the certificate is written to. Each address leads to the member: the host is the
-- first pod of the StatefulSet under its headless service, the service selects the labels of the pods
-- and has the port, and the host is among the names of the certificate that is shown there.
pub etcd-Reached :
    (cc : ClusterContext) (d : Durations)
    → Reached
        (build_service cc)
        (build_stateful_set cc)
        (etcd_server_certificate cc d)
        client_flags
        (Etcd.member_fqdn_client cc)
        Etcd.client_port
      × Reached
          (build_service cc)
          (build_stateful_set cc)
          (etcd_peer_certificate cc d)
          peer_flags
          (Etcd.member_fqdn_peer cc)
          Etcd.peer_port
unfolding build_service Etcd.member_fqdn_client Etcd.member_fqdn_peer etcd_dns_names
etcd-Reached cc d = (
  member-Reached cc _ client_flags _ Etcd.client_port (client-Shows cc d) (etcd0_short-port cc _)
      ("client", nth-Mem 0 _ refl) (nth-Mem 0 _ refl),
  member-Reached cc _ peer_flags _ Etcd.peer_port (peer-Shows cc d) (etcd0_short-port cc _)
      ("peer", nth-Mem 1 _ refl) (nth-Mem 0 _ refl),
)
