-- ===== src/Pki/CommonNames.antt =====
-- pkg/resources/pki/const.go, and the durations of pki.go in nanoseconds.
use controlplane_operator.Base.{ℕ, ◌*◌, String}
use controlplane_operator.Controller.Kube.{second}

abbrev pub cn_managed_ca : String
cn_managed_ca = "managed-ca"

abbrev pub cn_etcd_ca : String
cn_etcd_ca = "etcd-ca"

abbrev pub cn_front_proxy_ca : String
cn_front_proxy_ca = "kubernetes-front-proxy-ca"

abbrev pub cn_sa_signer : String
cn_sa_signer = "sa-signer"

abbrev pub cn_apiserver : String
cn_apiserver = "kube-apiserver"

abbrev pub cn_apiserver_kubelet : String
cn_apiserver_kubelet = "kube-apiserver-kubelet-client"

abbrev pub cn_etcd_health : String
cn_etcd_health = "kube-etcd-healthcheck-client"

abbrev pub cn_apiserver_etcd : String
cn_apiserver_etcd = "kube-apiserver-etcd-client"

abbrev pub cn_front_proxy_client : String
cn_front_proxy_client = "front-proxy-client"

abbrev pub cn_cm_client : String
cn_cm_client = "system:kube-controller-manager"

abbrev pub cn_scheduler_client : String
cn_scheduler_client = "system:kube-scheduler"

abbrev pub cn_admin_client : String
cn_admin_client = "kubernetes-admin"

abbrev pub cn_konnectivity_ca : String
cn_konnectivity_ca = "konnectivity-ca"

abbrev pub cn_konnectivity_server : String
cn_konnectivity_server = "konnectivity-server"

abbrev pub cn_konnectivity_agent : String
cn_konnectivity_agent = "konnectivity-agent"

abbrev pub org_system_masters : String
org_system_masters = "system:masters"

abbrev pub hour : ℕ
hour = 3600 * second

pub record Durations : Type 0 where
  pub ten_years : ℕ
  pub thirty_days : ℕ

abbrev pub default_durations : Durations
default_durations = record { ten_years = 87600 * hour; thirty_days = 720 * hour }
