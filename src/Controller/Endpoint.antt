-- ===== src/Controller/Endpoint.antt =====
-- pkg/controller/apiserver.go, and the two status updates of helpers.go: the API server's Service and
-- the address that its load balancer gives.
pub mod Stored
pub mod Address
use controlplane_operator.Base.{
  String, Bool, Option, none, some, List, [], ◌∷◌, Error, Result, ok, err, Effect, str_eq, not,
  if◌then◌else◌,
}
use controlplane_operator.Api.{ManagedControlPlane, ObjectMeta}
use controlplane_operator.Cluster.ApiServer
use controlplane_operator.Controller.Kube.{
  Key, Ingress, Reply, Machinery, Client, Renderer, done, requeue_later,
}
use controlplane_operator.Controller.Apply.{apply, apply_opts}

-- client.ObjectKeyFromObject
abbrev pub object_key : ManagedControlPlane → Key
object_key mcp = record { namespace = mcp.meta.namespace; name = mcp.meta.name }

-- `if err := e; err != nil { return r, err }`, and what follows it
abbrev pub on_error :
    {W : Type 0} → Option Error × W → (Error → Reply) → (W → Reply × W) → Reply × W
on_error (none, w) reply rest = rest w
on_error (some e, w) reply rest = (reply e, w)

-- The first ingress's IP, else its host name, else "".
unfoldable pub ingress_address : List Ingress → String
ingress_address [] = ""
ingress_address (ing ∷ _) =
    if not (str_eq ing.ip "")
    then ing.ip
    else if not (str_eq ing.hostname "")
    then ing.hostname
    else ""

unfoldable pub set_address : String → ManagedControlPlane → ManagedControlPlane
set_address address mcp =
    let status = mcp.status in record mcp { status = record status { address = address } }

unfoldable pub set_admin_secret_ref : String → ManagedControlPlane → ManagedControlPlane
set_admin_secret_ref secret_name mcp =
    let status = mcp.status in
    record mcp { status = record status { admin_kubeconfig_secret_ref = secret_name } }

module _ {Obj W : Type 0} (m : Machinery Obj) (c : Client Obj W) where
  unfoldable pub try_endpoint_address : (name namespace : String) → W → Result String
  unfolding ingress_address
  try_endpoint_address name namespace w =
      elim (c.get_service (record { namespace = namespace; name = name }) w) [
        | err e ↦ err e
        | ok svc ↦ ok (ingress_address svc.ingress)
      ]

  -- The closure under RetryOnConflict: read the object anew, change its status, write the status.
  unfoldable pub update_latest : (ManagedControlPlane → ManagedControlPlane) → Key → Effect W
  update_latest change key w = elim (c.get_control_plane key w) [
    | err e ↦ (some e, w)
    | ok latest ↦ c.update_status (change latest) w
  ]

  unfoldable pub update_mcp_address : ManagedControlPlane → String → Effect W
  unfolding set_address update_latest
  update_mcp_address mcp address =
      c.retry_on_conflict (update_latest (set_address address) (object_key mcp))

  unfoldable pub update_mcp_admin_secret_ref : ManagedControlPlane → String → Effect W
  unfolding set_admin_secret_ref update_latest
  update_mcp_admin_secret_ref mcp secret_name =
      c.retry_on_conflict (update_latest (set_admin_secret_ref secret_name) (object_key mcp))

  -- What follows the apply in reconcileAPIServiceSvc.
  unfoldable pub publish_address : ManagedControlPlane → W → Reply × W
  publish_address mcp w =
      elim (try_endpoint_address (ApiServer.service_name mcp) mcp.meta.namespace w) [
        | err e ↦ if m.is_not_found e then ((done, none), w) else ((done, some e), w)
        | ok addr ↦
            if str_eq addr ""
            then ((requeue_later, none), w)
            else if not (str_eq mcp.status.address addr)
            then on_error (update_mcp_address mcp addr w) (λ e. (done, some e))
                (λ w'. ((done, none), w'))
            else ((done, none), w)
      ]

  unfoldable pub reconcile_api_service_svc :
      Renderer Obj → Bool → ManagedControlPlane → W → Reply × W
  reconcile_api_service_svc render has_scheme mcp w =
      on_error (apply m c has_scheme (apply_opts mcp) (render.endpoint mcp) w) (λ e. (done, some e))
        (publish_address mcp)
