-- ===== src/Controller/Endpoint/Stored.antt =====
-- What it means that a value was stored in the status, and that the two status updates of helpers.go
-- do it.
use controlplane_operator.Base.{◌≡◌, String, none, some, ok, inl, inr, Result-cases}
use controlplane_operator.Api.{ManagedControlPlane, ManagedControlPlaneStatus}
use controlplane_operator.Controller.Kube.{Machinery, Client, IsRetrying}
use controlplane_operator.Controller.Endpoint.{
  object_key, set_address, set_admin_secret_ref, update_latest, update_mcp_address,
  update_mcp_admin_secret_ref,
}

module _ {Obj W : Type 0} (m : Machinery Obj) (c : Client Obj W) (mcp : ManagedControlPlane) where
  -- The object was read anew, and the API server took it back with this status and nothing else changed.
  pub record Stored (status : ManagedControlPlaneStatus → ManagedControlPlaneStatus) (w' : W)
      : Type 0 where
    pub before : W
    pub latest : ManagedControlPlane
    pub read : c.get_control_plane (object_key mcp) before ≡ ok latest
    pub accepted :
        c.update_status (record latest { status = status latest.status }) before ≡ (none, w')

  update_latest-read :
      (change : ManagedControlPlane → ManagedControlPlane) (w w' : W)
      → update_latest m c change (object_key mcp) w ≡ (none, w')
      → (latest : ManagedControlPlane) × (c.get_control_plane (object_key mcp) w ≡ ok latest)
        × (c.update_status (change latest) w ≡ (none, w'))
  unfolding update_latest
  update_latest-read change w w' e = elim (Result-cases (c.get_control_plane (object_key mcp) w)) [
    | inl (latest, p) ↦ (latest, p, rw (p, update_latest) at e)
    | inr (x, p) ↦ let clash : ◌≡◌ (some x, w) (none, w') = rw (p, update_latest) at e in cc
  ]

  pub address-Stored :
      IsRetrying c
      → (address : String) (w w' : W) → update_mcp_address m c mcp address w ≡ (none, w')
      → Stored (λ status. record status { address = address }) w'
  unfolding update_mcp_address set_address
  address-Stored retries address w w' e =
      let (before, run) =
        retries.last_run (update_latest m c (set_address address) (object_key mcp)) w w' e in
      let (latest, read, accepted) = update_latest-read (set_address address) before w' run in
      record { before = before; latest = latest; read = read; accepted = accepted }

  pub admin_secret_ref-Stored :
      IsRetrying c
      → (secret_name : String) (w w' : W)
      → update_mcp_admin_secret_ref m c mcp secret_name w ≡ (none, w')
      → Stored (λ status. record status { admin_kubeconfig_secret_ref = secret_name }) w'
  unfolding update_mcp_admin_secret_ref set_admin_secret_ref
  admin_secret_ref-Stored retries secret_name w w' e =
      let (before, run) =
        retries.last_run (update_latest m c (set_admin_secret_ref secret_name) (object_key mcp)) w
          w' e in
      let (latest, read, accepted) =
        update_latest-read (set_admin_secret_ref secret_name) before w' run in
      record { before = before; latest = latest; read = read; accepted = accepted }
