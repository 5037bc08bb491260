-- ===== src/Controller/Endpoint/Address.antt =====
-- What has happened when the API server's Service is reconciled with an empty result.
use controlplane_operator.Base.{
  ◌≡◌, ◌≢◌, refl, ◌⊎◌, inl, inr, Bool, true, Bool-cases, Option, none, some, Error, ok, err,
  Result-cases, str_eq, arith, eq_iff,
}
use controlplane_operator.Api.{ManagedControlPlane}
use controlplane_operator.Cluster.ApiServer
use controlplane_operator.Controller.Kube.{
  Service, Key, Machinery, Client, Renderer, IsRetrying, done,
}
use controlplane_operator.Controller.Apply.{apply, apply_opts}
use controlplane_operator.Controller.Endpoint.Stored.{Stored, address-Stored}
use controlplane_operator.Controller.Endpoint.{
  ingress_address, on_error, try_endpoint_address, publish_address, reconcile_api_service_svc,
}

module _ {Obj W : Type 0} (m : Machinery Obj) (c : Client Obj W) (mcp : ManagedControlPlane) where
  abbrev service_key : Key
  service_key = record { namespace = mcp.meta.namespace; name = ApiServer.service_name mcp }

  -- The address of the load balancer is known, and it is in the status: it was, or has been stored.
  abbrev pub Known : W → W → Type 0
  Known w w' =
      (svc : Service) × (c.get_service service_key w ≡ ok svc)
      × (ingress_address svc.ingress ≢ "")
      × (((mcp.status.address ≡ ingress_address svc.ingress) × (w' ≡ w))
          ⊎ Stored m c mcp (λ status. record status { address = ingress_address svc.ingress }) w')

  abbrev pub Missing : W → W → Type 0
  Missing w w' =
      (e : Error) × (c.get_service service_key w ≡ err e) × (m.is_not_found e ≡ true) × (w' ≡ w)

  publish_address-Missing :
      (w : W) (e : Error)
      → c.get_service service_key w ≡ err e
      → (publish_address m c mcp w).0 ≡ (done, none)
      → Missing w (publish_address m c mcp w).1
  unfolding publish_address try_endpoint_address
  publish_address-Missing w e p h = (e, p, ground arith, ground arith)

  publish_address-Known :
      IsRetrying c
      → (w : W) (svc : Service) → c.get_service service_key w ≡ ok svc
      → (publish_address m c mcp w).0 ≡ (done, none)
      → Known w (publish_address m c mcp w).1
  unfolding publish_address try_endpoint_address
  publish_address-Known retries w svc p h =
      let addr = ingress_address svc.ingress in
      (
        svc,
        p,
        (λ q. ground (arith, eq_iff addr "")),
        elim (Bool-cases (str_eq mcp.status.address addr)) [
          | inl same ↦ inl ((eq_iff _ _).0 same, ground arith)
          | inr other ↦ inr (address-Stored m c mcp retries addr w _ (ground arith))
        ],
      )

  publish_address-cases :
      IsRetrying c
      → (w : W) → (publish_address m c mcp w).0 ≡ (done, none)
      → Missing w (publish_address m c mcp w).1 ⊎ Known w (publish_address m c mcp w).1
  publish_address-cases retries w h = elim (Result-cases (c.get_service service_key w)) [
    | inr (e, p) ↦ inl (publish_address-Missing w e p h)
    | inl (svc, p) ↦ inr (publish_address-Known retries w svc p h)
  ]

  -- If the API server's Service is reconciled with an empty result and no error, then its objects were
  -- applied without an error, and afterwards either the Service was not found and nothing more was
  -- written, or its load balancer had an address that is not empty and that the status had already, or
  -- the API server took the object as it was read anew with this address in its status.
  pub reconcile_api_service_svc_settles :
      IsRetrying c
      → (render : Renderer Obj) (has_scheme : Bool) (w : W)
      → (reconcile_api_service_svc m c render has_scheme mcp w).0 ≡ (done, none)
      → let (e, applied) = apply m c has_scheme (apply_opts mcp) (render.endpoint mcp) w in
        let w' = (reconcile_api_service_svc m c render has_scheme mcp w).1 in
        (e ≡ none) × (Missing applied w' ⊎ Known applied w')
  unfolding reconcile_api_service_svc
  reconcile_api_service_svc_settles retries render has_scheme w h =
      go (apply m c has_scheme (apply_opts mcp) (render.endpoint mcp) w) h
    where
      go :
          (r : Option Error × W)
          → (on_error r (λ e. (done, some e)) (publish_address m c mcp)).0 ≡ (done, none)
          → let w' = (on_error r (λ e. (done, some e)) (publish_address m c mcp)).1 in
            (r.0 ≡ none) × (Missing r.1 w' ⊎ Known r.1 w')
      go (none, applied) k = (refl, publish_address-cases retries applied k)
      go (some e, applied) k = cc
