-- ===== src/Controller/Reconcile.antt =====
-- pkg/controller/managedcontrolplane_controller.go: one reconcile of a ManagedControlPlane. The events
-- that cause a reconcile are those of controller-runtime. The caller's `_ =` drops the errors of the
-- status writes, and so does `.1` here. A run has no reply where the code panics; controller-runtime
-- recovers the panic outside of this code.
pub mod Pipeline
pub mod Waiting
use controlplane_operator.Base.{
  ℕ, String, Bool, Option, none, some, List, [], ◌∷◌, Error, ok, err, not, is_some, if◌then◌else◌,
}
use controlplane_operator.Api.{ManagedControlPlane}
use controlplane_operator.Controller.Kube.{
  Key, Reply, CtrlResult, Machinery, Client, Renderer, done, requeue_later,
}
use controlplane_operator.Controller.Apply.{apply, apply_opts}
use controlplane_operator.Controller.Status.{status_waiting, status_failed, status_ready}
use controlplane_operator.Controller.Components.{
  Component, apiserver_service, pki, etcd, apiserver, controller_manager, scheduler, admin_config,
  waiting_message, failed_message, components,
}
use controlplane_operator.Controller.Endpoint.{on_error, reconcile_api_service_svc}
use controlplane_operator.Controller.AdminConfig.{reconcile_admin_config}

abbrev pub managed_control_plane_finalizer : String
managed_control_plane_finalizer = "controlplane.patrostkowski.dev/finalizer"

abbrev pub requeue_now : CtrlResult
requeue_now = record { requeue = Bool.true; requeue_after = 0 }

abbrev pub returned : {W : Type 0} → Reply × W → Option Reply × W
returned (reply, w) = (some reply, w)

module _ {Obj W : Type 0} (m : Machinery Obj) (c : Client Obj W) (render : Renderer Obj)
    (has_scheme : Bool) where
  -- What the five functions below have in common: apply what the builder gives.
  unfoldable pub reconcile_objects : List Obj → ManagedControlPlane → W → Reply × W
  unfolding apply_opts
  reconcile_objects objs mcp w =
      on_error (apply m c has_scheme (apply_opts mcp) objs w) (λ e. (done, some e))
        (λ w'. ((done, none), w'))

  abbrev pub reconcile_pki : ManagedControlPlane → W → Reply × W
  reconcile_pki mcp = reconcile_objects (render.pki mcp) mcp

  abbrev pub reconcile_etcd : ManagedControlPlane → W → Reply × W
  reconcile_etcd mcp = reconcile_objects (render.etcd mcp) mcp

  -- The same for a builder that may panic, which it does before anything is applied.
  unfoldable pub reconcile_built : Option (List Obj) → ManagedControlPlane → W → Option Reply × W
  reconcile_built none mcp w = (none, w)
  reconcile_built (some objs) mcp w = returned (reconcile_objects objs mcp w)

  abbrev pub reconcile_api_server : ManagedControlPlane → W → Option Reply × W
  reconcile_api_server mcp = reconcile_built (render.apiserver mcp) mcp

  abbrev pub reconcile_controller_manager : ManagedControlPlane → W → Option Reply × W
  reconcile_controller_manager mcp = reconcile_built (render.controller_manager mcp) mcp

  abbrev pub reconcile_scheduler : ManagedControlPlane → W → Reply × W
  reconcile_scheduler mcp = reconcile_objects (render.scheduler mcp) mcp

  unfoldable pub reconcile_component : Component → ManagedControlPlane → W → Option Reply × W
  reconcile_component apiserver_service mcp w =
      returned (reconcile_api_service_svc m c render has_scheme mcp w)
  reconcile_component pki mcp w = returned (reconcile_pki mcp w)
  reconcile_component etcd mcp w = returned (reconcile_etcd mcp w)
  reconcile_component apiserver mcp w = reconcile_api_server mcp w
  reconcile_component controller_manager mcp w = reconcile_controller_manager mcp w
  reconcile_component scheduler mcp w = returned (reconcile_scheduler mcp w)
  reconcile_component admin_config mcp w =
      returned (reconcile_admin_config m c render has_scheme mcp w)

  module _ (fresh : ℕ) (mcp : ManagedControlPlane) where
    -- One round of the loop over the components, from the component's reply on.
    unfoldable pub settle : Component → Option Reply × W → (W → Option Reply × W) → Option Reply × W
    settle comp (none, w) rest = (none, w)
    settle comp (some (res, some e), w) rest =
        (some (done, some e), (status_failed m c fresh mcp (failed_message comp) w).1)
    settle comp (some (res, none), w) rest =
        if not (m.is_zero res)
        then (some (requeue_later, none), (status_waiting m c fresh mcp (waiting_message comp) w).1)
        else rest w

    unfoldable pub run_components : List Component → W → Option Reply × W
    run_components [] w = (some (done, none), (status_ready m c fresh mcp w).1)
    run_components (comp ∷ comps) w =
        settle comp (reconcile_component comp mcp w) (run_components comps)

    -- `if err := r.Update(ctx, mcpObj)`
    unfoldable pub update_then : ManagedControlPlane → CtrlResult → W → Reply × W
    update_then changed res w =
        on_error (c.update changed w) (λ e. (done, some e)) (λ w'. ((res, none), w'))

    unfoldable pub reconcile_found : W → Option Reply × W
    unfolding update_then
    reconcile_found w =
        let held = m.contains_finalizer mcp managed_control_plane_finalizer in
        if is_some mcp.meta.deletion_timestamp
        then (if not held
            then (some (done, none), w)
            else returned
                (update_then (m.remove_finalizer mcp managed_control_plane_finalizer) done w))
        else if not held
        then returned
            (update_then (m.add_finalizer mcp managed_control_plane_finalizer) requeue_now w)
        else run_components components w

  unfoldable pub reconcile : ℕ → Key → W → Option Reply × W
  reconcile fresh req w = elim (c.get_control_plane req w) [
    | err e ↦ if m.is_not_found e then (some (done, none), w) else (some (done, some e), w)
    | ok mcp ↦ reconcile_found fresh mcp w
  ]
