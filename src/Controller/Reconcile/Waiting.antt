-- ===== src/Controller/Reconcile/Waiting.antt =====
-- A reconcile works on the address that it read with the object, not on the one that it stores.
use controlplane_operator.Base.{
  ℕ, ◌≡◌, refl, ap, sym, subst, inl, inr, Bool, true, false, effect_cases, ok, Bool-cases, Option,
  none, some, List, [], ◌∷◌, ◌++◌, Error, arith, ◌≢◌,
}
use controlplane_operator.Api.{ManagedControlPlane}
use controlplane_operator.Controller.Kube.{
  Key, Machinery, IsMachinery, Client, Renderer, Reply, CtrlResult, done, requeue_later,
}
use controlplane_operator.Controller.Components.{
  Component, apiserver_service, pki, etcd, apiserver, controller_manager, scheduler, admin_config,
  components,
}
use controlplane_operator.Controller.AdminConfig.{reconcile_admin_config}
use controlplane_operator.Controller.Reconcile.{
  managed_control_plane_finalizer, requeue_now, returned, reconcile_component, settle,
  run_components, update_then, reconcile_found, reconcile,
}

-- The reply asks for another reconcile, later or at once, or is an error, or there is none.
pub data IsUnfinished (reply : Option Reply) : Type 0 where
  later : reply ≡ some (requeue_later, none) → IsUnfinished reply
  at_once : reply ≡ some (requeue_now, none) → IsUnfinished reply
  failed : (e : Error) → reply ≡ some (done, some e) → IsUnfinished reply
  panicked : reply ≡ none → IsUnfinished reply

requeue_later≢done : requeue_later ≢ done
requeue_later≢done e = omega (arith, ap CtrlResult.requeue_after e)

module _ {Obj W : Type 0} (m : Machinery Obj) (c : Client Obj W) (render : Renderer Obj)
    (has_scheme : Bool) (fresh : ℕ) (mcp : ManagedControlPlane) where
  requeue_later-is_zero : IsMachinery m → m.is_zero requeue_later ≡ false
  requeue_later-is_zero laws = elim (Bool-cases (m.is_zero requeue_later)) [
    | inl z ↦ absurd (requeue_later≢done ((laws.zero_iff requeue_later).0 z))
    | inr z ↦ z
  ]

  settle-IsUnfinished :
      (comp : Component) (r : Option Reply × W) (rest : W → Option Reply × W)
      → ((w : W) → IsUnfinished (rest w).0)
      → IsUnfinished (settle m c render has_scheme fresh mcp comp r rest).0
  unfolding settle
  settle-IsUnfinished comp (none, w) rest h = panicked refl
  settle-IsUnfinished comp (some (res, some e), w) rest h = failed e refl
  settle-IsUnfinished comp (some (res, none), w) rest h = elim (Bool-cases (m.is_zero res)) [
    | inl z ↦ rw z (h w)
    | inr z ↦ rw z (later refl)
  ]

  admin_config-IsUnfinished :
      IsMachinery m
      → mcp.status.address ≡ ""
      → (rest : W → Option Reply × W) (w : W)
      → IsUnfinished
          (settle m c render has_scheme fresh mcp admin_config
            (reconcile_component m c render has_scheme admin_config mcp w)
            rest).0
  unfolding settle reconcile_component reconcile_admin_config
  admin_config-IsUnfinished laws e rest w = rw (e, requeue_later-is_zero laws) (later refl)

  run_components-IsUnfinished :
      IsMachinery m
      → mcp.status.address ≡ ""
      → (before : List Component) (w : W)
      → IsUnfinished
          (run_components m c render has_scheme fresh mcp (before ++ admin_config ∷ []) w).0
  unfolding run_components
  run_components-IsUnfinished laws e [] w = admin_config-IsUnfinished laws e _ w
  run_components-IsUnfinished laws e (comp ∷ before) w =
      settle-IsUnfinished comp _ _ (run_components-IsUnfinished laws e before)

  components-IsUnfinished :
      IsMachinery m
      → mcp.status.address ≡ ""
      → (w : W) → IsUnfinished (run_components m c render has_scheme fresh mcp components w).0
  unfolding components
  components-IsUnfinished laws e w =
      run_components-IsUnfinished laws e
        (apiserver_service ∷ pki ∷ etcd ∷ apiserver ∷ controller_manager ∷ scheduler ∷ []) w

  update_then-IsUnfinished :
      (changed : ManagedControlPlane) (w : W)
      → IsUnfinished
          (returned (update_then m c render has_scheme fresh mcp changed requeue_now w)).0
  unfolding update_then
  update_then-IsUnfinished changed w = elim (effect_cases (c.update changed w)) [
    | inl e ↦ at_once (ground arith)
    | inr (x, e) ↦ failed x (ground arith)
  ]

  found_runs :
      (w : W)
      → mcp.meta.deletion_timestamp ≡ none
      → m.contains_finalizer mcp managed_control_plane_finalizer ≡ true
      → reconcile_found m c render has_scheme fresh mcp w
        ≡ run_components m c render has_scheme fresh mcp components w
  unfolding reconcile_found
  found_runs w live held = ground arith

  found_adopts :
      (w : W)
      → mcp.meta.deletion_timestamp ≡ none
      → m.contains_finalizer mcp managed_control_plane_finalizer ≡ false
      → reconcile_found m c render has_scheme fresh mcp w
        ≡ returned (
            update_then m c render has_scheme fresh mcp
              (m.add_finalizer mcp managed_control_plane_finalizer)
              requeue_now
              w)
  unfolding reconcile_found update_then
  found_adopts w live free = ground arith

  found-IsUnfinished :
      IsMachinery m
      → mcp.meta.deletion_timestamp ≡ none
      → mcp.status.address ≡ ""
      → (w : W) → IsUnfinished (reconcile_found m c render has_scheme fresh mcp w).0
  found-IsUnfinished laws live e w =
      elim (Bool-cases (m.contains_finalizer mcp managed_control_plane_finalizer)) [
        | inl held ↦
            subst (λ (r : Option Reply × W). IsUnfinished r.0) (sym (found_runs w live held))
              (components-IsUnfinished laws e w)
        | inr free ↦
            subst (λ (r : Option Reply × W). IsUnfinished r.0) (sym (found_adopts w live free))
              (update_then-IsUnfinished _ w)
      ]

-- A reconcile that reads an object which is not being deleted and has no address never ends with an
-- empty result: the reply is an error or asks for another reconcile, or the run panics, also where
-- this very run stores the address.
pub reconcile-IsUnfinished :
    {Obj W : Type 0} (m : Machinery Obj) (c : Client Obj W) (render : Renderer Obj)
    (has_scheme : Bool) (fresh : ℕ)
    → IsMachinery m
    → (req : Key) (w : W) (mcp : ManagedControlPlane) → c.get_control_plane req w ≡ ok mcp
    → mcp.meta.deletion_timestamp ≡ none
    → mcp.status.address ≡ ""
    → IsUnfinished (reconcile m c render has_scheme fresh req w).0
unfolding reconcile
reconcile-IsUnfinished m c render has_scheme fresh laws req w mcp read live e =
    rw (read, reconcile) (found-IsUnfinished m c render has_scheme fresh mcp laws live e w)
