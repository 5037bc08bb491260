-- ===== src/Controller/Reconcile/Pipeline.antt =====
-- What the loop over the components does, against a description of it: which components passed, and
-- what the first that did not pass makes the reconcile return and write.
use controlplane_operator.Base.{
  ℕ, ◌≡◌, refl, ap, inl, inr, Bool, true, false, Bool-cases, Option, none, some, List, [], ◌∷◌,
  ◌++◌, Error,
}
use controlplane_operator.Api.{ManagedControlPlane}
use controlplane_operator.Controller.Kube.{
  Machinery, Client, Renderer, Reply, CtrlResult, done, requeue_later,
}
use controlplane_operator.Controller.Status.{status_waiting, status_failed, status_ready}
use controlplane_operator.Controller.Components.{Component, waiting_message, failed_message}
use controlplane_operator.Controller.Reconcile.{reconcile_component, settle, run_components}

module _ {Obj W : Type 0} (m : Machinery Obj) (c : Client Obj W) (render : Renderer Obj)
    (has_scheme : Bool) (fresh : ℕ) (mcp : ManagedControlPlane) where
  abbrev step : Component → W → Option Reply × W
  step comp w = reconcile_component m c render has_scheme comp mcp w

  -- Each component, run on the world that the one before it left, returned no error and an empty result.
  abbrev pub Passes : List Component → W → W → Type 0
  Passes [] w w' = w ≡ w'
  Passes (comp ∷ comps) w w' =
      (res : CtrlResult) × ((step comp w).0 ≡ some (res, none))
      × (m.is_zero res ≡ true)
      × Passes comps (step comp w).1 w'

  -- The first component that did not pass, and the world that it was run on.
  pub record HaltsAt (comps : List Component) (w : W) (comp : Component) (reached : W)
      : Type 0 where
    pub before : List Component
    pub behind : List Component
    pub split : comps ≡ before ++ comp ∷ behind
    pub passed : Passes before w reached

  pub data Outcome (comps : List Component) (w : W) (r : Option Reply × W) : Type 0 where
    -- All passed: the ready status is written.
    ready :
        (w' : W)
        → Passes comps w w'
        → r ≡ (some (done, none), (status_ready m c fresh mcp w').1)
        → Outcome comps w r
    -- One returned an error: its failed message is written, and its error returned.
    failed :
        (comp : Component) (reached : W) (res : CtrlResult) (e : Error)
        → HaltsAt comps w comp reached
        → (step comp reached).0 ≡ some (res, some e)
        → r ≡ (
          some (done, some e),
          (status_failed m c fresh mcp (failed_message comp) (step comp reached).1).1,
        )
        → Outcome comps w r
    -- One is not ready: its waiting message is written, and the reconcile is asked for again.
    waiting :
        (comp : Component) (reached : W) (res : CtrlResult)
        → HaltsAt comps w comp reached
        → (step comp reached).0 ≡ some (res, none)
        → m.is_zero res ≡ false
        → r ≡ (
          some (requeue_later, none),
          (status_waiting m c fresh mcp (waiting_message comp) (step comp reached).1).1,
        )
        → Outcome comps w r
    -- One panicked: no status is written.
    panicked :
        (comp : Component) (reached : W)
        → HaltsAt comps w comp reached
        → (step comp reached).0 ≡ none
        → r ≡ (none, (step comp reached).1)
        → Outcome comps w r

  HaltsAt-here :
      (comp : Component) (comps : List Component) (w : W) → HaltsAt (comp ∷ comps) w comp w
  HaltsAt-here comp comps w = record { before = []; behind = comps; split = refl; passed = refl }

  module _ (comp : Component) (comps : List Component) (w : W) (res : CtrlResult)
      (p : (step comp w).0 ≡ some (res, none)) (z : m.is_zero res ≡ true) where
    HaltsAt-cons :
        {other : Component} {reached : W}
        → HaltsAt comps (step comp w).1 other reached
        → HaltsAt (comp ∷ comps) w other reached
    HaltsAt-cons h = record {
      before = comp ∷ h.before;
      behind = h.behind;
      split = ap (λ l. comp ∷ l) h.split;
      passed = (res, p, z, h.passed);
    }

    Outcome-cons :
        {r : Option Reply × W} → Outcome comps (step comp w).1 r → Outcome (comp ∷ comps) w r
    Outcome-cons (ready w' passes e) = ready w' (res, p, z, passes) e
    Outcome-cons (failed other reached res' x h q e) =
        failed other reached res' x (HaltsAt-cons h) q e
    Outcome-cons (waiting other reached res' h q s e) =
        waiting other reached res' (HaltsAt-cons h) q s e
    Outcome-cons (panicked other reached h q e) = panicked other reached (HaltsAt-cons h) q e

  -- What a component replied, by the branch of the loop that it takes.
  pub data Replied (reply : Option Reply) : Type 0 where
    error : (res : CtrlResult) (e : Error) → reply ≡ some (res, some e) → Replied reply
    not_zero : (res : CtrlResult) → reply ≡ some (res, none) → m.is_zero res ≡ false → Replied reply
    zero : (res : CtrlResult) → reply ≡ some (res, none) → m.is_zero res ≡ true → Replied reply
    no_reply : reply ≡ none → Replied reply

  reply_cases : (reply : Option Reply) → Replied reply
  reply_cases none = no_reply refl
  reply_cases (some (res, some e)) = error res e refl
  reply_cases (some (res, none)) = elim (Bool-cases (m.is_zero res)) [
    | inl z ↦ zero res refl z
    | inr z ↦ not_zero res refl z
  ]

  module _ (comp : Component) (comps : List Component) (w : W)
      (rest : (w' : W)
        → Outcome comps w' (run_components m c render has_scheme fresh mcp comps w')) where
    -- One round, by the reply of its component.
    round-Outcome :
        Replied (step comp w).0
        → Outcome (comp ∷ comps) w (run_components m c render has_scheme fresh mcp (comp ∷ comps) w)
    unfolding run_components settle
    round-Outcome (error res e p) = failed comp w res e (HaltsAt-here comp comps w) p (rw p refl)
    round-Outcome (not_zero res p z) =
        waiting comp w res (HaltsAt-here comp comps w) p z (rw (p, z) refl)
    round-Outcome (no_reply p) = panicked comp w (HaltsAt-here comp comps w) p (rw p refl)
    round-Outcome (zero res p z) =
        rw (p, z) (Outcome-cons comp comps w res p z (rest (step comp w).1))

  -- The loop over the components runs them in order and stops at the first that fails, is not ready or
  -- panics. If all pass it writes the ready status and returns an empty result; if one fails it writes
  -- that component's failed message and returns its error; if one is not ready it writes that
  -- component's waiting message and asks for another reconcile after ten seconds; if one panics the
  -- loop writes nothing and gives no reply.
  pub run_components-Outcome :
      (comps : List Component) (w : W)
      → Outcome comps w (run_components m c render has_scheme fresh mcp comps w)
  unfolding run_components
  run_components-Outcome [] w = ready w refl refl
  run_components-Outcome (comp ∷ comps) w =
      round-Outcome comp comps w (run_components-Outcome comps) (reply_cases (step comp w).0)
