-- ===== src/Controller/Apply/Prefix.antt =====
-- What `apply` has sent when it returns: all of the objects, or those before the first that failed.
use controlplane_operator.Base.{
  ◌≡◌, refl, ap, sym, subst, ◌⊎◌, inl, inr, Bool, true, false, Option, none, some, List, [], ◌∷◌,
  ◌++◌, Error, wrapped, ok, err, is_some, Result-cases, effect_cases, arith,
}
use controlplane_operator.Controller.Kube.{Machinery, Client}
use controlplane_operator.Controller.Apply.{ApplyOptions, prepare, apply_each, apply}

module _ {Obj W : Type 0} (m : Machinery Obj) (c : Client Obj W) (opts : ApplyOptions) where
  -- Every object was prepared and patched, one after the other.
  abbrev pub Applied : List Obj → W → W → Type 0
  Applied [] w w' = w ≡ w'
  Applied (obj ∷ objs) w w' =
      (sent : Obj) × (prepare m c opts obj ≡ ok sent)
      × ((c.patch sent opts.field_owner opts.force w).0 ≡ none)
      × Applied objs (c.patch sent opts.field_owner opts.force w).1 w'

  -- The objects before one of them were applied; that one could not be prepared, or its patch failed.
  pub record StoppedAt (objs : List Obj) (w : W) (e : Error) (w' : W) : Type 0 where
    pub before : List Obj
    pub obj : Obj
    pub behind : List Obj
    pub reached : W
    pub split : objs ≡ before ++ obj ∷ behind
    pub applied : Applied before w reached
    pub stop :
        ((prepare m c opts obj ≡ err e) × (w' ≡ reached))
        ⊎ ((sent : Obj) × (cause : Error) × (prepare m c opts obj ≡ ok sent)
            × (c.patch sent opts.field_owner opts.force reached ≡ (some cause, w'))
            × (e ≡ wrapped "apply" cause))

  abbrev pub EachOutcome : List Obj → W → Option Error × W → Type 0
  EachOutcome objs w r =
      ((r.0 ≡ none) × Applied objs w r.1) ⊎ ((e : Error) × (r.0 ≡ some e) × StoppedAt objs w e r.1)

  StoppedAt-cons :
      {obj : Obj} {objs : List Obj} {w : W} {e : Error} {w' : W} (sent : Obj)
      → prepare m c opts obj ≡ ok sent
      → (c.patch sent opts.field_owner opts.force w).0 ≡ none
      → StoppedAt objs (c.patch sent opts.field_owner opts.force w).1 e w'
      → StoppedAt (obj ∷ objs) w e w'
  StoppedAt-cons {obj} sent p q s = record {
    before = obj ∷ s.before;
    obj = s.obj;
    behind = s.behind;
    reached = s.reached;
    split = ap (λ l. obj ∷ l) s.split;
    applied = (sent, p, q, s.applied);
    stop = s.stop;
  }

  EachOutcome-cons :
      {obj : Obj} {objs : List Obj} {w : W} (r : Option Error × W) (sent : Obj)
      → prepare m c opts obj ≡ ok sent
      → (c.patch sent opts.field_owner opts.force w).0 ≡ none
      → EachOutcome objs (c.patch sent opts.field_owner opts.force w).1 r
      → EachOutcome (obj ∷ objs) w r
  EachOutcome-cons r sent p q (inl (e, a)) = inl (e, (sent, p, q, a))
  EachOutcome-cons r sent p q (inr (x, e, s)) = inr (x, e, StoppedAt-cons sent p q s)

  apply_each_unprepared :
      (obj : Obj) (objs : List Obj) (w : W) {e : Error}
      → prepare m c opts obj ≡ err e
      → apply_each m c opts (obj ∷ objs) w ≡ (some e, w)
  unfolding apply_each
  apply_each_unprepared obj objs w p = ground arith

  apply_each_sent :
      (obj : Obj) (objs : List Obj) (w : W) {sent : Obj} {w' : W}
      → prepare m c opts obj ≡ ok sent
      → c.patch sent opts.field_owner opts.force w ≡ (none, w')
      → apply_each m c opts (obj ∷ objs) w ≡ apply_each m c opts objs w'
  unfolding apply_each
  apply_each_sent obj objs w p q = ground arith

  apply_each_failed :
      (obj : Obj) (objs : List Obj) (w : W) {sent : Obj} {e : Error} {w' : W}
      → prepare m c opts obj ≡ ok sent
      → c.patch sent opts.field_owner opts.force w ≡ (some e, w')
      → apply_each m c opts (obj ∷ objs) w ≡ (some (wrapped "apply" e), w')
  unfolding apply_each
  apply_each_failed obj objs w p q = ground arith

  apply_each-EachOutcome :
      (objs : List Obj) (w : W) → EachOutcome objs w (apply_each m c opts objs w)
  unfolding apply_each
  apply_each-EachOutcome [] w = inl (refl, refl)
  apply_each-EachOutcome (obj ∷ objs) w = elim (Result-cases (prepare m c opts obj)) [
    | inr (e, p) ↦ subst (EachOutcome (obj ∷ objs) w) (sym (apply_each_unprepared obj objs w p)) (
        inr (
          e,
          refl,
          record {
            before = [];
            obj = obj;
            behind = objs;
            reached = w;
            split = refl;
            applied = refl;
            stop = inl (p, refl);
          },
        ))
    | inl (sent, p) ↦ elim (effect_cases (c.patch sent opts.field_owner opts.force w)) [
      | inl q ↦
          subst (EachOutcome (obj ∷ objs) w) (sym (apply_each_sent obj objs w p q))
            (EachOutcome-cons _ sent p (ap (λ r. r.0) q) (apply_each-EachOutcome objs _))
      | inr (e, q) ↦ subst (EachOutcome (obj ∷ objs) w) (sym (apply_each_failed obj objs w p q)) (
          inr (
            wrapped "apply" e,
            refl,
            record {
              before = [];
              obj = obj;
              behind = objs;
              reached = w;
              split = refl;
              applied = refl;
              stop = inr (sent, e, p, q, refl);
            },
          ))
    ]
  ]

  -- The guards refuse the whole call.
  abbrev pub Refused : Bool → W → Option Error × W → Type 0
  Refused has_scheme w r =
      ((has_scheme ≡ false) ⊎ ((opts.set_owner_ref ≡ true) × (opts.owner ≡ none)))
      × (is_some r.0 ≡ true)
      × (r.1 ≡ w)

  apply-guards :
      (has_scheme : Bool) (objs : List Obj) (w : W)
      → Refused has_scheme w (apply m c has_scheme opts objs w)
        ⊎ (apply m c has_scheme opts objs w ≡ apply_each m c opts objs w)
  unfolding apply
  apply-guards has_scheme objs w = ground arith

  -- `apply` either refuses the call, with an error and without a write, because the scheme is missing
  -- or an owner is asked for and absent; or it applies every object in order and returns no error; or it
  -- returns the error of one object, with exactly the objects before that one applied.
  pub apply-EachOutcome :
      (has_scheme : Bool) (objs : List Obj) (w : W)
      → Refused has_scheme w (apply m c has_scheme opts objs w)
        ⊎ EachOutcome objs w (apply m c has_scheme opts objs w)
  apply-EachOutcome has_scheme objs w = elim (apply-guards has_scheme objs w) [
    | inl refused ↦ inl refused
    | inr same ↦ inr (subst (EachOutcome objs w) (sym same) (apply_each-EachOutcome objs w))
  ]
