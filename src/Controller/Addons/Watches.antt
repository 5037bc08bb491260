-- ===== src/Controller/Addons/Watches.antt =====
-- pkg/controller/addon_controller.go, SetupManagedAddonController: which changes in a managed cluster
-- cause a reconcile of its add-ons.
use controlplane_operator.Base.{
  String, ◌≡◌, ◌⊎◌, inl, inr, Bool-cases, ap, refl, Bool, true, false, ◌&&◌, ◌||◌, not, none, some,
  List, [], ◌∷◌, ◌++◌, str_eq, lookup, eq_iff, arith, if◌then◌else◌,
}
use controlplane_operator.Api.{ObjectMeta}
use controlplane_operator.Api.Messages.{annotation_key_part_of, kind_managed_control_plane}
use controlplane_operator.Controller.Kube.{Key}

abbrev pub managed_addon : Key
managed_addon = record { namespace = "kube-system"; name = "managed-addon" }

-- obj.GetAnnotations()[key], "" where it is missing
unfoldable pub annotation : String → ObjectMeta → String
annotation key o = elim o.annotations [
  | none ↦ ""
  | some ann ↦ elim (lookup key ann) [ none ↦ "" | some v ↦ v ]
]

abbrev pub has_part_of : ObjectMeta → Bool
has_part_of o = str_eq (annotation annotation_key_part_of o) kind_managed_control_plane

unfoldable pub is_part_of : ObjectMeta → List Key
is_part_of o = if not (has_part_of o) then [] else managed_addon ∷ []

unfoldable pub is_managed_addon : ObjectMeta → Bool
is_managed_addon o = str_eq o.namespace managed_addon.namespace && str_eq o.name managed_addon.name

unfoldable pub is_non_managed_addon : ObjectMeta → Bool
is_non_managed_addon o =
    if str_eq o.namespace managed_addon.namespace && str_eq o.name managed_addon.name
    then false
    else not (has_part_of o)

-- An event of controller-runtime, with the object before and after an update.
pub data Event : Type 0 where
  created : ObjectMeta → Event
  changed : ObjectMeta → ObjectMeta → Event
  deleted : ObjectMeta → Event
  generic : ObjectMeta → Event

-- The object of an event, the new one of an update.
abbrev pub subject : Event → ObjectMeta
subject (created o) = o
subject (changed old new) = new
subject (deleted o) = o
subject (generic o) = o

-- predicate.NewPredicateFuncs: the filter is asked about the event's object, the new one of an update.
abbrev pub passes : (ObjectMeta → Bool) → Event → Bool
passes filter e = filter (subject e)

-- handler.EnqueueRequestsFromMapFunc: both objects of an update are mapped. The queue holds a request
-- once, however often it is added.
abbrev pub mapped : (ObjectMeta → List Key) → Event → List Key
mapped f (created o) = f o
mapped f (changed old new) = f old ++ f new
mapped f (deleted o) = f o
mapped f (generic o) = f o

-- What an event on a ConfigMap enqueues: For with its predicate enqueues the object itself, and Watches
-- with its own predicate what isPartOf answers.
unfoldable pub on_config_map : Event → List Key
on_config_map e =
    (if passes is_managed_addon e
      then record { namespace = (subject e).namespace; name = (subject e).name } ∷ []
      else [])
    ++ (if passes is_non_managed_addon e then mapped is_part_of e else [])

-- Any other kind that is watched goes through Watches alone.
unfoldable pub on_other : Event → List Key
on_other e = mapped is_part_of e

-- An update that takes the annotation away.
abbrev pub loses_mark : Event → Bool
loses_mark (changed old new) = has_part_of old && not (has_part_of new)
loses_mark _ = false

-- One of the event's objects has the annotation.
abbrev pub is_marked : Event → Bool
is_marked (changed old new) = has_part_of old || has_part_of new
is_marked e = has_part_of (subject e)

abbrev pub asks : List Key → Bool
asks [] = false
asks (_ ∷ _) = true

-- The two names agree, or the object is another one.
named :
    (ns n : String)
    → (str_eq ns "kube-system" ≡ true)
        × (str_eq n "managed-addon" ≡ true)
        × (record { namespace = ns; name = n } ≡ managed_addon)
      ⊎ (str_eq ns "kube-system" && str_eq n "managed-addon" ≡ false)
named ns n = elim (Bool-cases (str_eq ns "kube-system")) [
  | inr p ↦ inr (rw p refl)
  | inl p ↦ elim (Bool-cases (str_eq n "managed-addon")) [
    | inr q ↦ inr (rw (p, q) refl)
    | inl q ↦
        let same_ns = (eq_iff ns "kube-system").0 p in
        let same_name = (eq_iff n "managed-addon").0 q in inl (p, q, rw (same_ns, same_name) refl)
  ]
]

mark_heard :
    (e : Event)
    → (if not (has_part_of (subject e)) then mapped is_part_of e else [])
      ≡ (if loses_mark e then managed_addon ∷ [] else [])
unfolding is_part_of
mark_heard (created o) = ground arith
mark_heard (changed old new) = ground arith
mark_heard (deleted o) = ground arith
mark_heard (generic o) = ground arith

heard :
    (e : Event)
    → on_config_map e
      ≡ (if is_managed_addon (subject e) || loses_mark e then managed_addon ∷ [] else [])
unfolding on_config_map is_managed_addon is_non_managed_addon
heard e = elim (named (subject e).namespace (subject e).name) [
  | inl (p, q, same) ↦ rw (p, q) (ap (λ (k : Key). k ∷ []) same)
  | inr off ↦ rw off (mark_heard e)
]

other_asks : (e : Event) → asks (on_other e) ≡ is_marked e
unfolding on_other is_part_of
other_asks (created o) = ground arith
other_asks (changed old new) = ground arith
other_asks (deleted o) = ground arith
other_asks (generic o) = ground arith

-- An event on a ConfigMap causes a reconcile only if it is about the managed add-on itself, or is an
-- update that takes the part-of annotation away: the predicate passes the objects without the
-- annotation, and the handler takes those with it. An event on any other watched kind causes one exactly
-- if one of its objects has the annotation.
pub on_config_map_mostly_deaf :
    (e : Event)
    → (on_config_map e
        ≡ (if is_managed_addon (subject e) || loses_mark e then managed_addon ∷ [] else []))
      × (asks (on_other e) ≡ is_marked e)
on_config_map_mostly_deaf e = (heard e, other_asks e)
