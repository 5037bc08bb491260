-- ===== src/AddonResources/Backing/Longer.antt =====
-- Objects that have what they refer to still have it in a longer list, so that lists which are closed in
-- this way can be put together.
use controlplane_operator.Base.{
  String, ◌≡◌, refl, ◌⊎◌, inl, inr, Bool, true, false, ◌&&◌, ◌||◌, List, [], ◌∷◌, ◌++◌, All,
  All-append, Option, str_eq, if◌then◌else◌,
}
use controlplane_operator.Builders.Pod.{
  PodTemplate, Volume, VolumeSource, secret_source, config_map_source, empty_dir, host_path,
  projected,
}
use controlplane_operator.Builders.Rbac.{PolicyRule, Subject}
use controlplane_operator.AddonResources.Objects.{
  Object, namespace_object, account_object, cluster_role_object, cluster_role_binding_object,
  role_object, role_binding_object, config_map_object, secret_object, service_object,
  storage_class_object, daemon_set_object, deployment_object,
}
use controlplane_operator.AddonResources.Backing.{
  any, all, built, is_object, role_built, subject_built, source_built, rule_backed, PodBacked,
  Backed, namespace_known, namespaces_first,
}

or_mono : (a b c : Bool) → (a ≡ true → b ≡ true) → a || c ≡ true → b || c ≡ true
or_mono true b c f h = rw (f refl) refl
or_mono false true c f h = refl
or_mono false false c f h = h

or_mono_right : (a b c : Bool) → (a ≡ true → b ≡ true) → c || a ≡ true → c || b ≡ true
or_mono_right a b true f h = refl
or_mono_right a b false f h = f h

and_mono :
    (a b c d : Bool) → (a ≡ true → c ≡ true) → (b ≡ true → d ≡ true) → a && b ≡ true → c && d ≡ true
and_mono true b c d f g h = rw (f refl) (g h)
and_mono false b c d f g h = cc

if_mono :
    (b : Bool) {a c : Bool}
    → (a ≡ true → c ≡ true)
    → (if b then a else true) ≡ true
    → (if b then c else true) ≡ true
if_mono true f h = f h
if_mono false f h = refl

or_cases : (a b : Bool) → a || b ≡ true → (a ≡ true) ⊎ (b ≡ true)
or_cases true b h = inl refl
or_cases false b h = inr h

or_true : (a b : Bool) → b ≡ true → a || b ≡ true
or_true true b h = refl
or_true false b h = h

module _ {ℓ} {A : Type ℓ} where
  any_append_left :
      (test : A → Bool) (xs ys : List A) → any test xs ≡ true → any test (xs ++ ys) ≡ true
  any_append_left test [] ys h = cc
  any_append_left test (x ∷ xs) ys h =
      or_mono (any test xs) (any test (xs ++ ys)) (test x) (any_append_left test xs ys) h

  any_append_right :
      (test : A → Bool) (xs ys : List A) → any test ys ≡ true → any test (xs ++ ys) ≡ true
  any_append_right test [] ys h = h
  any_append_right test (x ∷ xs) ys h = rw (any_append_right test xs ys h) refl

  any_append_cases :
      (test : A → Bool) (xs ys : List A)
      → any test (xs ++ ys) ≡ true
      → (any test xs ≡ true) ⊎ (any test ys ≡ true)
  any_append_cases test [] ys h = inr h
  any_append_cases test (x ∷ xs) ys h = elim (or_cases (any test (xs ++ ys)) (test x) h) [
    | inr here ↦ inl (or_true (any test xs) (test x) here)
    | inl there ↦ elim (any_append_cases test xs ys there) [
      | inl left ↦ inl (rw left refl)
      | inr right ↦ inr right
    ]
  ]

  all_mono :
      (p q : A → Bool)
      → ((x : A) → p x ≡ true → q x ≡ true)
      → (xs : List A) → all p xs ≡ true
      → all q xs ≡ true
  all_mono p q f [] h = refl
  all_mono p q f (x ∷ xs) h = and_mono (all p xs) (p x) (all q xs) (q x) (all_mono p q f xs) (f x) h

-- What one list has of any kind, the other has.
abbrev pub Extends : List Object → List Object → Type 0
Extends objs more = (test : Object → Bool) → any test objs ≡ true → any test more ≡ true

module _ (objs more : List Object) (extends : Extends objs more) where
  subject_built_mono : (s : Subject) → subject_built objs s ≡ true → subject_built more s ≡ true
  subject_built_mono s h =
      if_mono (str_eq s.kind "ServiceAccount") (extends (is_object s.kind s.namespace s.name)) h

  role_built_mono :
      (own : List String) (namespace kind name : String)
      → role_built own objs namespace kind name ≡ true
      → role_built own more namespace kind name ≡ true
  role_built_mono own namespace kind name h =
      or_mono_right (built objs kind namespace name) (built more kind namespace name) _
        (extends (is_object kind namespace name)) h

  rule_backed_mono :
      (namespace : String) (r : PolicyRule)
      → rule_backed objs namespace r ≡ true
      → rule_backed more namespace r ≡ true
  rule_backed_mono namespace r h =
      all_mono (built objs "ConfigMap" namespace) (built more "ConfigMap" namespace)
        (λ name. extends (is_object "ConfigMap" namespace name)) r.resource_names h

  source_built_mono :
      (namespace : String) (v : VolumeSource)
      → source_built objs namespace v ≡ true
      → source_built more namespace v ≡ true
  source_built_mono namespace (config_map_source name items) h = extends _ h
  source_built_mono namespace (secret_source name) h = refl
  source_built_mono namespace empty_dir h = refl
  source_built_mono namespace (host_path path kind) h = refl
  source_built_mono namespace (projected sources) h = refl

  PodBacked-mono :
      (namespace : String) (selector : Option (List (String × String))) (pod : PodTemplate)
      → PodBacked objs namespace selector pod
      → PodBacked more namespace selector pod
  PodBacked-mono namespace selector pod (own, account, sources, mounts) = (
    own,
    or_mono_right (built objs "ServiceAccount" namespace pod.service_account_name)
        (built more "ServiceAccount" namespace pod.service_account_name) _ (extends _) account,
    all_mono (λ (v : Volume). source_built objs namespace v.source)
        (λ (v : Volume). source_built more namespace v.source)
        (λ v. source_built_mono namespace v.source) pod.volumes sources,
    mounts,
  )

  Backed-mono : (own : List String) (o : Object) → Backed own objs o → Backed own more o
  Backed-mono own (cluster_role_binding_object b) (role, subjects) = (
    role_built_mono own "" b.role_ref.kind b.role_ref.name role,
    all_mono (subject_built objs) (subject_built more) subject_built_mono b.subjects subjects,
  )
  Backed-mono own (role_binding_object b) (role, subjects) = (
    role_built_mono [] b.meta.namespace b.role_ref.kind b.role_ref.name role,
    all_mono (subject_built objs) (subject_built more) subject_built_mono b.subjects subjects,
  )
  Backed-mono own (role_object r) h =
      all_mono (rule_backed objs r.meta.namespace) (rule_backed more r.meta.namespace)
        (rule_backed_mono r.meta.namespace) r.rules h
  Backed-mono own (daemon_set_object d) h =
      PodBacked-mono d.meta.namespace d.match_labels d.template h
  Backed-mono own (deployment_object d) h =
      PodBacked-mono d.meta.namespace d.match_labels d.template h
  Backed-mono own (service_object s) h = extends _ h
  Backed-mono own (namespace_object n) h = tt
  Backed-mono own (account_object a) h = tt
  Backed-mono own (cluster_role_object r) h = tt
  Backed-mono own (config_map_object c) h = tt
  Backed-mono own (secret_object s) h = tt
  Backed-mono own (storage_class_object s) h = tt

  All-Backed-mono :
      (own : List String) (os : List Object) → All (Backed own objs) os → All (Backed own more) os
  All-Backed-mono own [] h = tt
  All-Backed-mono own (o ∷ os) (h, hs) = (Backed-mono own o h, All-Backed-mono own os hs)

Extends-snoc :
    (before more : List Object) (o : Object)
    → Extends before more
    → Extends (before ++ (o ∷ [])) (more ++ (o ∷ []))
Extends-snoc before more o e test h = elim (any_append_cases test before (o ∷ []) h) [
  | inl old ↦ any_append_left test more (o ∷ []) (e test old)
  | inr new ↦ any_append_right test more (o ∷ []) new
]

namespaces_first_mono :
    (before more os : List Object)
    → Extends before more
    → namespaces_first before os ≡ true
    → namespaces_first more os ≡ true
namespaces_first_mono before more [] e h = refl
namespaces_first_mono before more (o ∷ os) e h =
    and_mono (namespaces_first (before ++ (o ∷ [])) os) (namespace_known before o) _ _
      (namespaces_first_mono _ _ os (Extends-snoc before more o e))
      (or_mono_right (built before "Namespace" "" _) (built more "Namespace" "" _) _ (e _)) h

namespaces_first_append :
    (before xs ys : List Object)
    → namespaces_first before xs ≡ true
    → namespaces_first [] ys ≡ true
    → namespaces_first before (xs ++ ys) ≡ true
namespaces_first_append before [] ys h k = namespaces_first_mono [] before ys (λ test gone. cc) k
namespaces_first_append before (x ∷ xs) ys h k =
    and_mono (namespaces_first (before ++ (x ∷ [])) xs) (namespace_known before x) _ _
      (λ first. namespaces_first_append (before ++ (x ∷ [])) xs ys first k) (λ known. known) h

-- A list is closed where each of its objects has what it refers to in the list, behind its namespace.
abbrev pub Closed : List String → List Object → Type 0
Closed own objs = All (Backed own objs) objs × (namespaces_first [] objs ≡ true)

-- Closed lists, one behind the other, are closed.
pub Closed-append :
    (own : List String) (xs ys : List Object)
    → Closed own xs
    → Closed own ys
    → Closed own (xs ++ ys)
Closed-append own xs ys (backed_xs, first_xs) (backed_ys, first_ys) = (
  All-append (Backed own (xs ++ ys)) xs ys
      (All-Backed-mono xs (xs ++ ys) (λ test. any_append_left test xs ys) own xs backed_xs)
      (All-Backed-mono ys (xs ++ ys) (λ test. any_append_right test xs ys) own ys backed_ys),
  namespaces_first_append [] xs ys first_xs first_ys,
)
