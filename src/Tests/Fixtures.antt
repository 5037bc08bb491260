-- ===== src/Tests/Fixtures.antt =====
-- A control plane, and a world of one control plane that counts its writes, with the helpers of
-- controller-runtime over it.
use controlplane_operator.Base.{
  ℕ, suc, String, ◌≡◌, ◌↔◌, refl, Bool, true, false, not, ◌&&◌, ◌||◌, Bool-cases, inl, inr, Option,
  none, some, List, [], ◌∷◌, Error, not_found, Result, ok, err, str_eq, eq_refl, nat_eq, arith,
  if◌then◌else◌,
}
use controlplane_operator.Api.{ManagedControlPlane, Condition}
use controlplane_operator.Controller.Kube.{
  Key, CtrlResult, done, Machinery, IsMachinery, Client, IsRetrying, Renderer, with_finalizers,
}

abbrev pub sample : ManagedControlPlane
sample = record {
  meta = record {
    name = "demo";
    namespace = "default";
    labels = none;
    annotations = none;
    generation = 1;
    deletion_timestamp = none;
    finalizers = [];
  };
  spec = record {
    kubernetes = record {
      version = "v1.34.2";
      networking = some (record { pod_cidr = "10.244.0.0/16"; service_cidr = "10.96.0.0/12" });
    };
  };
  status = record {
    conditions = [];
    message = "";
    ready = none;
    address = "";
    admin_kubeconfig_secret_ref = "";
  };
}

abbrev pub with_name_of : String → ManagedControlPlane
with_name_of n = let meta = sample.meta in record sample { meta = record meta { name = n } }

-- The sample once its address is published.
abbrev pub published : ManagedControlPlane
published =
    let status = sample.status in record sample { status = record status { address = "10.0.0.1" } }

abbrev pub leaving_at : ℕ → List String → ManagedControlPlane
leaving_at t fs =
    let meta = sample.meta in
    record sample { meta = record meta { deletion_timestamp = some t; finalizers = fs } }

pub record World : Type 0 where
  pub stored : ManagedControlPlane
  pub writes : ℕ

abbrev pub world : ManagedControlPlane → World
world mcp = record { stored = mcp; writes = 0 }

abbrev pub one_more : World → Option Error × World
one_more w = (none, record w { writes = suc w.writes })

abbrev pub store_of : ManagedControlPlane → World → Option Error × World
store_of o w = (none, record { stored = o; writes = suc w.writes })

abbrev member : String → List String → Bool
member f [] = false
member f (g ∷ gs) = str_eq g f || member f gs

abbrev adjoin : String → List String → List String
adjoin f fs = if member f fs then fs else f ∷ fs

abbrev without : String → List String → List String
without f [] = []
without f (g ∷ gs) = let rest = without f gs in if str_eq g f then rest else g ∷ rest

member-adjoin : (f : String) (fs : List String) → member f (adjoin f fs) ≡ true
member-adjoin f fs = elim (Bool-cases (member f fs)) [
  | inl e ↦ rw e e
  | inr e ↦ rw (e, eq_refl f) refl
]

member-without : (f : String) (fs : List String) → member f (without f fs) ≡ false
member-without f [] = refl
member-without f (g ∷ gs) = elim (Bool-cases (str_eq g f)) [
  | inl e ↦ rw e (member-without f gs)
  | inr e ↦ rw (e, e) (member-without f gs)
]

abbrev find_condition : String → List Condition → Option Condition
find_condition kind [] = none
find_condition kind (c ∷ cs) = if str_eq c.kind kind then some c else find_condition kind cs

abbrev pub missing : Error → Bool
missing not_found = true
missing _ = false

abbrev is_zero : CtrlResult → Bool
is_zero r = not r.requeue && nat_eq r.requeue_after 0

is_zero_iff : (r : CtrlResult) → (is_zero r ≡ true) ↔ (r ≡ done)
is_zero_iff r = (λ e. ground arith, λ e. rw e refl)

abbrev pub machinery_over : (Obj : Type 0) → Machinery Obj
machinery_over Obj = record {
  is_not_found = missing;
  ignore_not_found = λ e. if missing e then none else some e;
  is_zero = is_zero;
  contains_finalizer = λ o f. member f o.meta.finalizers;
  add_finalizer = λ o f. with_finalizers o (adjoin f o.meta.finalizers);
  remove_finalizer = λ o f. with_finalizers o (without f o.meta.finalizers);
  set_status_condition = λ c cs. c ∷ cs;
  find_status_condition = find_condition;
  set_controller_reference = λ o obj. ok obj;
  gvk_for_object = λ obj. ok "v1";
  set_group_version_kind = λ gvk obj. obj;
  write_kubeconfig = λ cfg. ok (1 ∷ []);
}

pub machinery_over-IsMachinery : (Obj : Type 0) → IsMachinery (machinery_over Obj)
machinery_over-IsMachinery Obj = record {
  finds_not_found = refl;
  ignores = λ e. refl;
  zero_iff = is_zero_iff;
  adds = λ o f. member-adjoin f o.meta.finalizers;
  removes = λ o f. member-without f o.meta.finalizers;
  adds_only = λ o f. refl;
  removes_only = λ o f. refl;
  finds_set = λ c cs. rw (eq_refl c.kind) refl;
}

abbrev pub machinery : Machinery String
machinery = machinery_over String

pub machinery-IsMachinery : IsMachinery machinery
machinery-IsMachinery = machinery_over-IsMachinery String

abbrev pub key_of : ManagedControlPlane → Key
key_of o = record { namespace = o.meta.namespace; name = o.meta.name }

abbrev read : Key → World → Result ManagedControlPlane
read k w =
    if str_eq k.namespace w.stored.meta.namespace && str_eq k.name w.stored.meta.name
    then ok w.stored
    else err not_found

abbrev pub client : Client String World
client = record {
  get_control_plane = read;
  get_service = λ k w. ok (record { ingress = record { ip = "10.0.0.1"; hostname = "" } ∷ [] });
  get_secret = λ k w. ok (record {
    name = k.name;
    namespace = k.namespace;
    kind = "kubernetes.io/tls";
    contents = ("ca.crt", 1 ∷ []) ∷ ("tls.crt", 2 ∷ []) ∷ ("tls.key", 3 ∷ []) ∷ [];
  });
  update = store_of;
  patch_status = λ before after. store_of after;
  update_status = store_of;
  patch = λ obj owner force. one_more;
  retry_on_conflict = λ f. f;
}

pub client-IsRetrying : IsRetrying client
client-IsRetrying = record { last_run = λ f w w' e. (w, e) }

abbrev pub render : Renderer String
render = record {
  endpoint = λ mcp. "service" ∷ [];
  pki = λ mcp. "issuer" ∷ "certificate" ∷ [];
  etcd = λ mcp. "stateful set" ∷ [];
  apiserver = λ mcp. elim mcp.spec.kubernetes.networking [
    | none ↦ none
    | some networking ↦ some ("deployment" ∷ [])
  ];
  controller_manager =
      λ mcp. elim mcp.spec.kubernetes.networking [ none ↦ none | some networking ↦ some [] ];
  scheduler = λ mcp. [];
  secret = λ s. "secret";
}
