-- ===== src/Controller/Kube.antt =====
-- The Kubernetes code that the reconcilers call and that is not part of the repository: the client of
-- the API server over an abstract world, and the helpers of controller-runtime, apimachinery and
-- client-go. `IsMachinery` states what their documentation promises.
use controlplane_operator.Base.{
  ℕ, ◌*◌, String, ◌≡◌, ◌↔◌, Bool, true, false, Option, none, some, List, Error, Result, Effect,
  not_found, if◌then◌else◌,
}
use controlplane_operator.Api.{ManagedControlPlane, Condition}
use controlplane_operator.Utils.Kubeconfig.{Bytes, Config}

-- types.NamespacedName
pub record Key : Type 0 where
  pub namespace : String
  pub name : String

-- One entry of a Service's load balancer status.
pub record Ingress : Type 0 where
  pub ip : String
  pub hostname : String

pub record Service : Type 0 where
  pub ingress : List Ingress

pub record Secret : Type 0 where
  pub name : String
  pub namespace : String
  pub kind : String
  pub contents : List (String × Bytes)

-- ctrl.Result; the delay is in nanoseconds.
pub record CtrlResult : Type 0 where
  pub requeue : Bool
  pub requeue_after : ℕ

abbrev pub done : CtrlResult
done = record { requeue = false; requeue_after = 0 }

abbrev pub second : ℕ
second = 1_000_000_000

-- RequeueAfterFailure
abbrev pub requeue_after_failure : ℕ
requeue_after_failure = 10 * second

abbrev pub requeue_later : CtrlResult
requeue_later = record { requeue = false; requeue_after = requeue_after_failure }

-- What Reconcile returns.
abbrev pub Reply : Type 0
Reply = CtrlResult × Option Error

pub record Machinery (Obj : Type 0) : Type 0 where
  pub is_not_found : Error → Bool
  pub ignore_not_found : Error → Option Error
  pub is_zero : CtrlResult → Bool
  pub contains_finalizer : ManagedControlPlane → String → Bool
  pub add_finalizer : ManagedControlPlane → String → ManagedControlPlane
  pub remove_finalizer : ManagedControlPlane → String → ManagedControlPlane
  pub set_status_condition : Condition → List Condition → List Condition
  pub find_status_condition : String → List Condition → Option Condition
  pub set_controller_reference : ManagedControlPlane → Obj → Result Obj
  pub gvk_for_object : Obj → Result String
  pub set_group_version_kind : String → Obj → Obj
  pub write_kubeconfig : Config → Result Bytes

abbrev pub with_finalizers : ManagedControlPlane → List String → ManagedControlPlane
with_finalizers o fs = let meta = o.meta in record o { meta = record meta { finalizers = fs } }

pub record IsMachinery {Obj : Type 0} (m : Machinery Obj) : Type 0 where
  pub finds_not_found : m.is_not_found not_found ≡ true
  pub ignores : (e : Error) → m.ignore_not_found e ≡ (if m.is_not_found e then none else some e)
  pub zero_iff : (r : CtrlResult) → (m.is_zero r ≡ true) ↔ (r ≡ done)
  pub adds :
      (o : ManagedControlPlane) (f : String) → m.contains_finalizer (m.add_finalizer o f) f ≡ true
  pub removes :
      (o : ManagedControlPlane) (f : String)
      → m.contains_finalizer (m.remove_finalizer o f) f ≡ false
  -- Only the finalizers change.
  pub adds_only :
      (o : ManagedControlPlane) (f : String)
      → m.add_finalizer o f ≡ with_finalizers o (m.add_finalizer o f).meta.finalizers
  pub removes_only :
      (o : ManagedControlPlane) (f : String)
      → m.remove_finalizer o f ≡ with_finalizers o (m.remove_finalizer o f).meta.finalizers
  pub finds_set :
      (c : Condition) (cs : List Condition)
      → m.find_status_condition c.kind (m.set_status_condition c cs) ≡ some c

pub record Client (Obj W : Type 0) : Type 0 where
  pub get_control_plane : Key → W → Result ManagedControlPlane
  pub get_service : Key → W → Result Service
  pub get_secret : Key → W → Result Secret
  pub update : ManagedControlPlane → Effect W
  -- Status().Patch(ctx, mcp, MergeFrom(before)): the old object, then the new one
  pub patch_status : ManagedControlPlane → ManagedControlPlane → Effect W
  pub update_status : ManagedControlPlane → Effect W
  -- Patch(ctx, obj, client.Apply, FieldOwner(owner)), and whether with ForceOwnership
  pub patch : Obj → String → Bool → Effect W
  pub retry_on_conflict : Effect W → Effect W

-- RetryOnConflict returns nil only where a run of its function has, and that was the last one.
pub record IsRetrying {Obj W : Type 0} (c : Client Obj W) : Type 0 where
  pub last_run :
      (f : Effect W) (w w' : W)
      → c.retry_on_conflict f w ≡ (none, w')
      → (before : W) × (f before ≡ (none, w'))

-- The objects of the builders of pkg/resources, and a Secret as an object. Two of the builders give
-- none where they panic: those that read the networking section.
pub record Renderer (Obj : Type 0) : Type 0 where
  pub endpoint : ManagedControlPlane → List Obj
  pub pki : ManagedControlPlane → List Obj
  pub etcd : ManagedControlPlane → List Obj
  pub apiserver : ManagedControlPlane → Option (List Obj)
  pub controller_manager : ManagedControlPlane → Option (List Obj)
  pub scheduler : ManagedControlPlane → List Obj
  pub secret : Secret → Obj
