-- ===== src/Api.antt =====
-- pkg/apis/controlplane.patrostkowski.dev/v1alpha1: the ManagedControlPlane resource.
-- Of the Kubernetes metadata and condition types, the fields that the operator reads or writes. A
-- `*bool` is an address with the value behind it, since the code compares such pointers. The four
-- availability sections of the spec are left out: no code of the operator reads them.
pub mod Messages
use controlplane_operator.Base.{ℕ, String, Bool, Option, List}

pub record BoolPtr : Type 0 where
  pub address : ℕ
  pub value : Bool

-- metav1.ObjectMeta; a nil map is `none`.
pub record ObjectMeta : Type 0 where
  pub name : String
  pub namespace : String
  pub labels : Option (List (String × String))
  pub annotations : Option (List (String × String))
  pub generation : ℕ
  pub deletion_timestamp : Option ℕ
  pub finalizers : List String

-- metav1.Condition
pub record Condition : Type 0 where
  pub kind : String
  pub status : String
  pub reason : String
  pub message : String
  pub observed_generation : ℕ

pub record NetworkingSpec : Type 0 where
  pub pod_cidr : String
  pub service_cidr : String

pub record KubernetesSpec : Type 0 where
  pub version : String
  pub networking : Option NetworkingSpec

pub record ManagedControlPlaneSpec : Type 0 where
  pub kubernetes : KubernetesSpec

pub record ManagedControlPlaneStatus : Type 0 where
  pub conditions : List Condition
  pub message : String
  pub ready : Option BoolPtr
  pub address : String
  pub admin_kubeconfig_secret_ref : String

pub record ManagedControlPlane : Type 0 where
  pub meta : ObjectMeta
  pub spec : ManagedControlPlaneSpec
  pub status : ManagedControlPlaneStatus
