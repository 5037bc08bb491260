-- ===== src/Controller/Status.antt =====
-- pkg/controller/helpers.go, `setStatus` and the three statuses it writes. `fresh` is the next free
-- address of the Go heap: DeepCopy puts the copy's Ready at it, and ptr.To(ready) the new one behind.
-- The object that the code mutates is not read after the call, so only the effect is returned.
pub mod Writes
use controlplane_operator.Base.{
  ℕ, suc, String, Bool, true, false, ◌&&◌, Option, none, some, Effect, nat_eq, str_eq,
  if◌then◌else◌,
}
use controlplane_operator.Api.{BoolPtr, Condition, ManagedControlPlane}
use controlplane_operator.Api.Messages.{
  condition_ready, reason_waiting_for_resources, reason_component_failed,
  reason_all_resources_ready, message_all_resources_ready,
}
use controlplane_operator.Controller.Kube.{Machinery, Client}

-- mcp.DeepCopy(): the same values behind new addresses.
abbrev pub copy_ptr : ℕ → Option BoolPtr → Option BoolPtr
copy_ptr fresh none = none
copy_ptr fresh (some p) = some (record p { address = fresh })

unfoldable pub deep_copy : ℕ → ManagedControlPlane → ManagedControlPlane
deep_copy fresh mcp =
    let status = mcp.status in
    record mcp { status = record status { ready = copy_ptr fresh status.ready } }

-- `==` on pointers compares addresses.
abbrev pub same_ptr : Option BoolPtr → Option BoolPtr → Bool
same_ptr none none = true
same_ptr (some p) (some q) = nat_eq p.address q.address
same_ptr _ _ = false

abbrev pub same_condition : Option Condition → Condition → Bool
same_condition none new = false
same_condition (some old) new =
    str_eq old.status new.status
    && str_eq old.reason new.reason
    && str_eq old.message new.message
    && nat_eq old.observed_generation new.observed_generation

-- The status after the assignments of setStatus, before the condition is set.
unfoldable pub with_condition :
    {Obj : Type 0}
    → Machinery Obj
    → ℕ
    → ManagedControlPlane
    → Condition
    → Bool
    → ManagedControlPlane
with_condition m fresh mcp new ready =
    let status = mcp.status in
    record mcp {
      status = record status {
        ready = some (record { address = suc fresh; value = ready });
        message = new.message;
        conditions = m.set_status_condition new status.conditions;
      };
    }

module _ {Obj W : Type 0} (m : Machinery Obj) (c : Client Obj W) (fresh : ℕ) where
  unfoldable pub set_status :
      ManagedControlPlane
      → (cond_type cond_status reason message : String) (ready : Bool) → Effect W
  unfolding deep_copy with_condition
  set_status mcp cond_type cond_status reason message ready w =
      let before = deep_copy fresh mcp in
      let new : Condition = record {
        kind = cond_type;
        status = cond_status;
        reason = reason;
        message = message;
        observed_generation = mcp.meta.generation;
      } in
      let mcp' = with_condition m fresh mcp new ready in
      let old = m.find_status_condition new.kind before.status.conditions in
      if same_ptr before.status.ready mcp'.status.ready
        && str_eq before.status.message mcp'.status.message
        && same_condition old new
      then (none, w)
      else c.patch_status before mcp' w

  unfoldable pub status_waiting : ManagedControlPlane → String → Effect W
  unfolding set_status
  status_waiting mcp msg =
      set_status mcp condition_ready "False" reason_waiting_for_resources msg false

  unfoldable pub status_failed : ManagedControlPlane → String → Effect W
  unfolding set_status
  status_failed mcp msg = set_status mcp condition_ready "False" reason_component_failed msg false

  unfoldable pub status_ready : ManagedControlPlane → Effect W
  unfolding set_status
  status_ready mcp =
      set_status mcp condition_ready "True" reason_all_resources_ready message_all_resources_ready
        true
