-- ===== src/Controller/Status/Writes.antt =====
-- When `setStatus` writes, and what it writes.
use controlplane_operator.Base.{ℕ, suc, String, ◌≡◌, refl, Bool, false, Option, none, some, arith}
use controlplane_operator.Api.{BoolPtr, ManagedControlPlane}
use controlplane_operator.Controller.Kube.{Machinery, Client}
use controlplane_operator.Controller.Status.{
  copy_ptr, same_ptr, deep_copy, with_condition, set_status,
}

-- The copy's pointer never has the address of the new one.
same_ptr-copy_ptr :
    (fresh : ℕ) (old : Option BoolPtr) (value : Bool)
    → same_ptr (copy_ptr fresh old) (some (record { address = suc fresh; value = value })) ≡ false
same_ptr-copy_ptr fresh none value = refl
same_ptr-copy_ptr fresh (some p) value = ground arith

module _ {Obj W : Type 0} (m : Machinery Obj) (c : Client Obj W) (fresh : ℕ) where
  -- `setStatus` patches the status on every call, also where ready, message and condition are those that
  -- the object already has: the test that should skip the write compares the addresses of a copy and of
  -- a new value, which always differ.
  pub set_status-eq-patch_status :
      (mcp : ManagedControlPlane) (cond_type cond_status reason message : String) (ready : Bool)
      (w : W)
      → set_status m c fresh mcp cond_type cond_status reason message ready w
        ≡ c.patch_status
            (deep_copy fresh mcp)
            (with_condition m fresh mcp
              (record {
                kind = cond_type;
                status = cond_status;
                reason = reason;
                message = message;
                observed_generation = mcp.meta.generation;
              })
              ready)
            w
  unfolding set_status
  set_status-eq-patch_status mcp cond_type cond_status reason message ready w =
      rw (same_ptr-copy_ptr fresh mcp.status.ready ready)
