-- ===== src/Controller/Apply.antt =====
-- pkg/controller/helpers.go, `apply` and its options: server-side apply of a list of objects, in
-- order, up to the first error. The reconciler's scheme pointer is modelled by whether it is set; the
-- log lines are left out.
pub mod Prefix
use controlplane_operator.Base.{
  String, Bool, true, false, not, ◌&&◌, Option, none, some, List, [], ◌∷◌, Error, other, wrapped,
  Result, ok, err, Effect, after, is_some, if◌then◌else◌,
}
use controlplane_operator.Api.{ManagedControlPlane}
use controlplane_operator.Controller.Kube.{Machinery, Client}

-- const.go
abbrev pub field_owner : String
field_owner = "controlplane-operator/controlplane-system"

pub record ApplyOptions : Type 0 where
  pub field_owner : String
  pub force : Bool
  pub owner : Option ManagedControlPlane
  pub set_owner_ref : Bool

unfoldable pub managed_apply_opts : ApplyOptions
managed_apply_opts = record {
  field_owner = field_owner;
  force = true;
  owner = none;
  set_owner_ref = false;
}

unfoldable pub apply_opts : ManagedControlPlane → ApplyOptions
apply_opts owner = record {
  field_owner = field_owner;
  force = true;
  owner = some owner;
  set_owner_ref = true;
}

module _ {Obj W : Type 0} (m : Machinery Obj) (c : Client Obj W) where
  -- SetControllerReference, under `opts.SetOwnerRef && opts.Owner != nil`
  unfoldable pub set_owner : Bool → Option ManagedControlPlane → Obj → Result Obj
  set_owner true (some owner) obj = m.set_controller_reference owner obj
  set_owner _ _ obj = ok obj

  -- The object as it is sent: with its owner and its kind.
  unfoldable pub prepare : ApplyOptions → Obj → Result Obj
  unfolding set_owner
  prepare opts obj = elim (set_owner opts.set_owner_ref opts.owner obj) [
    | err e ↦ err (wrapped "set owner ref" e)
    | ok owned ↦ elim (m.gvk_for_object owned) [
      | err e ↦ err (wrapped "resolve gvk" e)
      | ok gvk ↦ ok (m.set_group_version_kind gvk owned)
    ]
  ]

  -- The loop over the objects.
  unfoldable pub apply_each : ApplyOptions → List Obj → Effect W
  apply_each opts [] w = (none, w)
  apply_each opts (obj ∷ objs) w = elim (prepare opts obj) [
    | err e ↦ (some e, w)
    | ok sent ↦ after "apply" (c.patch sent opts.field_owner opts.force w) (apply_each opts objs)
  ]

  unfoldable pub apply : Bool → ApplyOptions → List Obj → Effect W
  unfolding apply_each
  apply has_scheme opts objs w =
      if not has_scheme
      then (some (other "apply: scheme is nil"), w)
      else if opts.set_owner_ref && not (is_some opts.owner)
      then (some (other "apply: SetOwnerRef=true but Owner is nil"), w)
      else apply_each opts objs w
