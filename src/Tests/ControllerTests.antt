-- ===== src/Tests/ControllerTests.antt =====
-- pkg/controller at concrete inputs.
use controlplane_operator.Base.{◌≡◌, refl, ◌⊎◌, true, false, none, [], ◌∷◌, lookup}
use controlplane_operator.Api.{ManagedControlPlane}
use controlplane_operator.Controller.Kube.{done}
use controlplane_operator.Controller.Apply.{apply, apply_opts, apply_each, prepare, set_owner}
use controlplane_operator.Controller.Apply.Prefix.{Refused, EachOutcome, apply-EachOutcome}
use controlplane_operator.Controller.Status.{set_status, deep_copy, with_condition}
use controlplane_operator.Controller.Status.Writes.{set_status-eq-patch_status}
use controlplane_operator.Controller.Components.{apiserver, components}
use controlplane_operator.Controller.Endpoint.{
  object_key, reconcile_api_service_svc, publish_address, try_endpoint_address, ingress_address,
  update_mcp_address, update_latest, update_mcp_admin_secret_ref,
}
use controlplane_operator.Controller.Endpoint.Address.{
  Missing, Known, reconcile_api_service_svc_settles,
}
use controlplane_operator.Controller.AdminConfig.{
  reconcile_admin_config, with_admin_client, publish, entry,
}
use controlplane_operator.Controller.AdminConfig.Published.{
  Published, reconcile_admin_config-Published,
}
use controlplane_operator.Controller.Reconcile.{
  reconcile_built, reconcile_component, run_components, reconcile,
}
use controlplane_operator.Controller.Reconcile.Pipeline.{Outcome, run_components-Outcome}
use controlplane_operator.Controller.Reconcile.Waiting.{IsUnfinished, reconcile-IsUnfinished}
use controlplane_operator.Tests.Fixtures.{
  sample, published, world, machinery, machinery-IsMachinery, client, client-IsRetrying, render,
}

apply-EachOutcome_example :
    let r = apply machinery client true (apply_opts sample) ("a" ∷ "b" ∷ []) (world sample) in
    Refused machinery client (apply_opts sample) true (world sample) r
    ⊎ EachOutcome machinery client (apply_opts sample) ("a" ∷ "b" ∷ []) (world sample) r
apply-EachOutcome_example =
    apply-EachOutcome machinery client (apply_opts sample) true ("a" ∷ "b" ∷ []) (world sample)

set_status-eq-patch_status_example :
    set_status machinery client 7 published "Ready" "False" "WaitingForResources" "Waiting for PKI"
      false
      (world published)
    ≡ client.patch_status
        (deep_copy 7 published)
        (with_condition machinery 7 published
          (record {
            kind = "Ready";
            status = "False";
            reason = "WaitingForResources";
            message = "Waiting for PKI";
            observed_generation = 1;
          })
          false)
        (world published)
set_status-eq-patch_status_example =
    set_status-eq-patch_status machinery client 7 published "Ready" "False" "WaitingForResources"
      "Waiting for PKI" false (world published)

run_components-Outcome_example :
    Outcome machinery client render true 7 published components
      (world published)
      (run_components machinery client render true 7 published components (world published))
run_components-Outcome_example =
    run_components-Outcome machinery client render true 7 published components (world published)

reconcile-IsUnfinished_example :
    IsUnfinished (reconcile machinery client render true 7 (object_key sample) (world sample)).0
reconcile-IsUnfinished_example =
    reconcile-IsUnfinished machinery client render true 7 machinery-IsMachinery (object_key sample)
      (world sample) sample refl refl refl

abbrev unnetworked : ManagedControlPlane
unnetworked = record sample {
  spec = record sample.spec { kubernetes = record sample.spec.kubernetes { networking = none } };
}

-- Without a networking section the component of the API server panics before it applies anything.
api_server_panics :
    reconcile_component machinery client render true apiserver unnetworked (world sample)
    ≡ (none, world sample)
unfolding reconcile_component reconcile_built
api_server_panics = refl

service_settled :
    (reconcile_api_service_svc machinery client render true sample (world sample)).0 ≡ (done, none)
unfolding reconcile_api_service_svc apply apply_each apply_opts prepare set_owner publish_address
    try_endpoint_address ingress_address update_mcp_address update_latest
service_settled = refl

reconcile_api_service_svc_settles_example :
    let (e, applied) =
      apply machinery client true (apply_opts sample) (render.endpoint sample) (world sample) in
    let w' = (reconcile_api_service_svc machinery client render true sample (world sample)).1 in
    (e ≡ none)
    × (Missing machinery client sample applied w' ⊎ Known machinery client sample applied w')
reconcile_api_service_svc_settles_example =
    reconcile_api_service_svc_settles machinery client sample client-IsRetrying render true
      (world sample) service_settled

config_published :
    (reconcile_admin_config machinery client render true published (world published)).0
    ≡ (done, none)
unfolding reconcile_admin_config with_admin_client publish entry apply apply_each apply_opts prepare
    set_owner update_mcp_admin_secret_ref update_latest lookup
config_published = refl

reconcile_admin_config-Published_example :
    Published machinery client render true published
      (world published)
      (reconcile_admin_config machinery client render true published (world published)).1
reconcile_admin_config-Published_example =
    reconcile_admin_config-Published machinery client render true published client-IsRetrying
      (world published) config_published
