-- ===== src/Api/Messages.antt =====
-- pkg/apis/controlplane.patrostkowski.dev/v1alpha1/const.go: the condition, the reasons and the
-- messages that the reconciler reports, and the `part-of` annotation.
use controlplane_operator.Base.{String}

abbrev pub kind_managed_control_plane : String
kind_managed_control_plane = "ManagedControlPlane"

abbrev pub annotation_key_part_of : String
annotation_key_part_of = "part-of"

abbrev pub condition_ready : String
condition_ready = "Ready"

abbrev pub reason_waiting_for_resources : String
reason_waiting_for_resources = "WaitingForResources"

abbrev pub reason_component_failed : String
reason_component_failed = "ComponentFailed"

abbrev pub reason_all_resources_ready : String
reason_all_resources_ready = "AllResourcesReady"

abbrev pub message_all_resources_ready : String
message_all_resources_ready = "All resources are Ready"
