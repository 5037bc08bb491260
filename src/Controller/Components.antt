-- ===== src/Controller/Components.antt =====
-- The seven components of the control plane, their names and their messages: pkg/controller/pki.go,
-- etcd.go, apiserver.go, controllermanager.go, scheduler.go and config.go, with the constants of
-- v1alpha1/const.go in place.
use controlplane_operator.Base.{String, List, [], ◌∷◌}

pub data Component : Type 0 where
  apiserver_service pki etcd apiserver controller_manager scheduler admin_config : Component

-- What the methods Name, WaitingMessage and FailedMessage return.
pub record ComponentText : Type 0 where
  pub name : String
  pub waiting_message : String
  pub failed_message : String

abbrev pub apiserver_service_component : ComponentText
apiserver_service_component = record {
  name = "apiserver-service";
  waiting_message = "Waiting for API Server IP address";
  failed_message = "Failed to reconcile API Server service IP address";
}

abbrev pub pki_component : ComponentText
pki_component = record {
  name = "pki";
  waiting_message = "Waiting for PKI";
  failed_message = "Failed to reconcile PKI";
}

abbrev pub etcd_component : ComponentText
etcd_component = record {
  name = "etcd";
  waiting_message = "Waiting for ETCD";
  failed_message = "Failed to reconcile ETCD";
}

abbrev pub apiserver_component : ComponentText
apiserver_component = record {
  name = "apiserver";
  waiting_message = "Waiting for API Server";
  failed_message = "Failed to reconcile API Server";
}

abbrev pub controller_manager_component : ComponentText
controller_manager_component = record {
  name = "controller-manager";
  waiting_message = "Waiting for Controller Manager";
  failed_message = "Failed to reconcile Controller Manager";
}

abbrev pub scheduler_component : ComponentText
scheduler_component = record {
  name = "scheduler";
  waiting_message = "Waiting for Scheduler";
  failed_message = "Failed to reconcile Scheduler";
}

abbrev pub admin_config_component : ComponentText
admin_config_component = record {
  name = "admin-kubeconfig";
  waiting_message = "Waiting for admin kubeconfig";
  failed_message = "Failed to reconcile admin kubeconfig";
}

abbrev pub component_text : Component → ComponentText
component_text apiserver_service = apiserver_service_component
component_text pki = pki_component
component_text etcd = etcd_component
component_text apiserver = apiserver_component
component_text controller_manager = controller_manager_component
component_text scheduler = scheduler_component
component_text admin_config = admin_config_component

abbrev pub component_name : Component → String
component_name c = (component_text c).name

abbrev pub waiting_message : Component → String
waiting_message c = (component_text c).waiting_message

abbrev pub failed_message : Component → String
failed_message c = (component_text c).failed_message

-- The list in Reconcile.
unfoldable pub components : List Component
components =
    apiserver_service ∷ pki ∷ etcd ∷ apiserver ∷ controller_manager ∷ scheduler ∷ admin_config ∷ []
