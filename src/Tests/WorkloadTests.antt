-- ===== src/Tests/WorkloadTests.antt =====
-- The workloads of pkg/resources at a concrete control plane.
use controlplane_operator.Base.{[], ◌∷◌, Result, ok, ◌≡◌, refl, some, List, String, lookup}
use controlplane_operator.Cluster.ApiServer
use controlplane_operator.Cluster.Etcd
use controlplane_operator.Builders.Deployment.{Deployment}
use controlplane_operator.Builders.Pod.{config_map_source}
use controlplane_operator.Pki.CommonNames.{default_durations}
use controlplane_operator.Pki.EtcdCertificates.{etcd_server_certificate, etcd_peer_certificate}
use controlplane_operator.Pki.Resources.{certificate_resources}
use controlplane_operator.Workloads.Backing.{Runs}
use controlplane_operator.Workloads.Etcd.{build_service, build_stateful_set}
use controlplane_operator.Workloads.EtcdFiles.{
  client_flags, peer_flags, file_flags, build_stateful_set-Runs, Reached, etcd-Reached,
}
use controlplane_operator.Workloads.ApiServer.{
  EgressSelection, build_konnectivity_config_map, egress_selections,
}
use controlplane_operator.Workloads.ApiServerDeployment.{build_deployment, deployment_with}
use controlplane_operator.Workloads.ApiServerFiles.{
  apiserver_flags, konnectivity_flags, build_deployment-Runs,
}
use controlplane_operator.Workloads.ApiServerEgress.{Connected, build_deployment-Connected}
use controlplane_operator.Utils.Kubeconfig.{Config, build_component_kubeconfig}
use controlplane_operator.Builders.ConfigMap.{ConfigMap}
use controlplane_operator.Workloads.ControllerManagerObjects
use controlplane_operator.Workloads.SchedulerObjects
use controlplane_operator.Workloads.ControllerManagerFiles.{
  controller_manager_flags, controller_manager_deployment-Runs,
}
use controlplane_operator.Workloads.Kubeconfigs.{Wired}
use controlplane_operator.Workloads.KubeconfigsBuilt.{kubeconfigs-Wired}
use controlplane_operator.Tests.Fixtures.{published}
use controlplane_operator.Tests.PkiTests.{net}

build_stateful_set-Runs_example :
    Runs
      (certificate_resources net published default_durations)
      (build_stateful_set published).template
      (Etcd.service_name published)
      file_flags
build_stateful_set-Runs_example = build_stateful_set-Runs net published default_durations

etcd-Reached_example :
    Reached
      (build_service published)
      (build_stateful_set published)
      (etcd_server_certificate published default_durations)
      client_flags
      (Etcd.member_fqdn_client published)
      2379
    × Reached
        (build_service published)
        (build_stateful_set published)
        (etcd_peer_certificate published default_durations)
        peer_flags
        (Etcd.member_fqdn_peer published)
        2380
etcd-Reached_example = etcd-Reached published default_durations

abbrev built_deployment : Deployment
built_deployment =
    deployment_with published (record { pod_cidr = "10.244.0.0/16"; service_cidr = "10.96.0.0/12" })

is_built : build_deployment published ≡ some built_deployment
unfolding build_deployment
is_built = refl

build_deployment-Runs_example :
    Runs
      (certificate_resources net published default_durations)
      built_deployment.template
      "apiserver"
      apiserver_flags
    × Runs
        (certificate_resources net published default_durations)
        built_deployment.template
        "konnectivity-server"
        konnectivity_flags
build_deployment-Runs_example =
    build_deployment-Runs net published default_durations built_deployment is_built

abbrev yaml : List EgressSelection → String
yaml selections = "egressSelections: []"

build_deployment-Connected_example :
    Connected built_deployment.template (
      config_map_source
        (ApiServer.konnectivity_config_map_name published)
        (("konnectivity-egress-selector.yaml", "konnectivity-egress-selector.yaml") ∷ []))
    × ((build_konnectivity_config_map yaml published).meta.name
        ≡ ApiServer.konnectivity_config_map_name published)
    × (lookup "konnectivity-egress-selector.yaml"
          (build_konnectivity_config_map yaml published).contents
        ≡ some (yaml egress_selections))
build_deployment-Connected_example =
    build_deployment-Connected yaml published built_deployment is_built

abbrev write : Config → Result String
write config = ok config.current_context

abbrev controller_manager : Deployment
controller_manager =
    ControllerManagerObjects.deployment_with published
      (record { pod_cidr = "10.244.0.0/16"; service_cidr = "10.96.0.0/12" })

controller_manager_is_built :
    ControllerManagerObjects.build_deployment published ≡ some controller_manager
unfolding ControllerManagerObjects.build_deployment
controller_manager_is_built = refl

abbrev controller_manager_map : ConfigMap
controller_manager_map = ControllerManagerObjects.config_map_of published "local"

controller_manager_map_is_built :
    ControllerManagerObjects.build_config_map write published ≡ some controller_manager_map
unfolding ControllerManagerObjects.build_config_map ControllerManagerObjects.kubeconfig
    build_component_kubeconfig
controller_manager_map_is_built = refl

controller_manager_deployment-Runs_example :
    Runs
      (certificate_resources net published default_durations)
      controller_manager.template
      "kube-controller-manager"
      controller_manager_flags
controller_manager_deployment-Runs_example =
    controller_manager_deployment-Runs net published default_durations controller_manager
      controller_manager_is_built

abbrev scheduler_map : ConfigMap
scheduler_map = SchedulerObjects.config_map_of published "local"

scheduler_map_is_built : SchedulerObjects.build_config_map write published ≡ some scheduler_map
unfolding SchedulerObjects.build_config_map SchedulerObjects.kubeconfig build_component_kubeconfig
scheduler_map_is_built = refl

kubeconfigs-Wired_example :
    ((written : String) × (write (ControllerManagerObjects.kubeconfig published) ≡ ok written)
      × Wired
          (certificate_resources net published default_durations)
          controller_manager.template
          controller_manager_map
          (ControllerManagerObjects.kubeconfig published)
          written
          "cm"
          "controller-manager.conf")
    × ((written : String) × (write (SchedulerObjects.kubeconfig published) ≡ ok written)
        × Wired
            (certificate_resources net published default_durations)
            (SchedulerObjects.build_deployment published).template
            scheduler_map
            (SchedulerObjects.kubeconfig published)
            written
            "scheduler"
            "scheduler.conf")
kubeconfigs-Wired_example =
    kubeconfigs-Wired net published default_durations write controller_manager_map scheduler_map
      controller_manager controller_manager_map_is_built controller_manager_is_built
      scheduler_map_is_built
