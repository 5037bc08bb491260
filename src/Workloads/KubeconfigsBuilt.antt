-- ===== src/Workloads/KubeconfigsBuilt.antt =====
-- The controller manager and the scheduler as they are built, with the kubeconfigs that they read.
use controlplane_operator.Base.{
  String, ◌≡◌, subst, Option-cases, Result, Result-cases, ok, inl, inr, some, none,
}
use controlplane_operator.Api.{NetworkingSpec}
use controlplane_operator.Net.{Net}
use controlplane_operator.Utils.Kubeconfig.{Config}
use controlplane_operator.Cluster.{ClusterContext}
use controlplane_operator.Builders.ConfigMap.{ConfigMap}
use controlplane_operator.Builders.Deployment.{Deployment}
use controlplane_operator.Pki.CommonNames.{Durations}
use controlplane_operator.Pki.Resources.{certificate_resources}
use controlplane_operator.Workloads.ControllerManagerObjects
use controlplane_operator.Workloads.SchedulerObjects
use controlplane_operator.Workloads.Kubeconfigs.{Wired, controller_manager-Wired, scheduler-Wired}

controller_manager_map_built :
    (write : Config → Result String) (cp : ClusterContext) (cm : ConfigMap)
    → ControllerManagerObjects.build_config_map write cp ≡ some cm
    → (written : String) × (write (ControllerManagerObjects.kubeconfig cp) ≡ ok written)
      × (ControllerManagerObjects.config_map_of cp written ≡ cm)
unfolding ControllerManagerObjects.build_config_map
controller_manager_map_built write cp cm e =
    elim (Result-cases (write (ControllerManagerObjects.kubeconfig cp))) [
      | inl (written, wrote) ↦
          let same : some (ControllerManagerObjects.config_map_of cp written) ≡ some cm =
            rw (ControllerManagerObjects.build_config_map, wrote) at e in
          (written, wrote, cc)
      | inr (x, failed) ↦
          let clash : none ≡ some cm =
            rw (ControllerManagerObjects.build_config_map, failed) at e in
          cc
    ]

pub controller_manager_built :
    (cp : ClusterContext) (dep : Deployment)
    → ControllerManagerObjects.build_deployment cp ≡ some dep
    → (networking : NetworkingSpec) × (ControllerManagerObjects.deployment_with cp networking ≡ dep)
unfolding ControllerManagerObjects.build_deployment
controller_manager_built cp dep e = elim (Option-cases cp.spec.kubernetes.networking) [
  | inr (networking, given) ↦
      let same : some (ControllerManagerObjects.deployment_with cp networking) ≡ some dep =
        rw (ControllerManagerObjects.build_deployment, given) at e in
      (networking, cc)
  | inl absent ↦
      let clash : none ≡ some dep = rw (ControllerManagerObjects.build_deployment, absent) at e in
      cc
]

-- The controller manager and its kubeconfig.
controller_manager_kubeconfig-Wired :
    (net : Net) (cc : ClusterContext) (d : Durations) (write : Config → Result String)
    (cm : ConfigMap) (dep : Deployment)
    → ControllerManagerObjects.build_config_map write cc ≡ some cm
    → ControllerManagerObjects.build_deployment cc ≡ some dep
    → (written : String) × (write (ControllerManagerObjects.kubeconfig cc) ≡ ok written)
      × Wired
          (certificate_resources net cc d)
          dep.template
          cm
          (ControllerManagerObjects.kubeconfig cc)
          written
          "cm"
          "controller-manager.conf"
controller_manager_kubeconfig-Wired net cc d write cm dep made deployed =
    let (written, wrote, same) = controller_manager_map_built write cc cm made in
    let (networking, same_dep) = controller_manager_built cc dep deployed in
    (
      written,
      wrote,
      subst
          (λ (x : Deployment).
            Wired (certificate_resources net cc d) x.template cm
              (ControllerManagerObjects.kubeconfig cc) written "cm" "controller-manager.conf")
          same_dep
          (subst
            (λ (y : ConfigMap).
              Wired (certificate_resources net cc d)
                (ControllerManagerObjects.deployment_with cc networking).template y
                (ControllerManagerObjects.kubeconfig cc) written "cm" "controller-manager.conf")
            same (controller_manager-Wired net cc d networking written)),
    )

scheduler_map_built :
    (write : Config → Result String) (cp : ClusterContext) (cm : ConfigMap)
    → SchedulerObjects.build_config_map write cp ≡ some cm
    → (written : String) × (write (SchedulerObjects.kubeconfig cp) ≡ ok written)
      × (SchedulerObjects.config_map_of cp written ≡ cm)
unfolding SchedulerObjects.build_config_map
scheduler_map_built write cp cm e = elim (Result-cases (write (SchedulerObjects.kubeconfig cp))) [
  | inl (written, wrote) ↦
      let same : some (SchedulerObjects.config_map_of cp written) ≡ some cm =
        rw (SchedulerObjects.build_config_map, wrote) at e in
      (written, wrote, cc)
  | inr (x, failed) ↦
      let clash : none ≡ some cm = rw (SchedulerObjects.build_config_map, failed) at e in cc
]

-- The scheduler and its kubeconfig.
scheduler_kubeconfig-Wired :
    (net : Net) (cc : ClusterContext) (d : Durations) (write : Config → Result String)
    (cm : ConfigMap)
    → SchedulerObjects.build_config_map write cc ≡ some cm
    → (written : String) × (write (SchedulerObjects.kubeconfig cc) ≡ ok written)
      × Wired
          (certificate_resources net cc d)
          (SchedulerObjects.build_deployment cc).template
          cm
          (SchedulerObjects.kubeconfig cc)
          written
          "scheduler"
          "scheduler.conf"
scheduler_kubeconfig-Wired net cc d write cm made =
    let (written, wrote, same) = scheduler_map_built write cc cm made in
    (
      written,
      wrote,
      subst
          (λ (y : ConfigMap).
            Wired (certificate_resources net cc d) (SchedulerObjects.build_deployment cc).template y
              (SchedulerObjects.kubeconfig cc) written "scheduler" "scheduler.conf")
          same (scheduler-Wired net cc d written),
    )

-- When the ConfigMaps and the Deployments of the controller manager and the scheduler are built, the
-- written kubeconfig of each is what clientcmd gives for its kubeconfig, its container is told to read
-- it from the file that its ConfigMap provides, and the authority, the client certificate and the key
-- that it names are files of secrets that the control plane's certificates write, in volumes that the
-- container mounts.
pub kubeconfigs-Wired :
    (net : Net) (cc : ClusterContext) (d : Durations) (write : Config → Result String)
    (cm scheduler_cm : ConfigMap) (dep : Deployment)
    → ControllerManagerObjects.build_config_map write cc ≡ some cm
    → ControllerManagerObjects.build_deployment cc ≡ some dep
    → SchedulerObjects.build_config_map write cc ≡ some scheduler_cm
    → ((written : String) × (write (ControllerManagerObjects.kubeconfig cc) ≡ ok written)
        × Wired
            (certificate_resources net cc d)
            dep.template
            cm
            (ControllerManagerObjects.kubeconfig cc)
            written
            "cm"
            "controller-manager.conf")
      × ((written : String) × (write (SchedulerObjects.kubeconfig cc) ≡ ok written)
          × Wired
              (certificate_resources net cc d)
              (SchedulerObjects.build_deployment cc).template
              scheduler_cm
              (SchedulerObjects.kubeconfig cc)
              written
              "scheduler"
              "scheduler.conf")
kubeconfigs-Wired net cc d write cm scheduler_cm dep made deployed scheduler_made = (
  controller_manager_kubeconfig-Wired net cc d write cm dep made deployed,
  scheduler_kubeconfig-Wired net cc d write scheduler_cm scheduler_made,
)
