-- ===== src/AddonResources/Join/Token.antt =====
-- pkg/resources/addons/rbac.go: the secret of the bootstrap token. The names of the keys and the type
-- are those of k8s.io/cluster-bootstrap.
use Prim.Native.String.{◌++◌}
use controlplane_operator.Base.{String}
use controlplane_operator.Builders.Pipe.{◌▷◌}
use controlplane_operator.Builders.Secret
use controlplane_operator.Builders.Secret.{Secret}
use controlplane_operator.Controller.Addons.Token.{BootstrapToken}
use controlplane_operator.AddonResources.Objects.{kube_system_namespace, part_of}

abbrev pub bootstrap_token_description : String
bootstrap_token_description = "Bootstrap token for kubelet workers"

abbrev pub default_node_bootstrapper_group : String
default_node_bootstrapper_group = "system:bootstrappers:kubeadm:default-node-token"

-- bootstraphandle.BootstrapTokenSecretName
abbrev pub bootstrap_token_secret_name : String → String
bootstrap_token_secret_name id = "bootstrap-token-" ++ id

unfoldable pub bootstrap_token_secret : BootstrapToken → Secret
bootstrap_token_secret tok =
    Secret.new_secret
    ▷ Secret.with_name (bootstrap_token_secret_name tok.id)
    ▷ Secret.with_namespace kube_system_namespace
    ▷ Secret.with_type "bootstrap.kubernetes.io/token"
    ▷ Secret.with_annotations part_of
    ▷ Secret.put "description" bootstrap_token_description
    ▷ Secret.put "token-id" tok.id
    ▷ Secret.put "token-secret" tok.secret
    ▷ Secret.put "usage-bootstrap-authentication" "true"
    ▷ Secret.put "usage-bootstrap-signing" "true"
    ▷ Secret.put "auth-extra-groups" default_node_bootstrapper_group
    ▷ Secret.build
