-- ===== src/Pki/Built.antt =====
-- The metadata that the templates give an object of pkg/resources/pki/pki.go.
use controlplane_operator.Base.{String, ◌≡◌, ap, sym, ◌∙◌}
use controlplane_operator.Api.{ObjectMeta}
use controlplane_operator.Cluster.{ClusterContext, namespace}
use controlplane_operator.Builders.Meta.{
  with_name, with_namespace, with_namespace-with_name, empty_meta,
}

-- The metadata of an object that a template builds.
abbrev pub meta_of : ClusterContext → String → ObjectMeta
meta_of cc n = with_namespace (namespace cc) (with_name n empty_meta)

pub meta_of_eq : (cc : ClusterContext) (n : String) → (meta_of cc n).name ≡ n
meta_of_eq cc n = ap (λ m. m.name) (with_namespace-with_name n (namespace cc))

-- Two such objects stand in one namespace.
pub meta_of_beside :
    (cc : ClusterContext) (n m : String) → (meta_of cc n).namespace ≡ (meta_of cc m).namespace
meta_of_beside cc n m =
    ap (λ m. m.namespace) (with_namespace-with_name n (namespace cc))
    ∙ sym (ap (λ m. m.namespace) (with_namespace-with_name m (namespace cc)))

pub meta_of_namespace : (cc : ClusterContext) (n : String) → (meta_of cc n).namespace ≡ namespace cc
meta_of_namespace cc n = ap (λ m. m.namespace) (with_namespace-with_name n (namespace cc))
