-- ===== src/Tests/ProviderTests.antt =====
-- pkg/controller/multicluster at concrete inputs: a world in which everything succeeds but, where the
-- test says so, the managed add-on.
use controlplane_operator.Base.{
  ℕ, suc, ◌≡◌, refl, ap, sym, ◌∙◌, List, length, true, Option, none, some, [], ◌∷◌, Error,
  not_found, other, wrapped, ok, err, lookup, arith, str_eq, if◌then◌else◌,
}
use controlplane_operator.Controller.Kube.{Key, done}
use controlplane_operator.Multicluster.Provider.{
  answered, Provider, Host, get, new, cluster_name, apply_indexers, reconcile_managed_addons,
  refresh, reconcile,
}
use controlplane_operator.Multicluster.Provider.Contexts.{Accounted, reconcile-Accounted}
use controlplane_operator.Multicluster.Provider.Frame.{AgreesOff, reconcile-AgreesOff}
use controlplane_operator.Multicluster.Provider.Coherence.{
  Current, gone, reconcile-Current, reconcile-Departed,
}
use controlplane_operator.Multicluster.Provider.Engagement.{Synced, launched, refresh_strands}
use controlplane_operator.Utils.Kubeconfig.{Bytes}
use controlplane_operator.Multicluster.Provider.History.{Operation, reconciles, indexes, run}
use controlplane_operator.Tests.Codec.{encode, decode, decode-encode}
use controlplane_operator.Tests.Fixtures.{sample, missing}

-- Clusters, configs and indexes are numbers; the world counts what is made.
abbrev host : Option Error → Host ℕ ℕ ℕ ℕ
host addon = record {
  get_control_plane = λ k w. if str_eq k.name "demo" then ok sample else err not_found;
  is_not_found = missing;
  is_ready = λ mcp. true;
  get_secret = λ mcp w. ok (1 ∷ 2 ∷ []);
  hash_kubeconfig = encode;
  rest_config = λ bytes. ok (length bytes);
  server_version = λ cfg w. answered;
  new_cluster = λ mcp cfg w. (ok w, suc w);
  index_field = λ cl idx w. (none, w);
  start = λ cl ctx w. w;
  wait_for_cache_sync = λ cl ctx w. (true, w);
  get_managed_addon = λ cl w. addon;
  create_managed_addon = λ cl w. (none, w);
  engage = λ ctx key cl w. (none, suc w);
}

abbrev pub works : Host ℕ ℕ ℕ ℕ
works = host none

abbrev fails : Host ℕ ℕ ℕ ℕ
fails = host (some (other "forbidden"))

abbrev pub request : Key
request = record { namespace = "default"; name = "demo" }

abbrev pub strange : Key
strange = record { namespace = "default"; name = "other" }

abbrev empty : Provider ℕ ℕ ℕ
empty = record { clusters = []; indexers = []; contexts = 0; cancelled = []; world = 0 }

empty-Accounted : Accounted works empty
empty-Accounted = record { unique = tt; accounts = λ n. ground arith }

reconcile-Accounted_example : Accounted works (reconcile works request empty).1
reconcile-Accounted_example = reconcile-Accounted works request empty empty-Accounted

reconcile-AgreesOff_example :
    AgreesOff works (cluster_name request) empty (reconcile works request empty).1
reconcile-AgreesOff_example = reconcile-AgreesOff works request empty

-- A cluster is made, and an index registered.
abbrev pub past : List (Operation ℕ)
past = reconciles request ∷ (indexes 3 ∷ [])

encode-same : (a b : Bytes) → encode a ≡ encode b → a ≡ b
encode-same a b e = sym (decode-encode a) ∙ ap decode e ∙ decode-encode b

reconcile-Current_example :
    Current works
      (cluster_name request)
      (1 ∷ 2 ∷ [])
      (reconcile works request (run works past (new works 0, [])).0).1
reconcile-Current_example =
    reconcile-Current works past 0 request sample (1 ∷ 2 ∷ []) (λ d e. encode-same d (1 ∷ 2 ∷ []) e)
      refl refl refl refl

reconcile-Departed_example :
    (lookup (cluster_name strange) (reconcile works strange empty).1.clusters ≡ none)
    × ((reconcile works strange empty).0.1 ≡ none)
reconcile-Departed_example = reconcile-Departed works strange empty (gone not_found refl refl)

synced : (addon : Option Error) → Synced (host addon) "default/demo" sample (1 ∷ 2 ∷ []) empty
unfolding lookup apply_indexers
synced addon = record {
  absent = refl;
  cfg = 2;
  parsed = refl;
  served = refl;
  cl = 0;
  creates = refl;
  indexes = refl;
  syncs = refl;
}

addon_fails :
    (reconcile_managed_addons fails
      (synced (some (other "forbidden"))).cl
      (launched fails "default/demo" sample
        (synced (some (other "forbidden"))).cfg
        (synced (some (other "forbidden"))).cl
        empty).1).0
    ≡ some (other "forbidden")
unfolding reconcile_managed_addons
addon_fails = refl

refresh_strands_example :
    let q = (refresh fails "default/demo" sample (1 ∷ 2 ∷ []) empty).1 in
    ((refresh fails "default/demo" sample (1 ∷ 2 ∷ []) empty).0
      ≡ (done, some (wrapped "failed to ensure managedaddon" (other "forbidden"))))
    × (get fails "default/demo" q ≡ ok (synced (some (other "forbidden"))).cl)
    × (refresh fails "default/demo" sample (1 ∷ 2 ∷ []) q ≡ ((done, none), q))
refresh_strands_example =
    refresh_strands fails "default/demo" sample (1 ∷ 2 ∷ []) empty
      (synced (some (other "forbidden"))) (other "forbidden") sample addon_fails
