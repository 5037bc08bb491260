-- ===== src/Multicluster/Provider.antt =====
-- pkg/controller/multicluster/provider.go. The provider's reconciles run one at a time
-- (MaxConcurrentReconciles: 1), so its operations are functions on its state. A context made by
-- context.WithCancel is a number; the state records which were made and which were cancelled. The
-- clusters, their rest configs, the indexes and the world outside are abstract.
pub mod Registry
pub mod Contexts
pub mod History
pub mod Frame
pub mod Coherence
pub mod Engagement
use Prim.Native.String
use controlplane_operator.Base.{
  ℕ, ◌≡◌, refl, ◌⊎◌, inl, inr, suc, ◌+◌, ◌*◌, String, Bool, true, false, not, Option, none, some,
  List, [], ◌∷◌, ◌++◌, map, Error, other, wrapped, Result, ok, err, Effect, after, is_some, str_eq,
  lookup, insert, erase, if◌then◌else◌,
}
use controlplane_operator.Api.{ManagedControlPlane}
use controlplane_operator.Api.Messages.{message_all_resources_ready}
use controlplane_operator.Utils.Kubeconfig.{Bytes}
use controlplane_operator.Cluster.Admin
use controlplane_operator.Controller.Kube.{Key, CtrlResult, Reply, done, second}

pub record ActiveCluster (Cluster : Type 0) : Type 0 where
  pub cluster : Cluster
  pub cancel : ℕ
  pub hash : String

pub record Provider (Cluster Index W : Type 0) : Type 0 where
  pub clusters : List (String × ActiveCluster Cluster)
  pub indexers : List Index
  pub contexts : ℕ
  pub cancelled : List ℕ
  pub world : W

-- What kubernetes.NewForConfigOrDie(cfg).Discovery().ServerVersion() does: it answers, it returns an
-- error, or no client is made from the config, and the first call panics.
pub data Discovered : Type 0 where
  answered : Discovered
  unreachable : Error → Discovered
  dies : Error → Discovered

pub Discovered-cases :
    (d : Discovered)
    → (d ≡ answered) ⊎ (((e : Error) × (d ≡ unreachable e)) ⊎ ((e : Error) × (d ≡ dies e)))
Discovered-cases answered = inl refl
Discovered-cases (unreachable e) = inr (inl (e, refl))
Discovered-cases (dies e) = inr (inr (e, refl))

-- What the provider calls: its Options and the libraries.
pub record Host (Cluster Config Index W : Type 0) : Type 0 where
  pub get_control_plane : Key → W → Result ManagedControlPlane
  pub is_not_found : Error → Bool
  pub is_ready : ManagedControlPlane → Bool
  pub get_secret : ManagedControlPlane → W → Result Bytes
  pub hash_kubeconfig : Bytes → String
  pub rest_config : Bytes → Result Config
  pub server_version : Config → W → Discovered
  pub new_cluster : ManagedControlPlane → Config → W → Result Cluster × W
  pub index_field : Cluster → Index → Effect W
  pub start : Cluster → ℕ → W → W
  pub wait_for_cache_sync : Cluster → ℕ → W → Bool × W
  pub get_managed_addon : Cluster → W → Option Error
  pub create_managed_addon : Cluster → Effect W
  pub engage : ℕ → String → Cluster → Effect W

-- The IsReady of setDefaults.
unfoldable pub default_is_ready : ManagedControlPlane → Bool
default_is_ready mcp = str_eq mcp.status.message message_all_resources_ready

-- The GetSecret of setDefaults, over utils.DataFromSecret and toBytes (pkg/utils/secret.go); the
-- argument reads the data of a Secret.
unfoldable pub to_bytes : List (String × Bytes) → String → Result Bytes
to_bytes out key = elim (lookup key out) [
  | none ↦ err (other "missing key in secret data")
  | some b ↦ ok b
]

unfoldable pub data_from_secret :
    {W : Type 0} → (Key → W → Result (List (String × Bytes))) → Key → String → W → Result Bytes
unfolding to_bytes
data_from_secret get obj key w = elim (get obj w) [
  | err e ↦ err e
  | ok secret ↦ to_bytes secret key
]

unfoldable pub default_get_secret :
    {W : Type 0}
    → (Key → W → Result (List (String × Bytes)))
    → ManagedControlPlane
    → W
    → Result Bytes
unfolding data_from_secret
default_get_secret get mcp =
    data_from_secret get
      (record { namespace = mcp.meta.namespace; name = Admin.kubeconfig_secret mcp })
      Admin.kubeconfig_data_key

-- req.NamespacedName.String()
abbrev pub cluster_name : Key → String
cluster_name req = String.◌++◌ req.namespace (String.◌++◌ "/" req.name)

abbrev pub requeue_soon : CtrlResult
requeue_soon = record { requeue = false; requeue_after = 5 * second }

module _ {Cluster Config Index W : Type 0} (h : Host Cluster Config Index W) where
  abbrev pub State : Type 0
  State = Provider Cluster Index W

  unfoldable pub new : W → State
  new w = record { clusters = []; indexers = []; contexts = 0; cancelled = []; world = w }

  unfoldable pub get : String → State → Result Cluster
  get cluster_name p = elim (lookup cluster_name p.clusters) [
    | none ↦ err (other "cluster not found")
    | some ac ↦ ok ac.cluster
  ]

  unfoldable pub list_clusters : State → List String
  list_clusters p = map (λ (kv : String × ActiveCluster Cluster). kv.0) p.clusters

  unfoldable pub remove_cluster : String → State → State
  remove_cluster key p = elim (lookup key p.clusters) [
    | none ↦ p
    | some ac ↦ record p { clusters = erase key p.clusters; cancelled = ac.cancel ∷ p.cancelled }
  ]

  -- The loop of applyIndexers.
  unfoldable pub apply_indexers : Cluster → List Index → Effect W
  apply_indexers cl [] w = (none, w)
  apply_indexers cl (idx ∷ rest) w =
      after "failed to index field" (h.index_field cl idx w) (apply_indexers cl rest)

  -- The loop of IndexField over the clusters that are up.
  unfoldable pub index_all : Index → List (String × ActiveCluster Cluster) → Effect W
  index_all idx [] w = (none, w)
  index_all idx ((name, ac) ∷ rest) w =
      after "failed to index field on cluster" (h.index_field ac.cluster idx w) (index_all idx rest)

  unfoldable pub index_field : Index → State → Option Error × State
  index_field idx p =
      let (e, w) = index_all idx p.clusters p.world in
      (e, record p { indexers = p.indexers ++ idx ∷ []; world = w })

  unfoldable pub reconcile_managed_addons : Cluster → Effect W
  reconcile_managed_addons cl w = elim (h.get_managed_addon cl w) [
    | none ↦ (none, w)
    | some e ↦ if h.is_not_found e then h.create_managed_addon cl w else (some e, w)
  ]

  -- The cluster is entered, and its context is the one that was made last.
  unfoldable pub store : String → Cluster → ℕ → String → State → State
  store key cl ctx hash_str p = record p {
    clusters = insert key (record { cluster = cl; cancel = ctx; hash = hash_str }) p.clusters;
  }

  -- p.mcMgr.Engage, and the removal when it fails
  unfoldable pub engage_stored : String → Cluster → ℕ → State → Option Error × State
  engage_stored key cl ctx p =
      let (e, w) = h.engage ctx key cl p.world in
      let p' : State = record p { world = w } in
      elim e [
        | none ↦ (none, p')
        | some x ↦ (some (wrapped "failed to engage Cluster" x), remove_cluster key p')
      ]

  -- From the managed add-on on.
  unfoldable pub ensure_and_engage : String → Cluster → ℕ → State → Option Error × State
  ensure_and_engage key cl ctx p =
      let (e, w) = reconcile_managed_addons cl p.world in
      let p' : State = record p { world = w } in
      elim e [
        | some x ↦ (some (wrapped "failed to ensure managedaddon" x), p')
        | none ↦ engage_stored key cl ctx p'
      ]

  -- From context.WithCancel on.
  unfoldable pub start_cluster : String → Cluster → String → State → Option Error × State
  start_cluster key cl hash_str p =
      let ctx = p.contexts in
      let (synced, w) = h.wait_for_cache_sync cl ctx (h.start cl ctx p.world) in
      if not synced
      then (
        some (other "failed to sync cache for Cluster"),
        record p { contexts = suc ctx; cancelled = ctx ∷ p.cancelled; world = w },
      )
      else ensure_and_engage key cl ctx
          (store key cl ctx hash_str (record p { contexts = suc ctx; world = w }))

  unfoldable pub create_and_engage_cluster :
      String → ManagedControlPlane → Config → String → State → Option Error × State
  create_and_engage_cluster key mcp cfg hash_str p =
      let (created, w) = h.new_cluster mcp cfg p.world in
      elim created [
        | err e ↦ (some (wrapped "failed to create cluster" e), record p { world = w })
        | ok cl ↦
            let (e, w') = apply_indexers cl p.indexers w in
            let p' : State = record p { world = w' } in
            elim e [ some x ↦ (some x, p') | none ↦ start_cluster key cl hash_str p' ]
      ]

  -- From clientcmd.RESTConfigFromKubeConfig on. A panic is what controller-runtime makes of it, an error.
  unfoldable pub engage_new : String → ManagedControlPlane → Bytes → State → Reply × State
  engage_new key mcp kubeconfig_data p = elim (h.rest_config kubeconfig_data) [
    | err e ↦ ((done, some (wrapped "failed to parse kubeconfig" e)), p)
    | ok cfg ↦ elim (h.server_version cfg p.world) [
      | dies e ↦ ((done, some (wrapped "panic" e)), p)
      | unreachable e ↦ ((requeue_soon, none), p)
      | answered ↦
          let (e, p') =
            create_and_engage_cluster key mcp cfg (h.hash_kubeconfig kubeconfig_data) p in
          ((done, e), p')
    ]
  ]

  -- From the hash of the kubeconfig on.
  unfoldable pub refresh : String → ManagedControlPlane → Bytes → State → Reply × State
  refresh key mcp kubeconfig_data p = elim (lookup key p.clusters) [
    | none ↦ engage_new key mcp kubeconfig_data p
    | some ac ↦
        if str_eq ac.hash (h.hash_kubeconfig kubeconfig_data)
        then ((done, none), p)
        else engage_new key mcp kubeconfig_data (remove_cluster key p)
  ]

  unfoldable pub reconcile_found : String → ManagedControlPlane → State → Reply × State
  reconcile_found key mcp p =
      if is_some mcp.meta.deletion_timestamp
      then ((done, none), remove_cluster key p)
      else if not (h.is_ready mcp)
      then ((requeue_soon, none), p)
      else elim (h.get_secret mcp p.world) [
        | err e ↦ ((done, some (wrapped "failed to get kubeconfig" e)), p)
        | ok kubeconfig_data ↦ refresh key mcp kubeconfig_data p
      ]

  unfoldable pub reconcile : Key → State → Reply × State
  reconcile req p = elim (h.get_control_plane req p.world) [
    | err e ↦
        if h.is_not_found e
        then ((done, none), remove_cluster (cluster_name req) p)
        else ((done, some (wrapped "failed to get Cluster" e)), p)
    | ok mcp ↦ reconcile_found (cluster_name req) mcp p
  ]
