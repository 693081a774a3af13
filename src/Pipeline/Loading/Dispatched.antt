-- ===== src/Pipeline/Loading/Dispatched.antt =====
-- The workers of a plan through a load: dispatched, then loaded by their threads.
use pi_ssm.Base.{
  ℕ, ◌-◌, String, true, Option, some, none, List, [], ◌∷◌, ◌≡◌, refl, ap, ◌∙◌, ◌==◌, eq_refl,
  contains, map,
}
use pi_ssm.Base.Dict
use pi_ssm.Base.Dict.{Dict}
use pi_ssm.Base.Entries.{put_all, AreApart, Stands, Stands-put}
use pi_ssm.Base.Result.{Result, ok}
use pi_ssm.Dispatch.{ShardAssignment, DispatchPlan}
use pi_ssm.ModelStore.{ModelStore, extract_shard}
use pi_ssm.Results.{ResultStore}
use pi_ssm.Shard.{ShardModule}
use pi_ssm.Shard.Locations.{TensorLocationSpec}
use pi_ssm.Worker.{ModelHandle, Worker}
use pi_ssm.Worker.Loading.{
  LoadShardRequest, ShardReadyRequest, Node, idle, accepted, load_shard, load_shard_background,
  load_shard_from_metadata, handle_of, report_of,
}
use pi_ssm.Pipeline.Loading.{
  ShardReadyResult, Nodes, worker_address, load_request, dispatch_loop, report_shard_ready_rpc,
}
use pi_ssm.Pipeline.Loading.Threads.{end_threads, end_at}

-- A worker of a plan: its assignment, its state before the load, the metadata that the model store
-- extracts for it, and the shard that it builds, with its size.
pub record Post (Tensor Cache : Type 0) : Type 0 where
  pub a : ShardAssignment
  pub worker : Worker Tensor Cache
  pub metadata : List TensorLocationSpec × Option String
  pub shard : ShardModule Tensor Cache
  pub memory_mb : ℕ

module _ {Tensor Cache : Type 0} where
  abbrev pub entries_of :
      (Post Tensor Cache → Node Tensor Cache) → List (Post Tensor Cache) → Nodes Tensor Cache
  entries_of node = map (λ p. (worker_address p.a, node p))

  abbrev pub assignments_of : List (Post Tensor Cache) → List ShardAssignment
  assignments_of = map (λ p. p.a)

module _ {Tensor Cache : Type 0} (model_store : ModelStore) (plan : DispatchPlan)
    (callback : String) (now : ℕ) where
  abbrev pub request_of : Post Tensor Cache → LoadShardRequest
  request_of p = load_request plan callback p.a p.metadata

  abbrev pub handle_for : Post Tensor Cache → ModelHandle Tensor Cache
  handle_for p = handle_of (request_of p) now (p.shard, p.memory_mb)

  abbrev pub started : Post Tensor Cache → Node Tensor Cache
  started p = record {
    worker = record p.worker { loading = plan.model_name ∷ [] };
    running = request_of p ∷ [];
    reports = [];
  }

  abbrev pub loaded_worker : Post Tensor Cache → Worker Tensor Cache
  loaded_worker p = record p.worker {
    models = Dict.put p.worker.models plan.model_name (handle_for p);
    loading = [];
  }

  abbrev pub report_for : Post Tensor Cache → String × ShardReadyRequest
  report_for p =
      report_of p.worker.node_id (request_of p) true "" p.memory_mb
        (p.a.layer_end - p.a.layer_start)

  -- The worker has not loaded the model and is loading nothing, and its metadata is there.
  pub record IsFresh (p : Post Tensor Cache) : Type 0 where
    pub quiet : p.worker.loading ≡ []
    pub missing : Dict.get p.worker.models plan.model_name ≡ none
    pub known : p.worker.node_id ≡ p.a.node_id
    pub extracted :
        extract_shard model_store plan.arch p.a.layer_start p.a.layer_end p.a.is_first p.a.is_last
        ≡ ok p.metadata

  abbrev pub AllFresh : List (Post Tensor Cache) → Type 0
  AllFresh [] = Unit
  AllFresh (p ∷ posts) = IsFresh p × AllFresh posts

  load_shard_lem :
      (p : Post Tensor Cache)
      → IsFresh p
      → load_shard (idle p.worker) (request_of p) ≡ (started p, accepted)
  unfolding load_shard
  load_shard_lem p h = rw (h.missing, h.quiet) refl

  same_keys :
      (f g : Post Tensor Cache → Node Tensor Cache) (posts : List (Post Tensor Cache))
      → map (λ e. e.0) (entries_of f posts) ≡ map (λ e. e.0) (entries_of g posts)
  same_keys f g [] = refl
  same_keys f g (p ∷ posts) = ap (◌∷◌ (worker_address p.a)) (same_keys f g posts)

  pub AreApart-entries :
      (f g : Post Tensor Cache → Node Tensor Cache) (posts : List (Post Tensor Cache))
      → AreApart (entries_of f posts)
      → AreApart (entries_of g posts)
  AreApart-entries f g [] h = tt
  AreApart-entries f g (p ∷ posts) h = (
    ap (contains (worker_address p.a)) (same_keys g f posts) ∙ h.0,
    AreApart-entries f g posts h.1,
  )

  -- The dispatch of a plan to fresh workers is accepted by all, and starts a thread on each.
  pub dispatch_loop_lem :
      (posts : List (Post Tensor Cache)) (nodes : Nodes Tensor Cache)
      → AreApart (entries_of (λ p. idle p.worker) posts)
      → Stands nodes (entries_of (λ p. idle p.worker) posts)
      → AllFresh posts
      → dispatch_loop model_store plan callback (assignments_of posts) nodes
        ≡ (put_all nodes (entries_of started posts), ok tt)
  unfolding dispatch_loop
  dispatch_loop_lem [] nodes apart stands fresh = refl
  dispatch_loop_lem (p ∷ posts) nodes apart stands fresh =
      rw (fresh.0.extracted, stands.0, load_shard_lem p fresh.0)
        (dispatch_loop_lem posts (Dict.put nodes (worker_address p.a) (started p)) apart.1
          (Stands-put nodes (entries_of (λ q. idle q.worker) posts) (worker_address p.a) (started p)
            apart.0 stands.1)
          fresh.1)

  -- The store with all reports delivered.
  abbrev pub report_all :
      ResultStore ShardReadyResult → List (Post Tensor Cache) → ResultStore ShardReadyResult
  report_all store [] = store
  report_all store (p ∷ posts) = report_all (report_shard_ready_rpc store (report_for p).1) posts

  background_lem :
      (p : Post Tensor Cache)
      → (plan.arch == "mamba") ≡ true
      → load_shard_background (started p) [] (request_of p) [] now (ok (p.shard, p.memory_mb))
        ≡ record { worker = loaded_worker p; running = []; reports = report_for p ∷ [] }
  unfolding load_shard_background load_shard_from_metadata
  background_lem p mamba = rw (mamba, eq_refl) refl

  end_at_lem :
      (p : Post Tensor Cache) (nodes : Nodes Tensor Cache) (store : ResultStore ShardReadyResult)
      → (plan.arch == "mamba") ≡ true
      → Dict.get nodes (worker_address p.a) ≡ some (started p)
      → (result : Result String (ShardModule Tensor Cache × ℕ)) → result ≡ ok (p.shard, p.memory_mb)
      → end_at
          (record { nodes = nodes; store = store })
          (worker_address p.a)
          now
          result
          (Dict.get nodes (worker_address p.a))
        ≡ record {
          nodes = Dict.put nodes (worker_address p.a) (idle (loaded_worker p));
          store = report_shard_ready_rpc store (report_for p).1;
        }
  end_at_lem p nodes store mamba stands result builds =
      rw (stands, builds, background_lem p mamba) refl

  module _ (built : String → Result String (ShardModule Tensor Cache × ℕ)) where
    -- What the workers build.
    abbrev pub AllBuilt : List (Post Tensor Cache) → Type 0
    AllBuilt [] = Unit
    AllBuilt (p ∷ posts) = (built (worker_address p.a) ≡ ok (p.shard, p.memory_mb)) × AllBuilt posts

    pub end_threads_lem :
        (posts : List (Post Tensor Cache)) (nodes : Nodes Tensor Cache)
        (store : ResultStore ShardReadyResult)
        → (plan.arch == "mamba") ≡ true
        → AreApart (entries_of started posts)
        → Stands nodes (entries_of started posts)
        → AllBuilt posts
        → end_threads built now (assignments_of posts) (record { nodes = nodes; store = store })
          ≡ record {
            nodes = put_all nodes (entries_of (λ p. idle (loaded_worker p)) posts);
            store = report_all store posts;
          }
    unfolding end_threads
    end_threads_lem [] nodes store mamba apart stands builds = refl
    end_threads_lem (p ∷ posts) nodes store mamba apart stands builds =
        let m = idle (loaded_worker p) in
        let where_at = worker_address p.a in
        ap (end_threads built now (assignments_of posts))
          (end_at_lem p nodes store mamba stands.0 (built where_at) builds.0)
        ∙ end_threads_lem posts (Dict.put nodes where_at m)
            (report_shard_ready_rpc store (report_for p).1) mamba apart.1
            (Stands-put nodes (entries_of started posts) where_at m apart.0 stands.1) builds.1
