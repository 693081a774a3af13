-- ===== src/Pipeline/Loading/Deployed.antt =====
-- A load of a plan on fresh workers: it returns, and leaves the chain of workers that the passes need.
use pi_ssm.Base.{
  ℕ, String, Bool, true, Option, some, none, List, [], ◌∷◌, ◌≡◌, refl, ap, sym, ◌∙◌, subst, arith,
  ◌==◌, contains, map, eqb,
}
use pi_ssm.Base.Decimal.{address-ne}
use pi_ssm.Base.Dict
use pi_ssm.Base.Dict.{Dict, get-put_self}
use pi_ssm.Base.Entries.{put_all, AreApart, Stands, Stands-put_all}
use pi_ssm.Base.Result.{Result, ok}
use pi_ssm.Dispatch.{DispatchPlan}
use pi_ssm.Dispatch.Ranges.{Tiles}
use pi_ssm.Dispatch.Plan.{layer_range, entry, Linked, Flagged}
use pi_ssm.ModelStore.{ModelStore}
use pi_ssm.Results.{ResultStore}
use pi_ssm.Shard.{ShardModule, Mamba}
use pi_ssm.Shard.Ranges.{shard_of}
use pi_ssm.Worker.{Worker}
use pi_ssm.Worker.Loading.{Node, idle}
use pi_ssm.Worker.Loading.Names.{IsDistinct}
use pi_ssm.Cluster.{Network}
use pi_ssm.Cluster.Seats.{Seat, addresses, seat_entry, IsSeated, IsPlaced}
use pi_ssm.Cluster.Shards.{depth, IsDeployed}
use pi_ssm.Pipeline.Loading.{
  ShardReadyResult, Nodes, Loading, worker_address, create_slots, ready_result,
  report_shard_ready_rpc, LoadEnd, dispatch_loop, collect_loop, load,
}
use pi_ssm.Pipeline.Loading.Threads.{end_threads}
use pi_ssm.Pipeline.Loading.Collected.{
  Crew, fills, deliver_each, AllOpen-create_slots, AllFilled-deliver_each, AllSucceeded,
  collect_loop_lem, AreApart-fills,
}
use pi_ssm.Pipeline.Loading.Dispatched.{
  Post, handle_for, started, loaded_worker, report_for, entries_of, assignments_of, AllFresh,
  AreApart-entries, dispatch_loop_lem, report_all, AllBuilt, end_threads_lem,
}

module _ {Tensor Cache : Type 0} where
  -- The workers without their threads.
  abbrev pub workers_of : Nodes Tensor Cache → Network Tensor Cache
  workers_of = map (λ e. (e.0, e.1.worker))

  abbrev worker_if : Option (Node Tensor Cache) → Option (Worker Tensor Cache)
  worker_if none = none
  worker_if (some n) = some n.worker

  get-workers_of :
      (nodes : Nodes Tensor Cache) (k : String)
      → Dict.get (workers_of nodes) k ≡ worker_if (Dict.get nodes k)
  unfolding Dict.get
  get-workers_of [] k = refl
  get-workers_of ((j, m) ∷ nodes) k = ground (arith, get-workers_of nodes k)

module _ {Tensor Cache : Type 0} (model_store : ModelStore) (plan : DispatchPlan)
    (callback : String) (now : ℕ) where
  abbrev pub seat_of : Post Tensor Cache → Seat Tensor Cache
  seat_of p = record {
    address = worker_address p.a;
    worker = loaded_worker model_store plan callback now p;
    handle = handle_for model_store plan callback now p;
  }

  abbrev pub seats_of : List (Post Tensor Cache) → List (Seat Tensor Cache)
  seats_of = map seat_of

  -- The results that the workers report.
  abbrev pub crew_of : List (Post Tensor Cache) → Crew
  crew_of = map (λ p. (p.a, ready_result (report_for model_store plan callback now p).1))

  -- The workers hold their new handles, each forwards to the next one, and their addresses are
  -- distinct and not empty.
  pub IsSeated-seats_of :
      (posts : List (Post Tensor Cache))
      → AreApart (entries_of (λ p. idle p.worker) posts)
      → Linked (assignments_of posts)
      → IsSeated plan.model_name (seats_of posts)
  IsSeated-seats_of [] apart linked = tt
  IsSeated-seats_of (p ∷ posts) apart linked = (
    get-put_self p.worker.models plan.model_name (handle_for model_store plan callback now p),
    linked.0 ∙ entry_lem posts,
    address-ne p.a.ip_address p.a.inference_port,
    ap (contains (worker_address p.a)) (keys_lem posts) ∙ apart.0,
    IsSeated-seats_of posts apart.1 linked.1,
  )
    where
      entry_lem :
          (rest : List (Post Tensor Cache))
          → entry (assignments_of rest) ≡ seat_entry (seats_of rest)
      entry_lem [] = refl
      entry_lem (q ∷ rest) = refl

      keys_lem :
          (rest : List (Post Tensor Cache))
          → addresses (seats_of rest) ≡ map (λ e. e.0) (entries_of (λ q. idle q.worker) rest)
      keys_lem [] = refl
      keys_lem (q ∷ rest) = ap (◌∷◌ (worker_address q.a)) (keys_lem rest)

  pub IsPlaced-seats_of :
      (posts : List (Post Tensor Cache)) (nodes : Nodes Tensor Cache)
      → Stands nodes (entries_of (λ p. idle (loaded_worker model_store plan callback now p)) posts)
      → IsPlaced (workers_of nodes) (seats_of posts)
  IsPlaced-seats_of [] nodes stands = tt
  IsPlaced-seats_of (p ∷ posts) nodes stands = (
    get-workers_of nodes (worker_address p.a) ∙ ap worker_if stands.0,
    IsPlaced-seats_of posts nodes stands.1,
  )

  module _ (model : Mamba Tensor Cache) where
    -- Each worker builds the shard of its range, as `from_model` would of the whole model.
    abbrev pub AllShards : List (Post Tensor Cache) → Type 0
    AllShards [] = Unit
    AllShards (p ∷ posts) =
        (p.shard ≡ shard_of model p.a.layer_start p.a.layer_end p.a.is_first p.a.is_last)
        × AllShards posts

    shard_of_flags :
        (s a e : ℕ) (first last : Bool)
        → s ≡ a
        → first ≡ eqb s 0
        → last ≡ eqb e (depth model)
        → shard_of model s e first last ≡ shard_of model a e (eqb a 0) (eqb e (depth model))
    shard_of_flags s a e first last at_a f l =
        ap (λ (b : Bool). shard_of model s e b last) f
        ∙ ap (λ (b : Bool). shard_of model s e (eqb s 0) b) l
        ∙ ap (λ (n : ℕ). shard_of model n e (eqb n 0) (eqb e (depth model))) at_a

    pub IsDeployed-seats_of :
        (a : ℕ) (posts : List (Post Tensor Cache))
        → Tiles a (depth model) (map layer_range (assignments_of posts))
        → Flagged (depth model) (assignments_of posts)
        → AllShards posts
        → IsDeployed model a (seats_of posts)
    IsDeployed-seats_of a [] tiles flags shards = tiles
    IsDeployed-seats_of a (p ∷ posts) tiles flags shards = (
      tiles.0,
      omega (arith, tiles.0, tiles.1),
      shards.0
          ∙ shard_of_flags p.a.layer_start a p.a.layer_end p.a.is_first p.a.is_last tiles.0
              flags.0.0 flags.0.1,
      IsDeployed-seats_of p.a.layer_end posts tiles.2 flags.1 shards.1,
    )

  -- The reports go to the slots of the assignments.
  report_all_lem :
      (posts : List (Post Tensor Cache)) (store : ResultStore ShardReadyResult)
      → AllFresh model_store plan callback now posts
      → report_all model_store plan callback now store posts
        ≡ deliver_each store (fills plan.model_name (crew_of posts))
  unfolding report_shard_ready_rpc
  report_all_lem [] store fresh = refl
  report_all_lem (p ∷ posts) store fresh = rw fresh.0.known (report_all_lem posts _ fresh.1)

  crew_lem :
      (posts : List (Post Tensor Cache)) → map (λ c. c.0) (crew_of posts) ≡ assignments_of posts
  crew_lem [] = refl
  crew_lem (p ∷ posts) = ap (◌∷◌ p.a) (crew_lem posts)

  crew_ids :
      (posts : List (Post Tensor Cache))
      → map (λ c. c.0.node_id) (crew_of posts) ≡ map (λ p. p.a.node_id) posts
  crew_ids [] = refl
  crew_ids (p ∷ posts) = ap (◌∷◌ p.a.node_id) (crew_ids posts)

  AllSucceeded-crew_of : (posts : List (Post Tensor Cache)) → AllSucceeded (crew_of posts)
  AllSucceeded-crew_of [] = tt
  AllSucceeded-crew_of (p ∷ posts) = (refl, AllSucceeded-crew_of posts)

  module _ (built : String → Result String (ShardModule Tensor Cache × ℕ)) where
    -- The workers of the plan before a load: at distinct addresses and with distinct ids, each on the
    -- network, fresh, and with a thread that will build its shard.
    pub record IsPrepared (posts : List (Post Tensor Cache)) (nodes : Nodes Tensor Cache)
        : Type 0 where
      pub assigned : plan.assignments ≡ assignments_of posts
      pub apart : AreApart (entries_of (λ p. idle p.worker) posts)
      pub distinct : IsDistinct (map (λ p. p.a.node_id) posts)
      pub stands : Stands nodes (entries_of (λ p. idle p.worker) posts)
      pub fresh : AllFresh model_store plan callback now posts
      pub builds : AllBuilt model_store plan callback now built posts
      pub mamba : (plan.arch == "mamba") ≡ true

    abbrev pub loaded_nodes : List (Post Tensor Cache) → Nodes Tensor Cache → Nodes Tensor Cache
    loaded_nodes posts nodes =
        put_all (put_all nodes (entries_of (started model_store plan callback now) posts))
          (entries_of (λ p. idle (loaded_worker model_store plan callback now p)) posts)

    collected_lem :
        (load_timeout_s : Option ℕ) (posts : List (Post Tensor Cache))
        (store : ResultStore ShardReadyResult)
        → AllFresh model_store plan callback now posts
        → IsDistinct (map (λ p. p.a.node_id) posts)
        → (collect_loop load_timeout_s plan.model_name (assignments_of posts) (
            report_all model_store plan callback now
              (create_slots store plan.model_name (assignments_of posts))
              posts)).1
          ≡ some (ok tt)
    collected_lem load_timeout_s posts store fresh distinct =
        let name = plan.model_name in
        let crew = crew_of posts in
        let apart = AreApart-fills name crew (subst IsDistinct (sym (crew_ids posts)) distinct) in
        rw
          (
            ← crew_lem posts,
            report_all_lem posts (create_slots store name (map (λ c. c.0) crew)) fresh,
          )
          (collect_loop_lem load_timeout_s
            (deliver_each (create_slots store name (map (λ c. c.0) crew)) (fills name crew)) name
            crew apart
            (AllFilled-deliver_each (create_slots store name (map (λ c. c.0) crew))
              (fills name crew) apart (AllOpen-create_slots store name crew apart))
            (AllSucceeded-crew_of posts))

    -- A load of prepared workers, whose threads and waits end in the order of the plan, returns.
    pub load_lem :
        (load_timeout_s : Option ℕ) (p : Post Tensor Cache) (rest : List (Post Tensor Cache))
        (nodes : Nodes Tensor Cache) (store : ResultStore ShardReadyResult)
        → IsPrepared (p ∷ rest) nodes
        → (c : Loading Tensor Cache) × (load load_timeout_s model_store plan callback
              plan.assignments
              (end_threads built now plan.assignments)
              (record { nodes = nodes; store = store })
            ≡ (c, some (ok tt)))
          × (c.nodes ≡ loaded_nodes (p ∷ rest) nodes)
    unfolding load dispatch_loop Dict.put collect_loop
    load_lem load_timeout_s p rest nodes store h =
        let posts = p ∷ rest in
        let begun = started model_store plan callback now in
        let apart =
          AreApart-entries model_store plan callback now (λ q. idle q.worker) begun posts h.apart in
        let slots = create_slots store plan.model_name (assignments_of posts) in
        let began = put_all nodes (entries_of begun posts) in
        let ended =
          (collect_loop load_timeout_s plan.model_name (assignments_of posts)
            (report_all model_store plan callback now slots posts)).0 in
        (
          record { nodes = loaded_nodes posts nodes; store = ended },
          rw
              (
                h.assigned,
                dispatch_loop_lem model_store plan callback now posts nodes h.apart h.stands
                    h.fresh,
                end_threads_lem model_store plan callback now built posts began slots h.mamba apart
                    (Stands-put_all nodes (entries_of begun posts) apart) h.builds,
              )
              (ap (λ (r : LoadEnd). (record { nodes = loaded_nodes posts nodes; store = ended }, r))
                (collected_lem load_timeout_s posts store h.fresh h.distinct)),
          refl,
        )
