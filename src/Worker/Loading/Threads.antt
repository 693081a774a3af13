-- ===== src/Worker/Loading/Threads.antt =====
-- What holds of a worker whatever its handlers and threads do, and in whatever order.
use mathlib.Core.List.{map-append}
use pi_ssm.Base.{
  ℕ, ◌≤◌, String, Bool, true, false, Option, none, some, List, [], ◌∷◌, ◌++◌, ◌==◌, contains, map,
  ◌≡◌, refl, ap, sym, subst, ◌∙◌, arith, eq_iff, false≢true, Bool-cases, inl, inr,
}
use pi_ssm.Base.Dict
use pi_ssm.Base.Dict.{get-put, get-remove}
use pi_ssm.Base.Result.{Result, ok, raise}
use pi_ssm.Tensors.{Torch, TensorFault, deserialize_tensor}
use pi_ssm.Shard.{ShardModule}
use pi_ssm.Worker.{ModelHandle, Worker, new_worker}
use pi_ssm.Worker.Running.{
  RunShardRequest, Measure, run_handle, run_input, run_found, start_run_shard,
}
use pi_ssm.Worker.Loading.Names.{IsDistinct, IsDistinct-snoc, contains-append, discard_lem}
use pi_ssm.Worker.Loading.{
  LoadShardRequest, ShardReadyRequest, Node, idle, discard, load_shard, load_shard_background,
  load_shard_from_metadata, store_handle, unload_shard, start_loading, load_by, load_if,
}

module _ {Tensor Cache : Type 0} (torch : Torch Tensor) where
  -- One step of a handler or of a thread.
  pub data Step : Node Tensor Cache → Node Tensor Cache → Type 0 where
    load :
        (n : Node Tensor Cache) (request : LoadShardRequest)
        → request.layer_start ≤ request.layer_end
        → Step n (load_shard n request).0
    built :
        (n : Node Tensor Cache) (before : List LoadShardRequest) (request : LoadShardRequest)
        (after : List LoadShardRequest) (now : ℕ)
        (result : Result String (ShardModule Tensor Cache × ℕ))
        → n.running ≡ before ++ request ∷ after
        → Step n (load_shard_background n before request after now result)
    reported :
        (n : Node Tensor Cache) (before : List (String × ShardReadyRequest))
        (report : String × ShardReadyRequest) (after : List (String × ShardReadyRequest))
        → n.reports ≡ before ++ report ∷ after
        → Step n (record n { reports = before ++ after })
    unload :
        (n : Node Tensor Cache) (name : String)
        → Step n (record n { worker = (unload_shard n.worker name).0 })
    run :
        (n : Node Tensor Cache) (request : RunShardRequest) (measure : Measure)
        → Step n (record n { worker = (start_run_shard torch n.worker request measure).0 })

  -- What a worker that starts with nothing loaded can come to.
  pub data IsReachable : Node Tensor Cache → Type 0 where
    start : (node_id : String) → IsReachable (idle (new_worker node_id))
    next : {n m : Node Tensor Cache} → IsReachable n → Step n m → IsReachable m

module _ {Tensor Cache : Type 0} where
  -- The loading set holds the names of the running threads, no two of which load the same model, and
  -- no model is loaded while it is being loaded.
  pub record IsConsistent (n : Node Tensor Cache) : Type 0 where
    pub names : n.worker.loading ≡ map (λ r. r.model_name) n.running
    pub distinct : IsDistinct n.worker.loading
    pub apart :
        (k : String) → contains k n.worker.loading ≡ true → Dict.get n.worker.models k ≡ none

  start_loading_lem :
      (n : Node Tensor Cache) (request : LoadShardRequest)
      → Dict.get n.worker.models request.model_name ≡ none
      → contains request.model_name n.worker.loading ≡ false
      → IsConsistent n
      → IsConsistent (start_loading n request)
  start_loading_lem n request missing idle_name h =
      let k = request.model_name in
      rw idle_name (record {
        names =
            ap (λ (listed : List String). listed ++ k ∷ []) h.names
            ∙ sym (map-append (λ (r : LoadShardRequest). r.model_name) n.running (request ∷ []));
        distinct = IsDistinct-snoc k n.worker.loading idle_name h.distinct;
        apart = λ j listed.
            ground (arith, contains-append j n.worker.loading (k ∷ []), eq_iff k j, h.apart j);
      })

  -- The loading set without the name of a thread that ends.
  pub ended_lem :
      (n : Node Tensor Cache) (before : List LoadShardRequest) (request : LoadShardRequest)
      (after : List LoadShardRequest)
      → n.running ≡ before ++ request ∷ after
      → IsConsistent n
      → (discard n.worker.loading request.model_name ≡ map (λ r. r.model_name) (before ++ after))
        × IsDistinct (discard n.worker.loading request.model_name)
        × (contains request.model_name (discard n.worker.loading request.model_name) ≡ false)
        × ((j : String)
            → contains j (discard n.worker.loading request.model_name) ≡ true
            → contains j n.worker.loading ≡ true)
  ended_lem n before request after e h =
      let name : LoadShardRequest → String = λ r. r.model_name in
      let k = request.model_name in
      let bs = map name before in
      let zs = map name after in
      let all : n.worker.loading ≡ bs ++ k ∷ zs =
        h.names ∙ ap (map name) e ∙ map-append name before (request ∷ after) in
      let (distinct, gone, same) = discard_lem k bs zs (subst IsDistinct all h.distinct) in
      let left : discard n.worker.loading k ≡ bs ++ zs =
        ap (λ (names : List String). discard names k) all ∙ same in
      (
        left ∙ sym (map-append name before after),
        subst IsDistinct (sym left) distinct,
        ap (contains k) left ∙ gone,
        λ j listed.
            ap (contains j) all
            ∙ ground (
              arith,
              contains-append j bs zs,
              contains-append j bs (k ∷ zs),
              sym (ap (contains j) left) ∙ listed,
            ),
      )

  IsConsistent-store_handle :
      (n : Node Tensor Cache) (before : List LoadShardRequest) (request : LoadShardRequest)
      (after : List LoadShardRequest) (result : Result String (ModelHandle Tensor Cache))
      (reports : List (String × ShardReadyRequest))
      → n.running ≡ before ++ request ∷ after
      → IsConsistent n
      → IsConsistent (record {
        worker = (store_handle n.worker request result).0;
        running = before ++ after;
        reports = reports;
      })
  IsConsistent-store_handle n before request after (raise error) reports e h =
      let (names, distinct, gone, kept) = ended_lem n before request after e h in
      record { names = names; distinct = distinct; apart = λ j listed. h.apart j (kept j listed) }
  IsConsistent-store_handle n before request after (ok handle) reports e h =
      let (names, distinct, gone, kept) = ended_lem n before request after e h in
      record {
        names = names;
        distinct = distinct;
        apart = λ j listed.
            get-put n.worker.models request.model_name j handle
            ∙ elim (Bool-cases (request.model_name == j)) [
              | inl same ↦ absurd (
                  false≢true (
                    sym gone
                    ∙ ap (λ (i : String). contains i (discard n.worker.loading request.model_name))
                        ((eq_iff request.model_name j).0 same)
                    ∙ listed))
              | inr other ↦ rw other (h.apart j (kept j listed))
            ];
      }

  get-remove_none :
      (w : Worker Tensor Cache) (name j : String)
      → Dict.get w.models j ≡ none
      → Dict.get (unload_shard w name).0.models j ≡ none
  unfolding unload_shard
  get-remove_none w name j h = ground (arith, get-remove w.models name j)

module _ {Tensor Cache : Type 0} (torch : Torch Tensor) where
  run_input_lem :
      (w : Worker Tensor Cache) (handle : ModelHandle Tensor Cache) (request : RunShardRequest)
      (m : Measure) (x : Result TensorFault Tensor) (j : String)
      → Dict.get w.models request.model_name ≡ some handle
      → Dict.get w.models j ≡ none
      → ((run_input torch w handle request m x).0.loading ≡ w.loading)
        × (Dict.get (run_input torch w handle request m x).0.models j ≡ none)
  run_input_lem w handle request m (raise fault) j found h = (refl, h)
  run_input_lem w handle request m (ok x) j found h = (
    refl,
    ground (
      arith,
      get-put w.models request.model_name j (run_handle torch handle request m x).0,
      eq_iff request.model_name j,
    ),
  )

  -- `RunShard` neither adds a model nor changes what is being loaded.
  run_found_lem :
      (w : Worker Tensor Cache) (request : RunShardRequest) (m : Measure)
      (found : Option (ModelHandle Tensor Cache)) (j : String)
      → Dict.get w.models request.model_name ≡ found
      → Dict.get w.models j ≡ none
      → ((run_found torch w request m found).0.loading ≡ w.loading)
        × (Dict.get (run_found torch w request m found).0.models j ≡ none)
  run_found_lem w request m none j found h = (refl, h)
  run_found_lem w request m (some handle) j found h =
      run_input_lem w handle request m (deserialize_tensor torch request.input_tensor) j found h

  loading-run_input :
      (w : Worker Tensor Cache) (handle : ModelHandle Tensor Cache) (request : RunShardRequest)
      (m : Measure) (x : Result TensorFault Tensor)
      → (run_input torch w handle request m x).0.loading ≡ w.loading
  loading-run_input w handle request m (raise fault) = refl
  loading-run_input w handle request m (ok x) = refl

  loading-run_found :
      (w : Worker Tensor Cache) (request : RunShardRequest) (m : Measure)
      (found : Option (ModelHandle Tensor Cache))
      → (run_found torch w request m found).0.loading ≡ w.loading
  loading-run_found w request m none = refl
  loading-run_found w request m (some handle) = loading-run_input w handle request m _

  IsConsistent-load_by :
      (n : Node Tensor Cache) (request : LoadShardRequest)
      (found : Option (ModelHandle Tensor Cache))
      → Dict.get n.worker.models request.model_name ≡ found
      → IsConsistent n
      → IsConsistent (load_by n request found).0
  IsConsistent-load_by n request (some handle) e h = record {
    names = h.names;
    distinct = h.distinct;
    apart = h.apart;
  }
  IsConsistent-load_by n request none e h =
      elim (Bool-cases (contains request.model_name n.worker.loading)) [
        | inl busy ↦ rw busy h
        | inr free ↦
            subst (λ (b : Bool). IsConsistent (load_if n request b).0) (sym free)
              (start_loading_lem n request e free h)
      ]

  IsConsistent-Step : {n m : Node Tensor Cache} → Step torch n m → IsConsistent n → IsConsistent m
  unfolding load_shard load_shard_background start_run_shard unload_shard
  IsConsistent-Step (load n request le) h =
      IsConsistent-load_by n request (Dict.get n.worker.models request.model_name) refl h
  IsConsistent-Step (built n before request after now result e) h =
      IsConsistent-store_handle n before request after (load_shard_from_metadata request now result)
        _ e h
  IsConsistent-Step (reported n before report after e) h = record {
    names = h.names;
    distinct = h.distinct;
    apart = h.apart;
  }
  IsConsistent-Step (unload n name) h = record {
    names = h.names;
    distinct = h.distinct;
    apart = λ j listed. get-remove_none n.worker name j (h.apart j listed);
  }
  IsConsistent-Step (run n request measure) h =
      let found = Dict.get n.worker.models request.model_name in
      let same = loading-run_found n.worker request measure found in
      record {
        names = same ∙ h.names;
        distinct = subst IsDistinct (sym same) h.distinct;
        apart = λ j listed.
            (run_found_lem n.worker request measure found j refl
              (h.apart j (sym (ap (contains j) same) ∙ listed))).1;
      }

  -- Whatever requests a worker gets and in whatever order its threads end: the loading set holds the
  -- names of the models whose threads are running, no two threads load the same model, and a model
  -- that is being loaded is not loaded.
  pub IsConsistent-IsReachable : {n : Node Tensor Cache} → IsReachable torch n → IsConsistent n
  unfolding Dict.get
  IsConsistent-IsReachable (start node_id) = record {
    names = refl;
    distinct = tt;
    apart = λ k listed. refl;
  }
  IsConsistent-IsReachable (next reached step) =
      IsConsistent-Step step (IsConsistent-IsReachable reached)
