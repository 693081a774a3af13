-- ===== src/Worker/Loading/Answers.antt =====
-- What `LoadShard` answers, and what it and its thread leave.
use pi_ssm.Base.{
  ℕ, ◌+◌, ◌-◌, String, Bool, true, false, not, Option, none, some, [], ◌∷◌, ◌++◌, ◌==◌,
  if◌then◌else◌, contains, map, length, length-append, append-nil, ◌≡◌, refl, ap, sym, ◌∙◌, arith,
  Bool-cases, inl, inr,
}
use pi_ssm.Base.Dict
use pi_ssm.Base.Dict.{get-put_self}
use pi_ssm.Base.Result.{ok}
use pi_ssm.Tensors.{Torch}
use pi_ssm.Shard.{ShardModule}
use pi_ssm.Worker.{ModelHandle}
use pi_ssm.Worker.Loading.{
  LoadShardRequest, LoadShardResponse, Node, load_shard, load_by, load_if, load_shard_background,
  load_shard_from_metadata, handle_of, report_of,
}
use pi_ssm.Worker.Loading.Names.{discard-add}
use pi_ssm.Worker.Loading.Threads.{IsReachable, IsConsistent, IsConsistent-IsReachable}

module _ {Tensor Cache : Type 0} where
  -- The loads that a worker has accepted and not yet reported.
  abbrev pub pending : Node Tensor Cache → ℕ
  pending n = length n.running + length n.reports

  abbrev pub is_loading : Node Tensor Cache → String → Bool
  is_loading n name = contains name (map (λ r. r.model_name) n.running)

  abbrev pub Answer :
      Node Tensor Cache → LoadShardRequest → Node Tensor Cache × LoadShardResponse → Type 0
  Answer n request (after, response) =
      (response.success ≡ not (is_loading n request.model_name))
      × (pending after ≡ pending n + (if response.success then 1 else 0))
      × ((if response.success then n else after) ≡ n)

  load_if-Answer :
      (n : Node Tensor Cache) (request : LoadShardRequest) (busy : Bool)
      → is_loading n request.model_name ≡ busy
      → Answer n request (load_if n request busy)
  load_if-Answer n request true e = (rw e refl, omega arith, refl)
  load_if-Answer n request false e =
      (rw e refl, omega (arith, length-append n.running (request ∷ [])), refl)

  idle_lem :
      (n : Node Tensor Cache) (name : String) (handle : ModelHandle Tensor Cache)
      → Dict.get n.worker.models name ≡ some handle
      → IsConsistent n
      → is_loading n name ≡ false
  idle_lem n name handle e h = elim (Bool-cases (is_loading n name)) [
    | inl busy ↦ let missing = h.apart name (ap (contains name) h.names ∙ busy) in absurd (cc)
    | inr free ↦ free
  ]

  load_by-Answer :
      (n : Node Tensor Cache) (request : LoadShardRequest)
      (found : Option (ModelHandle Tensor Cache))
      → Dict.get n.worker.models request.model_name ≡ found
      → IsConsistent n
      → Answer n request (load_by n request found)
  load_by-Answer n request (some handle) e h = (
    rw (idle_lem n request.model_name handle e h) refl,
    omega (
      arith,
      length-append n.reports (
          report_of n.worker.node_id request true "" handle.memory_mb
            (request.layer_end - request.layer_start)
          ∷ []),
    ),
    refl,
  )
  load_by-Answer n request none e h =
      let same = ap (contains request.model_name) h.names in
      load_if-Answer n request (contains request.model_name n.worker.loading) (sym same)

-- On any worker that requests and threads can lead to, `LoadShard` refuses exactly the models that a
-- thread is loading; a refused request changes nothing, and an accepted one adds exactly one load or
-- report that is still to be reported.
pub load_shard-Answer :
    {Tensor Cache : Type 0} (torch : Torch Tensor) {n : Node Tensor Cache}
    → IsReachable torch n
    → (request : LoadShardRequest) → Answer n request (load_shard n request)
unfolding load_shard
load_shard-Answer torch {n} reached request =
    load_by-Answer n request (Dict.get n.worker.models request.model_name) refl
      (IsConsistent-IsReachable torch reached)

module _ {Tensor Cache : Type 0} where
  load_shard_free :
      (n : Node Tensor Cache) (request : LoadShardRequest)
      → Dict.get n.worker.models request.model_name ≡ none
      → contains request.model_name n.worker.loading ≡ false
      → (load_shard n request).0 ≡ record n {
        worker = record n.worker { loading = n.worker.loading ++ request.model_name ∷ [] };
        running = n.running ++ request ∷ [];
      }
  unfolding load_shard
  load_shard_free n request missing free = rw (missing, free) (rw free refl)

  load_shard_from_metadata_lem :
      (request : LoadShardRequest) (now : ℕ) (shard : ShardModule Tensor Cache) (memory_mb : ℕ)
      → (request.arch == "mamba") ≡ true
      → load_shard_from_metadata request now (ok (shard, memory_mb))
        ≡ ok (handle_of request now (shard, memory_mb))
  unfolding load_shard_from_metadata
  load_shard_from_metadata_lem request now shard memory_mb arch = rw arch

  -- For a model that is neither loaded nor being loaded on a worker that requests and threads can lead
  -- to, and the architecture `mamba`: `LoadShard` followed by a thread that builds the shard leaves the
  -- worker as it was, except that the model is loaded with the range and the next address of the
  -- request, and that one more report, of success, is to be sent to the request's callback address.
  pub load_shard_background-load_shard :
      (torch : Torch Tensor) {n : Node Tensor Cache}
      → IsReachable torch n
      → (request : LoadShardRequest) (now : ℕ) (shard : ShardModule Tensor Cache) (memory_mb : ℕ)
      → Dict.get n.worker.models request.model_name ≡ none
      → is_loading n request.model_name ≡ false
      → (request.arch == "mamba") ≡ true
      → load_shard_background
          (load_shard n request).0
          n.running
          request
          []
          now
          (ok (shard, memory_mb))
        ≡ record {
          worker = record n.worker {
            models =
                Dict.put n.worker.models request.model_name
                  (handle_of request now (shard, memory_mb));
          };
          running = n.running;
          reports =
              n.reports
              ++ report_of n.worker.node_id request true "" memory_mb
                  (request.layer_end - request.layer_start)
                ∷ [];
        }
  unfolding load_shard_background
  load_shard_background-load_shard torch {n} reached request now shard memory_mb missing free arch =
      let free_name =
        ap (contains request.model_name) (IsConsistent-IsReachable torch reached).names ∙ free in
      rw (
        load_shard_free n request missing free_name,
        load_shard_from_metadata_lem request now shard memory_mb arch,
        discard-add request.model_name n.worker.loading free_name,
        append-nil,
      )
