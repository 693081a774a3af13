-- ===== src/Api/Sessions.antt =====
-- `_build_session` and `_unload_session` of orchestrator/http_api.py: what a load thread builds for a
-- plan, and what the request that replaces a model frees on its workers. What the checkpoint's index,
-- the model's configuration and the tokenizer come to are arguments.
use pi_ssm.Base.{String, Option, none, some, List}
use pi_ssm.Base.Dict.{Dict}
use pi_ssm.Base.Result.{Result, ok, raise}
use pi_ssm.Dispatch.{DispatchPlan, ShardAssignment}
use pi_ssm.ModelStore
use pi_ssm.ModelStore.{ModelStore, new_model_store}
use pi_ssm.Cluster.{Network}
use pi_ssm.Pipeline.Loading.{Loading, LoadFault, LoadEnd, load}
use pi_ssm.Pipeline.Unload.{unload}

-- `decode` is that of the first row, without special tokens.
pub record Tokenizer (Tensor : Type 0) : Type 0 where
  pub encode : String → Tensor
  pub decode : Tensor → String

-- `_InferenceSession`, with its runner by the plan that it runs.
pub record InferenceSession (Tensor : Type 0) : Type 0 where
  pub plan : DispatchPlan
  pub model_store : ModelStore
  pub tokenizer : Tokenizer Tensor

pub data SessionFault (E : Type 0) : Type 0 where
  read_fault : E → SessionFault E
  load_fault : LoadFault → SessionFault E

abbrev pub tokenized :
    {E Tensor : Type 0}
    → DispatchPlan
    → ModelStore
    → Result E (Tokenizer Tensor)
    → Result (SessionFault E) (InferenceSession Tensor)
tokenized plan store (raise error) = raise (read_fault error)
tokenized plan store (ok tokenizer) =
    ok (record { plan = plan; model_store = store; tokenizer = tokenizer })

module _ {E Tensor Cache : Type 0} where
  abbrev pub with_shards :
      DispatchPlan
      → ModelStore
      → Result E (Tokenizer Tensor)
      → Loading Tensor Cache × LoadEnd
      → Loading Tensor Cache × Option (Result (SessionFault E) (InferenceSession Tensor))
  with_shards plan store tokenizer (c, none) = (c, none)
  with_shards plan store tokenizer (c, some (raise fault)) = (c, some (raise (load_fault fault)))
  with_shards plan store tokenizer (c, some (ok done)) =
      (c, some (tokenized plan (ModelStore.unload store) tokenizer))

  abbrev pub with_store :
      DispatchPlan
      → String
      → List ShardAssignment
      → (Loading Tensor Cache → Loading Tensor Cache)
      → Result E (Tokenizer Tensor)
      → Loading Tensor Cache
      → ModelStore × Result E (Unit {0})
      → Loading Tensor Cache × Option (Result (SessionFault E) (InferenceSession Tensor))
  with_store plan callback ending meanwhile tokenizer c (store, raise error) =
      (c, some (raise (read_fault error)))
  with_store plan callback ending meanwhile tokenizer c (store, ok done) =
      with_shards plan store tokenizer (load none store plan callback ending meanwhile c)

  -- `_build_session`, with the threads and the waits of its load as in Pipeline.Loading; the runner has
  -- no `load_timeout_s`, and `none` is a load that does not return.
  unfoldable pub build_session :
      DispatchPlan
      → String
      → List ShardAssignment
      → (Loading Tensor Cache → Loading Tensor Cache)
      → Result E (Dict String)
      → Result E String
      → Result E (Tokenizer Tensor)
      → Loading Tensor Cache
      → Loading Tensor Cache × Option (Result (SessionFault E) (InferenceSession Tensor))
  build_session plan callback ending meanwhile weight_map config tokenizer c =
      with_store plan callback ending meanwhile tokenizer c
        (ModelStore.load new_model_store weight_map config)

-- `_unload_session`, where a worker that is not reached is skipped.
unfoldable pub unload_session :
    {Tensor Cache : Type 0} → InferenceSession Tensor → Network Tensor Cache → Network Tensor Cache
unload_session session network = unload session.plan network
