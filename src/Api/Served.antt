-- ===== src/Api/Served.antt =====
-- A load thread of the HTTP API and the requests that its session serves.
use pi_ssm.Base.{none, ℕ, String, true, false, Option, some, List, ◌∷◌, ◌≡◌, refl, ap, ◌==◌, length}
use pi_ssm.Base.Dict
use pi_ssm.Base.Dict.{Dict, get-put_self}
use pi_ssm.Base.Result.{Result, ok}
use pi_ssm.Dispatch.{DispatchPlan, plan_dispatch}
use pi_ssm.Manifest.Defs.{Manifest}
use pi_ssm.Manifest.Registry.{Models, get_model}
use pi_ssm.ModelStore
use pi_ssm.ModelStore.{ModelStore, new_model_store}
use pi_ssm.Nodes.{NodeRegistry}
use pi_ssm.Results.{ResultStore}
use pi_ssm.Shard.{ShardModule, Mamba}
use pi_ssm.Shard.Caches.{AreLocal}
use pi_ssm.Shard.Weights.{Modules, LoadFault}
use pi_ssm.Shard.Weights.Blocks.{model_of}
use pi_ssm.Shard.Weights.Checkpoint.{IsCheckpoint}
use pi_ssm.Tensors.{Torch, TorchLaws}
use pi_ssm.Worker.{ModelHandle}
use pi_ssm.Worker.Running.{Measure}
use pi_ssm.Cluster.Whole.{whole}
use pi_ssm.Pipeline.{PipelineResult, PassFault, System}
use pi_ssm.Pipeline.Streams.{generate_stream}
use pi_ssm.Pipeline.Loading.{ShardReadyResult, Nodes, Loading, load}
use pi_ssm.Pipeline.Loading.Threads.{end_threads}
use pi_ssm.Pipeline.Loading.Dispatched.{Post}
use pi_ssm.Pipeline.Loading.Generated.{runner_for, system_after}
use pi_ssm.Pipeline.Loading.EndToEnd.{AreReady, generate_stream-IsCheckpoint}
use pi_ssm.Api.{Api, ended_state, end_loading, poll, poll_by}
use pi_ssm.Api.Inference.{InferSubmission, Session, nodes_of}
use pi_ssm.Api.Answers.{cluster_session, alone_tokens, says_lem}
use pi_ssm.Api.Replies.{Replies, Replies-Says}
use pi_ssm.Api.Sessions.{Tokenizer, InferenceSession, build_session, with_shards}

module _ {Tensor Cache E : Type 0} where
  build_session_lem :
      (plan : DispatchPlan) (callback : String)
      (meanwhile : Loading Tensor Cache → Loading Tensor Cache) (w : Dict String) (config : String)
      (tokenizer : Tokenizer Tensor) (c end : Loading Tensor Cache)
      → load none
          (record { metadata = some w; config_json = some config })
          plan
          callback
          plan.assignments
          meanwhile
          c
        ≡ (end, some (ok tt))
      → build_session {E = E} plan callback plan.assignments meanwhile
          (ok w)
          (ok config)
          (ok tokenizer)
          c
        ≡ (
          end,
          some (ok (record { plan = plan; model_store = new_model_store; tokenizer = tokenizer })),
        )
  unfolding build_session ModelStore.load
  build_session_lem plan callback meanwhile w config tokenizer c end e =
      ap (with_shards plan (record { metadata = some w; config_json = some config }) (ok tokenizer))
        e

module _ {A : Type 0} (api : Api A) (before after : List (String × DispatchPlan)) (name : String)
    (plan : DispatchPlan) (session : A) where
  ended_lem :
      Dict.get (end_loading api before (name, plan) after (ok session)).states name
      ≡ some (ended_state plan (ok session))
  unfolding end_loading
  ended_lem = get-put_self api.states name (ended_state plan (ok session))

  poll-end_loading :
      poll (end_loading api before (name, plan) after (ok session)) name ≡ some (ok (some session))
  unfolding poll
  poll-end_loading = ap poll_by ended_lem

module _ {Weight Tensor Cache State : Type 0} (modules : Modules Weight Tensor Cache)
    (w : Dict String) (fetch : String → Option (Dict Weight)) (weight : ℕ → String → Weight)
    (embedding norm head : Weight) (describe : LoadFault → String) (torch : Torch Tensor)
    (laws : TorchLaws torch) (slot : Cache → ℕ → State) (ids : ℕ → String)
    (measure : String → Measure) (config callback : String) (now : ℕ)
    (built : String → Result String (ShardModule Tensor Cache × ℕ)) (argmax : Tensor → Tensor)
    (manifest : Manifest String ℕ) (registry : NodeRegistry) (plan : DispatchPlan)
    (planned : plan_dispatch manifest registry ≡ ok plan)
    (c : IsCheckpoint modules.block_parameters w fetch weight embedding norm head manifest.layers)
    (mamba : (plan.arch == "mamba") ≡ true)
    (local : AreLocal slot 0 (model_of modules weight manifest.layers embedding norm head).layers)
    (tokenizer : Tokenizer Tensor) (cat : Tensor → Tensor → Tensor)
    (message : PassFault → String) where
  abbrev pub loaded_store : ModelStore
  loaded_store = record { metadata = some w; config_json = some config }

  abbrev pub served_model : Mamba Tensor Cache
  served_model = model_of modules weight manifest.layers embedding norm head

  -- What a request makes of the session that it finds.
  abbrev pub session_of :
      InferenceSession Tensor
      → Session Tensor (PipelineResult Tensor) PassFault (System Tensor Cache)
  session_of s =
      cluster_session torch laws
        (runner_for torch laws served_model slot ids measure loaded_store callback now built s.plan)
        ids served_model slot argmax local s.tokenizer.encode s.tokenizer.decode cat message

  -- The session that the thread builds, what the states say of it, and what it replies.
  pub record Serves (api : Api (InferenceSession Tensor))
      (before after : List (String × DispatchPlan)) (models : Models ℕ)
      (submission : InferSubmission) (elapsed_ms : ℕ) (nodes : Nodes Tensor Cache)
      (store : ResultStore ShardReadyResult) (h : ModelHandle Tensor Cache) : Type 0 where
    pub end : Loading Tensor Cache
    pub session : InferenceSession Tensor
    pub loaded :
        build_session {E = String} plan callback plan.assignments
          (end_threads built now plan.assignments)
          (ok w)
          (ok config)
          (ok tokenizer)
          (record { nodes = nodes; store = store })
        ≡ (end, some (ok session))
    pub freed : session.model_store ≡ new_model_store
    pub polled :
        poll
          (end_loading api before (submission.model_name, plan) after (ok session))
          submission.model_name
        ≡ some (ok (some session))
    pub replies :
        Replies session_of elapsed_ms models session
          (end_loading api before (submission.model_name, plan) after (ok session))
          submission
          (system_after torch laws served_model slot ids measure loaded_store callback now built
            end)
          (alone_tokens torch laws
            (runner_for torch laws served_model slot ids measure loaded_store callback now built
              plan)
            ids
            served_model
            slot
            argmax
            local
            (tokenizer.encode submission.input)
            submission.max_new_tokens
            h)
          (length plan.assignments)

  -- Take a manifest of the architecture `mamba` that is registered under the name of a request, and a
  -- plan that `plan_dispatch` has returned for it; a checkpoint that holds the weights of a model with
  -- the manifest's number of layers, whose index, configuration and tokenizer can be read; workers at
  -- the addresses of the plan, distinct and with distinct ids, none of which has the model or is
  -- loading one, with the locations that the model store extracts for their ranges; and threads that
  -- build at each worker, from these locations and the files of the checkpoint, what
  -- `from_tensor_locations` builds. Each layer of the model reads and writes only its own entry of a
  -- cache, PyTorch keeps its documented laws, and the callback service is reachable at an address that
  -- is not empty. Then `_build_session`, whose threads and waits end in the order of the plan, gives a
  -- session that keeps no metadata; when the load thread has put it, a wait for the model ends with this
  -- session; and POST /infer, on the workers as the load leaves them, answers with the text of the
  -- prompt and the tokens that a node with the whole model generates, and with the number of the plan's
  -- workers; as a stream, with one line for the text of each of these tokens and then this answer.
  pub infer-build_session :
      (p : Post Tensor Cache) (rest : List (Post Tensor Cache)) (nodes : Nodes Tensor Cache)
      (store : ResultStore ShardReadyResult) (h : ModelHandle Tensor Cache)
      (api : Api (InferenceSession Tensor)) (before after : List (String × DispatchPlan))
      (models : Models ℕ) (submission : InferSubmission) (elapsed_ms : ℕ)
      → AreReady modules w fetch weight embedding norm head describe torch laws slot ids measure
          loaded_store callback now built argmax manifest registry plan planned c refl mamba local
          (p ∷ rest)
          nodes
      → (callback == "") ≡ false
      → h.model ≡ whole served_model
      → get_model models submission.model_name ≡ some manifest
      → Serves api before after models submission elapsed_ms nodes store h
  infer-build_session p rest nodes store h api before after models submission elapsed_ms ready mode
        alone registered =
      let (end, loading_ends, same) =
        generate_stream-IsCheckpoint modules w fetch weight embedding norm head describe torch laws
          slot ids measure loaded_store callback now built argmax manifest registry plan planned c
          refl mamba local none p rest nodes store h (tokenizer.encode submission.input)
          submission.max_new_tokens ready mode alone in
      let session : InferenceSession Tensor = record {
        plan = plan;
        model_store = new_model_store;
        tokenizer = tokenizer;
      } in
      let api' = end_loading api before (submission.model_name, plan) after (ok session) in
      let system =
        system_after torch laws served_model slot ids measure loaded_store callback now built end in
      record {
        end = end;
        session = session;
        loaded =
            build_session_lem plan callback (end_threads built now plan.assignments) w config
              tokenizer (record { nodes = nodes; store = store }) end loading_ends;
        freed = refl;
        polled = poll-end_loading api before after submission.model_name plan session;
        replies =
            Replies-Says session_of elapsed_ms models manifest session api' submission system _
              (length plan.assignments) registered
              (says_lem (session_of session) elapsed_ms api' submission system _
                (length plan.assignments)
                (generate_stream (session_of session).run_step (session_of session).next_token
                  (tokenizer.encode submission.input) submission.max_new_tokens system)
                refl same.no_error same.tokens
                (ap nodes_of (ended_lem api before after submission.model_name plan session)));
      }
