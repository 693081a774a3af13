-- ===== src/Api/Answers.antt =====
-- The text that POST /infer answers through the cluster, against a single node.
use pi_ssm.Base.{ℕ, String, false, none, some, List, [], ◌∷◌, ◌++◌, ◌≡◌, refl, ap, sym, ◌∙◌, map}
use pi_ssm.Base.Dict
use pi_ssm.Base.Result.{ok}
use pi_ssm.Tensors.{Torch, TorchLaws}
use pi_ssm.Shard.{Mamba}
use pi_ssm.Shard.Caches.{AreLocal}
use pi_ssm.Worker.{ModelHandle}
use pi_ssm.Cluster.Seats.{Seat}
use pi_ssm.Cluster.Shards.{IsDeployed}
use pi_ssm.Cluster.Whole.{whole}
use pi_ssm.Pipeline.{PipelineResult, PassFault, System, Runner}
use pi_ssm.Pipeline.Correct.{IsReady}
use pi_ssm.Pipeline.Generation.{generate_stream-IsAlike, cluster_step, alone_step, token_of}
use pi_ssm.Pipeline.Streams.{GenerationStep, Stream, generate_stream, generate, collected, cat_all}
use pi_ssm.Api.{Api}
use pi_ssm.Api.Inference.{
  InferSubmission, InferAnswer, Line, token, finished, Lines, Session, nodes_of, infer_answer,
  token_lines, generated, run_inference, streamed, run_inference_stream,
}

-- The prompt with the tokens behind it.
abbrev pub cat_tokens :
    {Tensor : Type 0} → (Tensor → Tensor → Tensor) → Tensor → List Tensor → Tensor
cat_tokens cat x [] = x
cat_tokens cat x (t ∷ ts) = cat_tokens cat (cat x t) ts

module _ {Tensor R E S : Type 0} (session : Session Tensor R E S) (elapsed_ms : ℕ) where
  cat_all-tokens :
      (x : Tensor) (steps : List (GenerationStep Tensor R))
      → cat_all session.run_step session.next_token session.cat x steps
        ≡ cat_tokens session.cat x (map (λ g. g.token_id) steps)
  cat_all-tokens x [] = refl
  cat_all-tokens x (step ∷ steps) = cat_all-tokens (session.cat x step.token_id) steps

  lines-tokens :
      (steps : List (GenerationStep Tensor R))
      → token_lines session elapsed_ms steps
        ≡ map (λ t. token (session.decode t)) (map (λ g. g.token_id) steps)
  lines-tokens [] = refl
  lines-tokens (step ∷ steps) = ap (◌∷◌ (token (session.decode step.token_id))) (lines-tokens steps)

  answer_of : InferSubmission → List (GenerationStep Tensor R) → ℕ → InferAnswer
  answer_of submission steps nodes =
      infer_answer session elapsed_ms submission
        (cat_all session.run_step session.next_token session.cat (session.encode submission.input)
          steps)
        (map (λ g. g.step_result) steps) nodes

module _ {Tensor R E S A : Type 0} (session : Session Tensor R E S) (elapsed_ms : ℕ) where
  -- A generation that does not raise gives the text of its tokens, in both forms of the answer.
  pub record Says (api : Api A) (submission : InferSubmission) (s : S) (tokens : List Tensor)
      (nodes : ℕ) : Type 0 where
    pub answer : InferAnswer
    pub buffered : (run_inference session elapsed_ms api submission s).0 ≡ ok answer
    pub lines : (run_inference_stream session elapsed_ms api submission s).0 ≡ record {
      lines = map (λ t. token (session.decode t)) tokens ++ finished answer ∷ [];
      broken = false;
    }
    pub output :
        answer.output
        ≡ session.decode (cat_tokens session.cat (session.encode submission.input) tokens)
    pub counted : answer.num_nodes ≡ nodes

  buffered_lem :
      (api : Api A) (submission : InferSubmission) (stream : Stream Tensor R E S) (nodes : ℕ)
      → stream.error ≡ none
      → nodes_of (Dict.get api.states submission.model_name) ≡ some nodes
      → (generated session elapsed_ms api submission (
          collected session.run_step session.next_token session.cat
            (session.encode submission.input)
            stream)).0
        ≡ ok (answer_of session elapsed_ms submission stream.steps nodes)
  unfolding answer_of
  buffered_lem api submission stream nodes fine found = rw (fine, found) refl

  streamed_lem :
      (api : Api A) (submission : InferSubmission) (stream : Stream Tensor R E S) (nodes : ℕ)
      → stream.error ≡ none
      → nodes_of (Dict.get api.states submission.model_name) ≡ some nodes
      → (streamed session elapsed_ms api submission (session.encode submission.input) stream).0
        ≡ record {
          lines =
              token_lines session elapsed_ms stream.steps
              ++ finished (answer_of session elapsed_ms submission stream.steps nodes) ∷ [];
          broken = false;
        }
  unfolding answer_of
  streamed_lem api submission stream nodes fine found = rw (fine, found) refl

  pub says_lem :
      (api : Api A) (submission : InferSubmission) (s : S) (tokens : List Tensor) (nodes : ℕ)
      (stream : Stream Tensor R E S)
      → stream
        ≡ generate_stream session.run_step session.next_token
            (session.encode submission.input)
            submission.max_new_tokens
            s
      → stream.error ≡ none
      → map (λ g. g.token_id) stream.steps ≡ tokens
      → nodes_of (Dict.get api.states submission.model_name) ≡ some nodes
      → Says api submission s tokens nodes
  unfolding run_inference run_inference_stream generate answer_of
  says_lem api submission s tokens nodes stream e fine picked found =
      let ids = session.encode submission.input in
      let cat = session.cat in
      record {
        answer = answer_of session elapsed_ms submission stream.steps nodes;
        buffered =
            ap
              (λ g.
                (generated session elapsed_ms api submission
                  (collected session.run_step session.next_token cat ids g)).0)
              (sym e)
            ∙ buffered_lem api submission stream nodes fine found;
        lines =
            ap (λ g. (streamed session elapsed_ms api submission ids g).0) (sym e)
            ∙ streamed_lem api submission stream nodes fine found
            ∙ ap
                (λ (texts : List Line).
                  let l : Lines = record {
                    lines =
                        texts
                        ++ finished (answer_of session elapsed_ms submission stream.steps nodes)
                          ∷ [];
                    broken = false;
                  } in
                  l)
                (lines-tokens session elapsed_ms stream.steps
                  ∙ ap (map (λ t. token (session.decode t))) picked);
        output =
            ap session.decode
              (cat_all-tokens session elapsed_ms ids stream.steps ∙ ap (cat_tokens cat ids) picked);
        counted = refl;
      }

module _ {Tensor Cache State : Type 0} (torch : Torch Tensor) (laws : TorchLaws torch)
    (runner : Runner) (ids : ℕ → String) (model : Mamba Tensor Cache) (slot : Cache → ℕ → State)
    (argmax : Tensor → Tensor) (local : AreLocal slot 0 model.layers) where
  -- The session of a runner, whose tokens are the `argmax` of the outputs.
  abbrev pub cluster_session :
      (String → Tensor)
      → (Tensor → String)
      → (Tensor → Tensor → Tensor)
      → (PassFault → String)
      → Session Tensor (PipelineResult Tensor) PassFault (System Tensor Cache)
  cluster_session encode decode cat message = record {
    encode = encode;
    decode = decode;
    run_step = cluster_step torch laws runner ids model slot;
    next_token = token_of torch laws runner ids model slot argmax local;
    cat = cat;
    latencies = λ r. r.node_latencies_ms;
    peaks = λ r. r.node_peak_memory_mb;
    message = message;
  }

  -- The tokens that a node with the whole model generates.
  abbrev pub alone_tokens : Tensor → ℕ → ModelHandle Tensor Cache → List Tensor
  alone_tokens prompt count h =
      map (λ g. g.token_id)
        (generate_stream (alone_step torch laws runner ids model slot) argmax prompt count h).steps

  -- Take a runner whose plan names workers that hold the shards of one model, for non-empty ranges
  -- from its first layer to its last, each with the next one's address, on a network where each stands
  -- at its address, with a result store where none of the ids to come is in use, with a callback
  -- address that is not empty and a callback service that is reachable; where each layer reads and
  -- writes only its own entry of a cache, and PyTorch keeps its documented laws; and a request that
  -- finds the model with its plan in the states at its end. Then POST /infer answers, whatever the
  -- tokenizer is, with the text of the prompt and the tokens that a node with the whole model
  -- generates, and with the number of the plan's workers; its stream has one line with the text of
  -- each of these tokens and then the line with this same answer, and is not broken.
  pub run_inference-Says :
      (encode : String → Tensor) (decode : Tensor → String) (cat : Tensor → Tensor → Tensor)
      (message : PassFault → String) (elapsed_ms : ℕ) {A : Type 0} (api : Api A)
      (submission : InferSubmission) (nodes : ℕ) (system : System Tensor Cache)
      (h : ModelHandle Tensor Cache) (first : Seat Tensor Cache) (rest : List (Seat Tensor Cache))
      → IsReady torch laws runner ids system first rest
      → IsDeployed model 0 (first ∷ rest)
      → h.model ≡ whole model
      → nodes_of (Dict.get api.states submission.model_name) ≡ some nodes
      → Says
          (cluster_session encode decode cat message)
          elapsed_ms
          api
          submission
          system
          (alone_tokens (encode submission.input) submission.max_new_tokens h)
          nodes
  run_inference-Says encode decode cat message elapsed_ms api submission nodes system h first rest
        ready deployed alone found =
      let session = cluster_session encode decode cat message in
      let same =
        generate_stream-IsAlike torch laws runner ids model slot argmax local
          (encode submission.input) submission.max_new_tokens system h first rest ready deployed
          alone in
      says_lem session elapsed_ms api submission system
        (alone_tokens (encode submission.input) submission.max_new_tokens h) nodes
        (generate_stream session.run_step session.next_token (encode submission.input)
          submission.max_new_tokens system)
        refl same.no_error same.tokens found
