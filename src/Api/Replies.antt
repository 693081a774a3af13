-- ===== src/Api/Replies.antt =====
-- What the route POST /infer replies through the cluster, in both of its forms.
use pi_ssm.Base.{
  ℕ, String, false, some, List, [], ◌∷◌, ◌++◌, ◌≡◌, refl, ap, map, Bool-cases, inl, inr,
  if◌then◌else◌, ◌∙◌,
}
use pi_ssm.Base.Dict
use pi_ssm.Base.Result.{ok}
use pi_ssm.Manifest.Defs.{Manifest}
use pi_ssm.Manifest.Registry.{Models, get_model}
use pi_ssm.Tensors.{Torch, TorchLaws}
use pi_ssm.Shard.{Mamba}
use pi_ssm.Shard.Caches.{AreLocal}
use pi_ssm.Worker.{ModelHandle}
use pi_ssm.Cluster.Seats.{Seat}
use pi_ssm.Cluster.Shards.{IsDeployed}
use pi_ssm.Cluster.Whole.{whole}
use pi_ssm.Pipeline.{PipelineResult, PassFault, System, Runner}
use pi_ssm.Pipeline.Correct.{IsReady}
use pi_ssm.Api.{Api}
use pi_ssm.Api.Inference.{
  InferSubmission, InferAnswer, token, finished, Session, nodes_of, buffered, streaming, infer,
  serve, run_inference, run_inference_stream,
}
use pi_ssm.Api.Answers.{Says, cat_tokens, cluster_session, alone_tokens, run_inference-Says}

module _ {Tensor R E S A : Type 0} (session_of : A → Session Tensor R E S) (elapsed_ms : ℕ) where
  -- The reply of a session to a request: the answer has the text of the tokens, and a stream has a
  -- line for each of them before it.
  pub record Replies (models : Models ℕ) (a : A) (api : Api A) (submission : InferSubmission)
      (s : S) (tokens : List Tensor) (nodes : ℕ) : Type 0 where
    pub answer : InferAnswer
    pub response :
        (infer session_of elapsed_ms models (ok (some a)) api submission s).0
        ≡ ok (
            if submission.stream
            then streaming (record {
              lines = map (λ t. token ((session_of a).decode t)) tokens ++ finished answer ∷ [];
              broken = false;
            })
            else buffered answer)
    pub output :
        answer.output
        ≡ (session_of a).decode
            (cat_tokens (session_of a).cat ((session_of a).encode submission.input) tokens)
    pub counted : answer.num_nodes ≡ nodes

  infer_lem :
      (models : Models ℕ) (manifest : Manifest String ℕ) (a : A) (api : Api A)
      (submission : InferSubmission) (s : S)
      → get_model models submission.model_name ≡ some manifest
      → infer session_of elapsed_ms models (ok (some a)) api submission s
        ≡ serve session_of elapsed_ms api submission s (ok (some a))
  unfolding infer
  infer_lem models manifest a api submission s registered = rw (registered, infer) refl

  pub Replies-Says :
      (models : Models ℕ) (manifest : Manifest String ℕ) (a : A) (api : Api A)
      (submission : InferSubmission) (s : S) (tokens : List Tensor) (nodes : ℕ)
      → get_model models submission.model_name ≡ some manifest
      → Says (session_of a) elapsed_ms api submission s tokens nodes
      → Replies models a api submission s tokens nodes
  unfolding run_inference_stream run_inference
  Replies-Says models manifest a api submission s tokens nodes registered says = record {
    answer = says.answer;
    response =
        ap (λ r. r.0) (infer_lem models manifest a api submission s registered)
        ∙ elim (Bool-cases submission.stream) [
          | inl streams ↦ rw (streams, says.lines) refl
          | inr whole_answer ↦ rw (whole_answer, says.buffered) refl
        ];
    output = says.output;
    counted = says.counted;
  }

module _ {Tensor Cache State A : Type 0} (torch : Torch Tensor) (laws : TorchLaws torch)
    (runner : Runner) (ids : ℕ → String) (model : Mamba Tensor Cache) (slot : Cache → ℕ → State)
    (argmax : Tensor → Tensor) (local : AreLocal slot 0 model.layers)
    (session_of : A → Session Tensor (PipelineResult Tensor) PassFault (System Tensor Cache)) where
  -- Take a registered model and a session of it whose runner's plan names workers that hold the shards
  -- of one model, for non-empty ranges from its first layer to its last, each with the next one's
  -- address, on a network where each stands at its address, with a result store where none of the ids
  -- to come is in use, with a callback address that is not empty and a callback service that is
  -- reachable; where each layer reads and writes only its own entry of a cache, and PyTorch keeps its
  -- documented laws. A request that this session serves, and that finds the model with its plan in the
  -- states at its end, is answered by POST /infer, whatever the tokenizer is, with the text of the
  -- prompt and the tokens that a node with the whole model generates, and with the number of the plan's
  -- workers; as a stream, with one line for the text of each of these tokens and then this answer.
  pub infer-Replies :
      (encode : String → Tensor) (decode : Tensor → String) (cat : Tensor → Tensor → Tensor)
      (message : PassFault → String) (elapsed_ms : ℕ) (models : Models ℕ)
      (manifest : Manifest String ℕ) (a : A) (api : Api A) (submission : InferSubmission)
      (nodes : ℕ) (system : System Tensor Cache) (h : ModelHandle Tensor Cache)
      (first : Seat Tensor Cache) (rest : List (Seat Tensor Cache))
      → get_model models submission.model_name ≡ some manifest
      → session_of a
        ≡ cluster_session torch laws runner ids model slot argmax local encode decode cat message
      → IsReady torch laws runner ids system first rest
      → IsDeployed model 0 (first ∷ rest)
      → h.model ≡ whole model
      → nodes_of (Dict.get api.states submission.model_name) ≡ some nodes
      → Replies session_of elapsed_ms models a api submission system
          (alone_tokens torch laws runner ids model slot argmax local
            (encode submission.input)
            submission.max_new_tokens
            h)
          nodes
  infer-Replies encode decode cat message elapsed_ms models manifest a api submission nodes system h
        first rest registered session ready deployed alone found =
      Replies-Says session_of elapsed_ms models manifest a api submission system _ nodes registered
        (rw session (
          run_inference-Says torch laws runner ids model slot argmax local encode decode cat message
            elapsed_ms api submission nodes system h first rest ready deployed alone found))
