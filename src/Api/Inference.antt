-- ===== src/Api/Inference.antt =====
-- POST /infer of orchestrator/http_api.py: `_run_inference`, `_run_inference_stream` and the route. The
-- tokenizer, the passes of the session's runner and the measured time are arguments; a line of the
-- stream is the `dict` that it prints as JSON. An HTTP error is its status code, where 500 is an
-- exception that the route does not handle.
use pi_ssm.Base.{
  ℕ, String, Bool, true, false, Option, none, some, List, [], ◌∷◌, ◌++◌, map, length, if◌then◌else◌,
}
use pi_ssm.Base.Dict
use pi_ssm.Base.Result.{Result, ok, raise}
use pi_ssm.Manifest.Registry.{Models, get_model}
use pi_ssm.Dispatch.{DispatchPlan}
use pi_ssm.Api.{ModelState, Api}
use pi_ssm.Pipeline.Streams.{GenerationStep, Stream, generate_stream, generate, cat_all}

pub record InferSubmission : Type 0 where
  pub model_name : String
  pub input : String
  pub max_new_tokens : ℕ
  pub stream : Bool

-- The answer to a request, and the last line of its stream.
pub record InferAnswer : Type 0 where
  pub output : String
  pub latency_ms : ℕ
  pub node_latencies_ms : List ℕ
  pub peak_memory_mb : List ℕ
  pub num_nodes : ℕ
  pub num_tokens : ℕ

pub data Line : Type 0 where
  token : String → Line
  failed : String → Line
  finished : InferAnswer → Line

-- The lines of a stream; `broken` is an exception that ends it, behind the headers of the response.
pub record Lines : Type 0 where
  pub lines : List Line
  pub broken : Bool

-- What a session gives to its requests: its tokenizer, with `decode` of the first row, and its runner;
-- `S` is the state of the cluster, `R` the result of a pass and `E` its exceptions.
pub record Session (Tensor R E S : Type 0) : Type 0 where
  pub encode : String → Tensor
  pub decode : Tensor → String
  pub run_step : S → ℕ → Tensor → Bool → Result E R × S
  pub next_token : R → Tensor
  pub cat : Tensor → Tensor → Tensor
  pub latencies : R → List ℕ
  pub peaks : R → List ℕ
  pub message : E → String

-- `results[-1] if results else None`
abbrev pub last_result : {R : Type 0} → Option R → List R → Option R
last_result found [] = found
last_result found (r ∷ rs) = last_result (some r) rs

-- `len(model_states[name].plan.assignments)`; a model that is gone, or that has no plan, raises.
abbrev pub plan_nodes : Option DispatchPlan → Option ℕ
plan_nodes none = none
plan_nodes (some plan) = some (length plan.assignments)

abbrev pub nodes_of : {A : Type 0} → Option (ModelState A) → Option ℕ
nodes_of none = none
nodes_of (some state) = plan_nodes state.plan

abbrev pub of_last : {R : Type 0} → (R → List ℕ) → Option R → List ℕ
of_last f none = []
of_last f (some result) = f result

module _ {Tensor R E S : Type 0} (session : Session Tensor R E S) (elapsed_ms : ℕ) where
  abbrev pub infer_answer : InferSubmission → Tensor → List R → ℕ → InferAnswer
  infer_answer submission output_ids results nodes = record {
    output = session.decode output_ids;
    latency_ms = elapsed_ms;
    node_latencies_ms = of_last session.latencies (last_result none results);
    peak_memory_mb = of_last session.peaks (last_result none results);
    num_nodes = nodes;
    num_tokens = submission.max_new_tokens;
  }

  abbrev pub counted : InferSubmission → Tensor → List R → Option ℕ → Result ℕ InferAnswer
  counted submission output_ids results none = raise 500
  counted submission output_ids results (some nodes) =
      ok (infer_answer submission output_ids results nodes)

  abbrev pub token_lines : List (GenerationStep Tensor R) → List Line
  token_lines = map (λ g. token (session.decode g.token_id))

  abbrev pub last_line : InferSubmission → Tensor → List R → Option ℕ → List Line × Bool
  last_line submission output_ids results none = ([], true)
  last_line submission output_ids results (some nodes) =
      (finished (infer_answer submission output_ids results nodes) ∷ [], false)

module _ {Tensor R E S A : Type 0} (session : Session Tensor R E S) (elapsed_ms : ℕ) where
  abbrev pub generated :
      Api A → InferSubmission → Result E (Tensor × List R) × S → Result ℕ InferAnswer × S
  generated api submission (raise fault, s) = (raise 500, s)
  generated api submission (ok (output_ids, results), s) = (
    counted session elapsed_ms submission output_ids results
        (nodes_of (Dict.get api.states submission.model_name)),
    s,
  )

  -- `_run_inference` behind `_get_ready_session`, where `api` is what it sees at its end.
  unfoldable pub run_inference : Api A → InferSubmission → S → Result ℕ InferAnswer × S
  run_inference api submission s = generated api submission (
      generate session.run_step session.next_token session.cat (session.encode submission.input)
        submission.max_new_tokens s)

  abbrev pub ended :
      Api A
      → InferSubmission
      → Tensor
      → List (GenerationStep Tensor R)
      → Option E
      → List Line × Bool
  ended api submission input_ids steps (some fault) = (failed (session.message fault) ∷ [], false)
  ended api submission input_ids steps none =
      last_line session elapsed_ms submission
        (cat_all session.run_step session.next_token session.cat input_ids steps)
        (map (λ g. g.step_result) steps) (nodes_of (Dict.get api.states submission.model_name))

  abbrev pub streamed : Api A → InferSubmission → Tensor → Stream Tensor R E S → Lines × S
  streamed api submission input_ids stream =
      let (end, broken) = ended api submission input_ids stream.steps stream.error in
      (
        record { lines = token_lines session elapsed_ms stream.steps ++ end; broken = broken },
        stream.state,
      )

  -- `_run_inference_stream`
  unfoldable pub run_inference_stream : Api A → InferSubmission → S → Lines × S
  run_inference_stream api submission s =
      let input_ids = session.encode submission.input in
      streamed api submission input_ids
        (generate_stream session.run_step session.next_token input_ids submission.max_new_tokens s)

-- What POST /infer responds with.
pub data Response : Type 0 where
  buffered : InferAnswer → Response
  streaming : Lines → Response

module _ {Tensor R E S A : Type 0} (session_of : A → Session Tensor R E S) (elapsed_ms : ℕ) where
  -- A session that is ready serves the request; `api` is what the request sees at its end. A ready
  -- model that has no session raises an `AttributeError`, in the form of a stream behind the headers.
  abbrev pub serve : Api A → InferSubmission → S → Result ℕ (Option A) → Result ℕ Response × S
  serve api submission s (raise status) = (raise status, s)
  serve api submission s (ok none) = (
    if submission.stream then ok (streaming (record { lines = []; broken = true })) else raise 500,
    s,
  )
  serve api submission s (ok (some a)) =
      if submission.stream
      then (let (lines, s') = run_inference_stream (session_of a) elapsed_ms api submission s in
          (ok (streaming lines), s'))
      else (let (answer, s') = run_inference (session_of a) elapsed_ms api submission s in
          (respond answer, s'))
    where
      respond : Result ℕ InferAnswer → Result ℕ Response
      respond (raise status) = raise status
      respond (ok answer) = ok (buffered answer)

  -- `infer`, by the answer of `_get_ready_session`.
  unfoldable pub infer :
      Models ℕ → Result ℕ (Option A) → Api A → InferSubmission → S → Result ℕ Response × S
  infer models ready api submission s = elim (get_model models submission.model_name) [
    | none ↦ (raise 404, s)
    | some manifest ↦ serve api submission s ready
  ]
