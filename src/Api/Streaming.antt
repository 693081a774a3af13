-- ===== src/Api/Streaming.antt =====
-- The two forms of an answer of POST /infer, and the texts that it gives.
use pi_ssm.Base.{ℕ, Option, none, some, List, [], ◌∷◌, ◌++◌, ◌≡◌, refl, ap, sym, ◌∙◌, map}
use pi_ssm.Base.Dict
use pi_ssm.Base.Result.{Result, ok, raise}
use pi_ssm.Api.{Api}
use pi_ssm.Pipeline.Streams.{GenerationStep, generate_stream, generate, collected, cat_all}
use pi_ssm.Api.Inference.{
  InferSubmission, InferAnswer, Line, token, failed, finished, Session, nodes_of, counted,
  token_lines, last_line, generated, run_inference, ended, run_inference_stream,
}

-- What a client makes of the lines: the answer of the last line, or an error where there is none.
unfoldable pub last_answer : List Line → Result ℕ InferAnswer
last_answer [] = raise 500
last_answer (token text ∷ lines) = last_answer lines
last_answer (failed text ∷ lines) = raise 500
last_answer (finished answer ∷ lines) = ok answer

module _ {Tensor R E S : Type 0} (session : Session Tensor R E S) (elapsed_ms : ℕ) where
  last_answer-tokens :
      (steps : List (GenerationStep Tensor R)) (lines : List Line)
      → last_answer (token_lines session elapsed_ms steps ++ lines) ≡ last_answer lines
  unfolding last_answer
  last_answer-tokens [] lines = refl
  last_answer-tokens (step ∷ steps) lines = last_answer-tokens steps lines

  last_answer-counted :
      (submission : InferSubmission) (output_ids : Tensor) (results : List R) (nodes : Option ℕ)
      → last_answer (last_line session elapsed_ms submission output_ids results nodes).0
        ≡ counted session elapsed_ms submission output_ids results nodes
  unfolding last_answer
  last_answer-counted submission output_ids results none = refl
  last_answer-counted submission output_ids results (some nodes) = refl

module _ {Tensor R E S A : Type 0} (session : Session Tensor R E S) (elapsed_ms : ℕ) where
  ended_lem :
      (api : Api A) (submission : InferSubmission) (input_ids : Tensor)
      (steps : List (GenerationStep Tensor R)) (error : Option E) (s : S)
      → generated session elapsed_ms api submission (
          collected session.run_step session.next_token session.cat input_ids
            (record { steps = steps; error = error; state = s }))
        ≡ (last_answer (ended session elapsed_ms api submission input_ids steps error).0, s)
  unfolding last_answer
  ended_lem api submission input_ids steps (some fault) s = refl
  ended_lem api submission input_ids steps none s =
      ap (λ r. (r, s))
        (sym (
          last_answer-counted session elapsed_ms submission
            (cat_all session.run_step session.next_token session.cat input_ids steps)
            (map (λ g. g.step_result) steps)
            (nodes_of (Dict.get api.states submission.model_name))))

  -- With the same measured time, POST /infer gives the same answer in both of its forms, and leaves the
  -- same state: the buffered answer is the one in the last line of the stream, and where the stream
  -- ends in an error line, or breaks off with no last line, the buffered request is the status 500.
  pub run_inference-run_inference_stream :
      (api : Api A) (submission : InferSubmission) (s : S)
      → run_inference session elapsed_ms api submission s ≡ (
        last_answer (run_inference_stream session elapsed_ms api submission s).0.lines,
        (run_inference_stream session elapsed_ms api submission s).1,
      )
  unfolding run_inference run_inference_stream generate
  run_inference-run_inference_stream api submission s =
      let input_ids = session.encode submission.input in
      let stream =
        generate_stream session.run_step session.next_token input_ids submission.max_new_tokens s in
      ended_lem api submission input_ids stream.steps stream.error stream.state
      ∙ ap (λ r. (r, stream.state))
          (sym (
            last_answer-tokens session elapsed_ms stream.steps
              (ended session elapsed_ms api submission input_ids stream.steps stream.error).0))
