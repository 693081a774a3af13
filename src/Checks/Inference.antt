-- ===== src/Checks/Inference.antt =====
-- POST /infer on the deployment of Checks.Generation; a text is the decimal of its number.
use pi_ssm.Base.{ℕ, ◌+◌, ◌*◌, false, some, [], ◌∷◌, ◌≡◌, refl}
use pi_ssm.Base.Decimal.{decimal}
use pi_ssm.Base.Dict
use pi_ssm.Api.{Api, loading_state}
use pi_ssm.Api.Inference.{InferSubmission, Session, nodes_of, run_inference, run_inference_stream}
use pi_ssm.Api.Streaming.{last_answer, run_inference-run_inference_stream}
use pi_ssm.Api.Answers.{cluster_session, alone_tokens}
use pi_ssm.Api.Replies.{Replies, infer-Replies}
use pi_ssm.Manifest.Registry.{Models, get_model}
use pi_ssm.Pipeline.{PipelineResult, PassFault, System}
use pi_ssm.Checks.Deployment.{
  numbers, numbers_laws, model, entry_of, local, front, back, alone, deployed,
}
use pi_ssm.Checks.Whole.{small}
use pi_ssm.Checks.Generation.{runner, system, ids, ready, argmax}

abbrev submission : InferSubmission
submission = record { model_name = "mamba"; input = "1234"; max_new_tokens = 4; stream = false }

abbrev api : Api ℕ
api = record { states = ("mamba", loading_state runner.plan) ∷ []; threads = [] }

abbrev session : Session ℕ (PipelineResult ℕ) PassFault (System ℕ (ℕ → ℕ))
session =
    cluster_session numbers numbers_laws runner ids model entry_of argmax local (λ text. 4) decimal
      (λ x t. 10 * x + t) (λ fault. "pass failed")

found : nodes_of (Dict.get api.states submission.model_name) ≡ some 2
unfolding Dict.get
found = refl

run_inference-run_inference_stream_example : run_inference session 12 api submission system ≡ (
  last_answer (run_inference_stream session 12 api submission system).0.lines,
  (run_inference_stream session 12 api submission system).1,
)
run_inference-run_inference_stream_example =
    run_inference-run_inference_stream session 12 api submission system

abbrev models : Models ℕ
models = ("mamba", record small { name = "mamba" }) ∷ []

registered : get_model models "mamba" ≡ some (record small { name = "mamba" })
unfolding get_model Dict.get
registered = refl

infer-Replies_example :
    Replies
      (λ (a : ℕ). session)
      12
      models
      7
      api
      submission
      system
      (alone_tokens numbers numbers_laws runner ids model entry_of argmax local 4 4 alone)
      2
infer-Replies_example =
    infer-Replies numbers numbers_laws runner ids model entry_of argmax local (λ (a : ℕ). session)
      (λ text. 4) decimal (λ x t. 10 * x + t) (λ fault. "pass failed") 12 models
      (record small { name = "mamba" }) 7 api submission 2 system alone front (back ∷ []) registered
      refl ready deployed refl found
