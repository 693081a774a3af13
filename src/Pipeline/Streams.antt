-- ===== src/Pipeline/Streams.antt =====
-- `generate_stream` and `generate` of orchestrator/pipeline.py, over any way to run one pass.
use pi_ssm.Base.{
  ℕ, zero, suc, ◌+◌, Bool, Option, none, some, List, [], ◌∷◌, ◌≡◌, refl, eqb, map, length, ap,
}
use pi_ssm.Base.Result.{Result, ok, raise}

pub record GenerationStep (Tensor R : Type 0) : Type 0 where
  pub token_id : Tensor
  pub step_result : R

-- What a consumer of the generator sees: the steps that it yields, the exception that ends it if
-- one does, and the state that it leaves.
pub record Stream (Tensor R E S : Type 0) : Type 0 where
  pub steps : List (GenerationStep Tensor R)
  pub error : Option E
  pub state : S

module _ {Tensor R E S : Type 0} (run_step : S → ℕ → Tensor → Bool → Result E R × S)
    (next_token : R → Tensor) where
  -- The body of a round behind its pass, given the rounds that follow.
  abbrev pub stream_next : Result E R × S → (Tensor → S → Stream Tensor R E S) → Stream Tensor R E S
  stream_next (raise fault, s) next = record { steps = []; error = some fault; state = s }
  stream_next (ok result, s) next =
      let token = next_token result in
      let rest = next token s in
      record {
        steps = record { token_id = token; step_result = result } ∷ rest.steps;
        error = rest.error;
        state = rest.state;
      }

  -- The loop of `generate_stream`, with `left` rounds to go at round `step`; the input is the prompt
  -- or the newest token.
  unfoldable pub stream_loop : ℕ → ℕ → Tensor → S → Stream Tensor R E S
  stream_loop zero step next_input s = record { steps = []; error = none; state = s }
  stream_loop (suc left) step next_input s =
      stream_next (run_step s step next_input (eqb step 0)) (stream_loop left (step + 1))

  unfoldable pub generate_stream : Tensor → ℕ → S → Stream Tensor R E S
  unfolding stream_loop
  generate_stream input_ids max_new_tokens s = stream_loop max_new_tokens 0 input_ids s

  abbrev pub cat_all : (Tensor → Tensor → Tensor) → Tensor → List (GenerationStep Tensor R) → Tensor
  cat_all cat output_ids [] = output_ids
  cat_all cat output_ids (step ∷ steps) = cat_all cat (cat output_ids step.token_id) steps

  abbrev pub collected :
      (Tensor → Tensor → Tensor) → Tensor → Stream Tensor R E S → Result E (Tensor × List R) × S
  collected cat input_ids stream = elim stream.error [
    | some fault ↦ (raise fault, stream.state)
    | none ↦ (
      ok (cat_all cat input_ids stream.steps, map (λ s. s.step_result) stream.steps),
      stream.state,
    )
  ]

  -- `generate`, with `torch.cat` along the sequence.
  unfoldable pub generate :
      (Tensor → Tensor → Tensor) → Tensor → ℕ → S → Result E (Tensor × List R) × S
  unfolding generate_stream
  generate cat input_ids max_new_tokens s =
      collected cat input_ids (generate_stream input_ids max_new_tokens s)

-- Two ways to run a pass, with a relation of their states at each round.
module _ {Tensor R E S R' E' S' : Type 0} (run_step : S → ℕ → Tensor → Bool → Result E R × S)
    (run_step' : S' → ℕ → Tensor → Bool → Result E' R' × S') (next_token : R → Tensor)
    (next_token' : R' → Tensor) (Same : ℕ → S → S' → Type 0) where
  -- Round `step` ends in both with outputs that pick the same token, and in related states.
  pub record Agrees (step : ℕ) (x : Tensor) (s : S) (s' : S') : Type 0 where
    pub result : R
    pub result' : R'
    pub state : S
    pub state' : S'
    pub ran : run_step s step x (eqb step 0) ≡ (ok result, state)
    pub ran' : run_step' s' step x (eqb step 0) ≡ (ok result', state')
    pub token : next_token result ≡ next_token' result'
    pub same : Same (step + 1) state state'

  -- Both streams yield `count` steps with the same tokens, and end with no exception.
  pub record IsAlike (count : ℕ) (stream : Stream Tensor R E S) (stream' : Stream Tensor R' E' S')
      : Type 0 where
    pub tokens : map (λ g. g.token_id) stream.steps ≡ map (λ g. g.token_id) stream'.steps
    pub counted : length stream.steps ≡ count
    pub no_error : stream.error ≡ none
    pub no_error' : stream'.error ≡ none

  module _
      (round : (step : ℕ) (x : Tensor) (s : S) (s' : S')
        → Same step s s'
        → Agrees step x s s') where
    pub stream_loop-IsAlike :
        (left step : ℕ) (x : Tensor) (s : S) (s' : S')
        → Same step s s'
        → IsAlike left
            (stream_loop run_step next_token left step x s)
            (stream_loop run_step' next_token' left step x s')
    unfolding stream_loop
    stream_loop-IsAlike zero step x s s' h = record {
      tokens = refl;
      counted = refl;
      no_error = refl;
      no_error' = refl;
    }
    stream_loop-IsAlike (suc left) step x s s' h =
        let r = round step x s s' h in
        let ih =
          stream_loop-IsAlike left (step + 1) (next_token' r.result') r.state r.state' r.same in
        rw (r.ran, r.ran', r.token)
          (record {
            tokens = ap (◌∷◌ (next_token' r.result')) ih.tokens;
            counted = ap suc ih.counted;
            no_error = ih.no_error;
            no_error' = ih.no_error';
          })
