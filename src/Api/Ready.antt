-- ===== src/Api/Ready.antt =====
-- `_get_ready_session` of orchestrator/http_api.py: the loop that waits for a model to be loaded. Its
-- rounds see the states that other requests and the load threads leave. Times are in milliseconds.
use pi_ssm.Base.{
  ℕ, suc, ◌+◌, ◌/◌, ◌<◌, ◌≤◌, ltb→lt, lt→ltb, String, Bool, true, false, Option, none, some, ◌≡◌,
  ◌⊎◌, inl, inr, refl, arith, ltb, is_some,
}
use pi_ssm.Base.Polling.{poll_rounds, Found, poll_rounds-Found, clock_lem}
use pi_ssm.Base.Result.{Result, raise}
use pi_ssm.Api.{Api, poll}

-- `STATUS_POLL_INTERVAL_S`
abbrev pub status_poll_interval : ℕ
status_poll_interval = 50

-- `DEFAULT_LOAD_WAIT_TIMEOUT_S`
abbrev pub default_load_wait_timeout : ℕ
default_load_wait_timeout = 300000

-- `seen i` is the state that round `i` reads, and `clock i` the reading of the clock behind it; the
-- reading that the deadline is computed from is `start`.
module _ {Session : Type 0} (seen : ℕ → Api Session) (clock : ℕ → ℕ) (name : String) where
  -- What a round has found, or else the clock's test.
  abbrev pub round_by :
      Option (Result ℕ (Option Session)) → Bool → Option (Result ℕ (Option Session))
  round_by (some answer) late = some answer
  round_by none true = some (raise 504)
  round_by none false = none

  -- A round of the loop; `none` sleeps.
  unfoldable pub ready_round : ℕ → ℕ → Option (Result ℕ (Option Session))
  ready_round deadline i = round_by (poll (seen i) name) (ltb deadline (clock i))

  -- `_get_ready_session` behind `_ensure_loading_started`; `none` means that the fuel ran out.
  unfoldable pub get_ready_session : ℕ → ℕ → ℕ → Option (Result ℕ (Option Session))
  get_ready_session fuel start wait_timeout =
      poll_rounds (ready_round (start + wait_timeout)) fuel 0

  -- What the wait ends with: in all rounds before round `last` the model was loading and it was not
  -- late, and round `last` saw the answer, or the model still loading behind the deadline.
  pub record Ends (deadline : ℕ) (answer : Result ℕ (Option Session)) : Type 0 where
    pub last : ℕ
    pub waited : (i : ℕ) → i < last → (poll (seen i) name ≡ none) × (clock i ≤ deadline)
    pub answered :
        (poll (seen last) name ≡ some answer)
        ⊎ (poll (seen last) name ≡ none) × (deadline < clock last) × (answer ≡ raise 504)

  round_none :
      (p : Option (Result ℕ (Option Session))) (late : Bool)
      → round_by p late ≡ none
      → (p ≡ none) × (late ≡ false)
  round_none (some answer) late h = cc
  round_none none true h = cc
  round_none none false h = (refl, refl)

  round_some :
      (p : Option (Result ℕ (Option Session))) (late : Bool) (answer : Result ℕ (Option Session))
      → round_by p late ≡ some answer
      → (p ≡ some answer) ⊎ (p ≡ none) × (late ≡ true) × (answer ≡ raise 504)
  round_some (some found) late answer h = inl h
  round_some none true answer h = inr (refl, refl, cc)
  round_some none false answer h = cc

  late_lem :
      (p : Option (Result ℕ (Option Session))) (late : Bool)
      → late ≡ true
      → is_some (round_by p late) ≡ true
  late_lem (some answer) late e = refl
  late_lem none late e = rw e refl

  Ends-Found :
      (deadline : ℕ) (answer : Result ℕ (Option Session))
      → Found (ready_round deadline) 0 answer
      → Ends deadline answer
  unfolding ready_round
  Ends-Found deadline answer f = record {
    last = f.last;
    waited = λ i before.
        let (loading, early) =
          round_none (poll (seen i) name) (ltb deadline (clock i))
            (f.waited i (omega arith) before) in
        (loading, ground arith);
    answered =
        elim (round_some (poll (seen f.last) name) (ltb deadline (clock f.last)) answer f.found) [
          | inl there ↦ inl there
          | inr (loading, late, e) ↦ inr (loading, ltb→lt _ _ late, e)
        ];
  }

  -- `_get_ready_session` ends, where every round sleeps for the poll interval at least: for any
  -- states that its rounds see, two rounds more than the intervals in the timeout are enough fuel.
  -- Up to the last round the model was loading and the deadline had not passed; the answer is what
  -- the last round saw, or the status 504 where the model was loading still behind the deadline.
  pub get_ready_session-Ends :
      (start wait_timeout : ℕ)
      → ((i : ℕ) → clock i + status_poll_interval ≤ clock (i + 1))
      → start ≤ clock 0
      → (answer : Result ℕ (Option Session)) × (get_ready_session
            (suc (suc (wait_timeout / status_poll_interval)))
            start
            wait_timeout
          ≡ some answer)
        × Ends (start + wait_timeout) answer
  unfolding get_ready_session ready_round
  get_ready_session-Ends start wait_timeout ticks begun =
      let rounds = suc (wait_timeout / status_poll_interval) in
      let late : start + wait_timeout < clock rounds =
        omega (arith, begun, clock_lem clock status_poll_interval ticks rounds) in
      let (answer, ends, found) = poll_rounds-Found (ready_round (start + wait_timeout)) rounds (
        late_lem (poll (seen rounds) name) (ltb (start + wait_timeout) (clock rounds))
          (lt→ltb _ _ late)) in
      (answer, ends, Ends-Found (start + wait_timeout) answer found)
