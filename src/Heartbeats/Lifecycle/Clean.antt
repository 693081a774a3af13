-- ===== src/Heartbeats/Lifecycle/Clean.antt =====
-- The channels of a HeartbeatClient, in any order of its calls and of the steps of its thread.
use pi_ssm.Base.{
  ℕ, Bool, true, false, not, Option, none, some, is_some, List, [], ◌∷◌, ◌≡◌, refl, ap, sym, ◌∙◌,
  arith, Bool-cases, inl, inr, false≢true,
}
use pi_ssm.Heartbeats.{Outcome, responded, rpc_error, raises}
use pi_ssm.Heartbeats.Lifecycle.{
  Phase, starting, testing, calling, waiting, ended, raised, crashed, Client, close, closed, start,
  stop, stop_end, run_at, run_by, run_thread, Step, starts, runs, stops, joins, IsReachable,
  created, next,
}

-- A thread has a channel, and has not missed one; a client without a thread has none.
abbrev pub has_channel : Option Phase → Option ℕ → Bool
has_channel none channel = not (is_some channel)
has_channel (some crashed) channel = false
has_channel (some other) channel = is_some channel

abbrev pub in_list : Option ℕ → List ℕ
in_list none = []
in_list (some k) = k ∷ []

-- The channel that is open is the client's own.
pub record IsClean (c : Client) : Type 0 where
  pub owned : has_channel c.thread c.channel ≡ true
  pub one : c.open_channels ≡ in_list c.channel

close_own : (k : ℕ) → close k (k ∷ []) ≡ []
unfolding close
close_own k = ground arith

closed_own : (channel : Option ℕ) → closed channel (in_list channel) ≡ []
unfolding close
closed_own none = refl
closed_own (some k) = close_own k

IsClean-run_at :
    (c : Client) (outcome : Outcome) (phase : Phase) (channel : Option ℕ)
    → c.channel ≡ channel
    → has_channel (some phase) channel ≡ true
    → IsClean c
    → IsClean (run_at c outcome phase)
IsClean-run_at c outcome crashed channel e h clean = absurd (false≢true h)
IsClean-run_at c outcome ended channel e h clean = clean
IsClean-run_at c outcome raised channel e h clean = clean
IsClean-run_at c outcome phase none e h clean = absurd (false≢true h)
IsClean-run_at c outcome starting (some k) e h clean = record { owned = rw e refl; one = clean.one }
IsClean-run_at c outcome testing (some k) e h clean = elim (Bool-cases c.stop_event) [
  | inl stopped ↦ record { owned = rw (stopped, e) refl; one = clean.one }
  | inr on ↦ record { owned = rw (on, e) refl; one = clean.one }
]
IsClean-run_at c rpc_error calling (some k) e h clean = rw e (record {
  owned = refl;
  one =
      ap (λ channels. c.next_channel ∷ close k channels) (clean.one ∙ ap in_list e)
      ∙ ap (◌∷◌ c.next_channel) (close_own k);
})
IsClean-run_at c raises calling (some k) e h clean = record { owned = rw e refl; one = clean.one }
IsClean-run_at c (responded interval_ms) calling (some k) e h clean = record {
  owned = rw e refl;
  one = clean.one;
}
IsClean-run_at c outcome waiting (some k) e h clean = record { owned = rw e refl; one = clean.one }

pub owned_at :
    (c : Client) (thread : Option Phase)
    → c.thread ≡ thread
    → IsClean c
    → has_channel thread c.channel ≡ true
owned_at c thread e clean = ap (λ t. has_channel t c.channel) (sym e) ∙ clean.owned

IsClean-run_by :
    (c : Client) (outcome : Outcome) (thread : Option Phase)
    → c.thread ≡ thread
    → IsClean c
    → IsClean (run_by c outcome thread)
IsClean-run_by c outcome none e clean = clean
IsClean-run_by c outcome (some phase) e clean =
    IsClean-run_at c outcome phase c.channel refl (owned_at c (some phase) e clean) clean

pub IsClean-run_thread :
    (c : Client) (outcome : Outcome) → IsClean c → IsClean (run_thread c outcome)
unfolding run_thread
IsClean-run_thread c outcome clean = IsClean-run_by c outcome c.thread refl clean

no_channel : (channel : Option ℕ) → has_channel none channel ≡ true → in_list channel ≡ []
no_channel none h = refl
no_channel (some k) h = absurd (false≢true h)

pub closed_all : (c : Client) → IsClean c → (stop_end c).open_channels ≡ []
unfolding stop_end
closed_all c clean = ap (closed c.channel) clean.one ∙ closed_own c.channel

IsClean-Step : {c d : Client} → Step c d → IsClean c → IsClean d
unfolding start stop stop_end
IsClean-Step (starts c idle free) clean = record {
  owned = refl;
  one = ap (◌∷◌ c.next_channel) (clean.one ∙ no_channel c.channel (owned_at c none idle clean));
}
IsClean-Step (runs c outcome) clean = IsClean-run_thread c outcome clean
IsClean-Step (stops c free) clean = record { owned = clean.owned; one = clean.one }
IsClean-Step (joins c waited done) clean = record { owned = refl; one = closed_all c clean }

pub IsClean-IsReachable : {c : Client} → IsReachable c → IsClean c
IsClean-IsReachable (created interval_ms) = record { owned = refl; one = refl }
IsClean-IsReachable (next reached step) = IsClean-Step step (IsClean-IsReachable reached)
