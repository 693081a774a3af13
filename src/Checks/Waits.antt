-- ===== src/Checks/Waits.antt =====
-- A wait of a load whose report is lost.
use pi_ssm.Base.{none, some, ◌≡◌, refl}
use pi_ssm.Base.Dict
use pi_ssm.Base.Result.{raise}
use pi_ssm.Results.{ResultStore, new_store, create_slot, timeout_error, wait, wait_begin, wait_end}
use pi_ssm.Pipeline.Loading.{ShardReadyResult, load_wait}

abbrev store : ResultStore ShardReadyResult
store = create_slot new_store "shard:tiny:a"

-- Without a timeout it does not end.
unbounded_wait : load_wait none store "shard:tiny:a" ≡ (store, none)
unfolding create_slot wait wait_begin wait_end Dict.get Dict.put
unbounded_wait = refl

bounded_wait :
    (load_wait (some 5) store "shard:tiny:a").1 ≡ some (raise (timeout_error "shard:tiny:a"))
unfolding create_slot wait wait_begin wait_end Dict.get Dict.put
bounded_wait = refl
