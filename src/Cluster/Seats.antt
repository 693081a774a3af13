-- ===== src/Cluster/Seats.antt =====
-- The workers of a chain, and the run of their shards one after the other.
use pi_ssm.Base.{
  String, Bool, false, Option, none, some, List, [], ◌∷◌, ◌≡◌, refl, ap, sym, arith, ◌==◌, eq_iff,
  map, contains, ◌∙◌,
}
use pi_ssm.Base.Dict
use pi_ssm.Base.Dict.{get-put, get-put_self}
use pi_ssm.Base.Result.{Result, ok, raise}
use pi_ssm.Shard.{ShardFault, forward}
use pi_ssm.Worker.{ModelHandle, Worker}
use pi_ssm.Worker.Running.{call_cache}
use pi_ssm.Cluster.{Network}

abbrev pub head_or_empty : List String → String
head_or_empty [] = ""
head_or_empty (a ∷ rest) = a

-- A worker of a chain: its address, its state, and its handle for the model of the chain.
pub record Seat (Tensor Cache : Type 0) : Type 0 where
  pub address : String
  pub worker : Worker Tensor Cache
  pub handle : ModelHandle Tensor Cache

module _ {Tensor Cache : Type 0} where
  abbrev pub addresses : List (Seat Tensor Cache) → List String
  addresses = map (λ s. s.address)

  abbrev pub seat_entry : List (Seat Tensor Cache) → String
  seat_entry [] = ""
  seat_entry (s ∷ rest) = s.address

  -- Each worker holds its handle under the model's name and forwards to the worker behind it; the
  -- addresses are distinct, and none is empty.
  abbrev pub IsSeated : String → List (Seat Tensor Cache) → Type 0
  IsSeated name [] = Unit
  IsSeated name (s ∷ rest) =
      (Dict.get s.worker.models name ≡ some s.handle)
      × (s.handle.next_worker_address ≡ seat_entry rest)
      × ((s.address == "") ≡ false)
      × (contains s.address (addresses rest) ≡ false)
      × IsSeated name rest

  -- The workers are on the network.
  abbrev pub IsPlaced : Network Tensor Cache → List (Seat Tensor Cache) → Type 0
  IsPlaced network [] = Unit
  IsPlaced network (s ∷ rest) = (Dict.get network s.address ≡ some s.worker) × IsPlaced network rest

  -- A seat whose shard has left a cache.
  abbrev pub served : String → Seat Tensor Cache → Option Cache → Seat Tensor Cache
  served name s cache = record {
    address = s.address;
    worker = record s.worker {
      models = Dict.put s.worker.models name (record s.handle { cache = cache });
    };
    handle = record s.handle { cache = cache };
  }

  -- The shards of a chain one after the other, each on its own cache, with the seats as they leave
  -- them; `none` if one of them raises.
  abbrev pub then_served :
      String
      → Seat Tensor Cache
      → Option Cache
      → Option (Tensor × List (Seat Tensor Cache))
      → Option (Tensor × List (Seat Tensor Cache))
  then_served name s cache none = none
  then_served name s cache (some (z, rest)) = some (z, served name s cache ∷ rest)

  abbrev pub pass_on :
      String
      → Seat Tensor Cache
      → (Tensor → Option (Tensor × List (Seat Tensor Cache)))
      → Result ShardFault Tensor × Option Cache
      → Option (Tensor × List (Seat Tensor Cache))
  pass_on name s next (raise fault, cache) = none
  pass_on name s next (ok y, cache) = then_served name s cache (next y)

  unfoldable pub pass :
      String → Bool → List (Seat Tensor Cache) → Tensor → Option (Tensor × List (Seat Tensor Cache))
  pass name reset [] x = some (x, [])
  pass name reset (s ∷ rest) x =
      pass_on name s (pass name reset rest)
        (forward s.handle.model x (some (call_cache reset s.handle)))

  abbrev pub network_after : List (Seat Tensor Cache) → Network Tensor Cache → Network Tensor Cache
  network_after [] network = network
  network_after (s ∷ rest) network = network_after rest (Dict.put network s.address s.worker)

  get-network_after :
      (seats : List (Seat Tensor Cache)) (network : Network Tensor Cache) (j : String)
      → contains j (addresses seats) ≡ false
      → Dict.get (network_after seats network) j ≡ Dict.get network j
  get-network_after [] network j h = refl
  get-network_after (s ∷ rest) network j h =
      get-network_after rest (Dict.put network s.address s.worker) j (ground arith)
      ∙ get-put network s.address j s.worker
      ∙ ground arith

  pub IsPlaced-put :
      (network : Network Tensor Cache) (k : String) (w : Worker Tensor Cache)
      (seats : List (Seat Tensor Cache))
      → contains k (addresses seats) ≡ false
      → IsPlaced network seats
      → IsPlaced (Dict.put network k w) seats
  IsPlaced-put network k w [] h p = tt
  IsPlaced-put network k w (s ∷ rest) h p = (
    get-put network k s.address w ∙ ground (arith, eq_iff k s.address, eq_iff s.address k, p.0),
    IsPlaced-put network k w rest (ground arith) p.1,
  )

  pub IsPlaced-network_after :
      (name : String) (seats : List (Seat Tensor Cache)) (network : Network Tensor Cache)
      → IsSeated name seats
      → IsPlaced (network_after seats network) seats
  IsPlaced-network_after name [] network h = tt
  IsPlaced-network_after name (s ∷ rest) network h = (
    get-network_after rest (Dict.put network s.address s.worker) s.address h.3
        ∙ get-put network s.address s.address s.worker
        ∙ ground (arith, eq_iff s.address s.address),
    IsPlaced-network_after name rest (Dict.put network s.address s.worker) h.4,
  )

  pub record Passed (name : String) (reset : Bool) (s : Seat Tensor Cache)
      (rest : List (Seat Tensor Cache)) (x z : Tensor) (seats : List (Seat Tensor Cache))
      : Type 0 where
    pub out : Tensor
    pub cache : Option Cache
    pub others : List (Seat Tensor Cache)
    pub ran : forward s.handle.model x (some (call_cache reset s.handle)) ≡ (ok out, cache)
    pub went_on : pass name reset rest out ≡ some (z, others)
    pub whole : seats ≡ served name s cache ∷ others

  pass_on_lem :
      (name : String) (reset : Bool) (s : Seat Tensor Cache) (rest : List (Seat Tensor Cache))
      (x z : Tensor) (seats : List (Seat Tensor Cache))
      (r : Result ShardFault Tensor × Option Cache)
      → forward s.handle.model x (some (call_cache reset s.handle)) ≡ r
      → pass_on name s (pass name reset rest) r ≡ some (z, seats)
      → Passed name reset s rest x z seats
  pass_on_lem name reset s rest x z seats (raise fault, cache) e h = cc
  pass_on_lem name reset s rest x z seats (ok y, cache) e h = go (pass name reset rest y) refl h
    where
      go :
          (o : Option (Tensor × List (Seat Tensor Cache)))
          → pass name reset rest y ≡ o
          → then_served name s cache o ≡ some (z, seats)
          → Passed name reset s rest x z seats
      go none p k = cc
      go (some (z', others)) p k = record {
        out = y;
        cache = cache;
        others = others;
        ran = e;
        went_on = cc;
        whole = cc;
      }

  pub pass-cons :
      (name : String) (reset : Bool) (s : Seat Tensor Cache) (rest : List (Seat Tensor Cache))
      (x z : Tensor) (seats : List (Seat Tensor Cache))
      → pass name reset (s ∷ rest) x ≡ some (z, seats)
      → Passed name reset s rest x z seats
  unfolding pass
  pass-cons name reset s rest x z seats h =
      pass_on_lem name reset s rest x z seats
        (forward s.handle.model x (some (call_cache reset s.handle))) refl h

  pub pass-nil :
      (name : String) (reset : Bool) (x z : Tensor) (after : List (Seat Tensor Cache))
      → pass name reset [] x ≡ some (z, after)
      → (z ≡ x) × (after ≡ [])
  unfolding pass
  pass-nil name reset x z after h = ground arith

  pub addresses-pass :
      (name : String) (reset : Bool) (seats : List (Seat Tensor Cache)) (x z : Tensor)
      (after : List (Seat Tensor Cache))
      → pass name reset seats x ≡ some (z, after)
      → addresses after ≡ addresses seats
  addresses-pass name reset [] x z after h = rw (pass-nil name reset x z after h).1
  addresses-pass name reset (s ∷ rest) x z after h =
      let p = pass-cons name reset s rest x z after h in
      rw p.whole (ap (◌∷◌ s.address) (addresses-pass name reset rest p.out z p.others p.went_on))

  seat_entry_lem :
      (seats : List (Seat Tensor Cache)) → seat_entry seats ≡ head_or_empty (addresses seats)
  seat_entry_lem [] = refl
  seat_entry_lem (s ∷ rest) = refl

  pub pass-IsSeated :
      (name : String) (reset : Bool) (seats : List (Seat Tensor Cache)) (x z : Tensor)
      (after : List (Seat Tensor Cache))
      → pass name reset seats x ≡ some (z, after)
      → IsSeated name seats
      → IsSeated name after
  pass-IsSeated name reset [] x z after h i = rw (pass-nil name reset x z after h).1 tt
  pass-IsSeated name reset (s ∷ rest) x z after h i =
      let p = pass-cons name reset s rest x z after h in
      let same = addresses-pass name reset rest p.out z p.others p.went_on in
      rw p.whole (
        get-put_self s.worker.models name (record s.handle { cache = p.cache }),
        i.1 ∙ seat_entry_lem rest ∙ sym (seat_entry_lem p.others ∙ ap head_or_empty same),
        i.2,
        rw same i.3,
        pass-IsSeated name reset rest p.out z p.others p.went_on i.4,
      )
