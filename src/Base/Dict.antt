-- ===== src/Base/Dict.antt =====
-- Python's `dict` with text keys: an association list in insertion order. A write to a present key
-- keeps its place, a write to a new key goes to the end, a deletion drops the entry.
use Prim.Native.String.{String}
use mathlib.Core.Path.{◌≡◌, refl}
use mathlib.Core.Bool.{Bool}
use mathlib.Core.Option.{Option, none, some}
use mathlib.Core.List.{List, [], ◌∷◌, ◌++◌, map}
use native.Mathlib.Omega.{arith}
use text.Mathlib.Text.{◌==◌}
use text.Mathlib.TextEquality.{eq_iff}
use text.Mathlib.TextPositions.{eq_refl}
use pi_ssm.Base.Tests.{if◌then◌else◌, is_some}
use pi_ssm.Base.Lists.{contains}

abbrev pub Dict {ℓ} : Type ℓ → Type ℓ
Dict V = List (String × V)

module _ {ℓ} {V : Type ℓ} where
  abbrev pub empty : Dict V
  empty = []

  -- `d.get(k)`
  unfoldable pub get : Dict V → String → Option V
  get [] k = none
  get ((j, v) ∷ d) k = if j == k then some v else get d k

  -- `k in d`
  abbrev pub has : Dict V → String → Bool
  has d k = is_some (get d k)

  -- `d[k] = v`
  unfoldable pub put : Dict V → String → V → Dict V
  put [] k v = (k, v) ∷ []
  put ((j, w) ∷ d) k v = if j == k then (j, v) ∷ d else (j, w) ∷ put d k v

  -- `del d[k]`, `d.pop(k, None)`
  unfoldable pub remove : Dict V → String → Dict V
  remove [] k = []
  remove ((j, w) ∷ d) k = let rest = remove d k in if j == k then rest else (j, w) ∷ rest

  abbrev pub keys : Dict V → List String
  keys = map (λ e. e.0)

  -- `list(d.values())`
  abbrev pub values : Dict V → List V
  values = map (λ e. e.1)

  -- A key that was written has the new value, any other key has its old one.
  pub get-put :
      (d : Dict V) (written key : String) (value : V)
      → get (put d written value) key ≡ (if written == key then some value else get d key)
  unfolding get put
  get-put [] k j v = refl
  get-put ((i, w) ∷ d) k j v = ground (arith, eq_iff k j, eq_iff i k, eq_iff i j, get-put d k j v)

  -- A key that was dropped is missing, any other key has its value.
  pub get-remove :
      (d : Dict V) (dropped key : String)
      → get (remove d dropped) key ≡ (if dropped == key then none else get d key)
  unfolding get remove
  get-remove [] k j = ground arith
  get-remove ((i, w) ∷ d) k j = ground (arith, get-remove d k j, eq_iff i k, eq_iff i j, eq_iff k j)

  -- A new key goes to the end.
  pub put_absent : (d : Dict V) (k : String) (v : V) → get d k ≡ none → put d k v ≡ d ++ (k, v) ∷ []
  unfolding get put
  put_absent [] k v h = refl
  put_absent ((j, w) ∷ d) k v h = ground (arith, put_absent d k v)

  pub contains-keys : (d : Dict V) (k : String) → contains k (keys d) ≡ has d k
  unfolding get
  contains-keys [] k = refl
  contains-keys ((j, v) ∷ d) k = ground (arith, contains-keys d k)

  -- A write keeps the keys and their order, a new key goes to the end.
  pub keys-put :
      (d : Dict V) (k : String) (v : V)
      → keys (put d k v) ≡ (if has d k then keys d else keys d ++ k ∷ [])
  unfolding get put
  keys-put [] k v = refl
  keys-put ((j, w) ∷ d) k v = ground (arith, keys-put d k v)

  pub remove_absent : (d : Dict V) (k : String) → get d k ≡ none → remove d k ≡ d
  unfolding get remove
  remove_absent [] k h = refl
  remove_absent ((j, w) ∷ d) k h = ground (arith, remove_absent d k)

  -- A deletion right after the write of a new key restores the dictionary, order included.
  pub remove-put : (d : Dict V) (k : String) (v : V) → get d k ≡ none → remove (put d k v) k ≡ d
  unfolding get put remove
  remove-put [] k v h = ground (arith, eq_iff k k)
  remove-put ((j, w) ∷ d) k v h = ground (arith, eq_iff k k, remove-put d k v)

module _ {ℓ} {V : Type ℓ} where
  pub get-put_self : (d : Dict V) (k : String) (v : V) → get (put d k v) k ≡ some v
  get-put_self d k v = rw (get-put, eq_refl)

  pub put-put : (d : Dict V) (k : String) (v w : V) → put (put d k v) k w ≡ put d k w
  unfolding put
  put-put [] k v w = ground (arith, eq_iff k k)
  put-put ((j, u) ∷ d) k v w = ground (arith, put-put d k v w)
