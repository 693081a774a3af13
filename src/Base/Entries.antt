-- ===== src/Base/Entries.antt =====
-- Several entries of a dictionary at once.
use Prim.Native.String.{String}
use mathlib.Core.Path.{◌≡◌, refl, ◌∙◌}
use mathlib.Core.Bool.{false}
use mathlib.Core.Option.{some}
use mathlib.Core.List.{[], ◌∷◌, map}
use native.Mathlib.Omega.{arith}
use text.Mathlib.TextEquality.{eq_iff}
use pi_ssm.Base.Lists.{contains}
use pi_ssm.Base.Dict
use pi_ssm.Base.Dict.{Dict, get-put, get-put_self}

module _ {ℓ} {V : Type ℓ} where
  abbrev pub put_all : Dict V → Dict V → Dict V
  put_all d [] = d
  put_all d ((k, v) ∷ entries) = put_all (Dict.put d k v) entries

  -- The keys of the entries are distinct.
  abbrev pub AreApart : Dict V → Type 0
  AreApart [] = Unit
  AreApart ((k, v) ∷ entries) = (contains k (map (λ e. e.0) entries) ≡ false) × AreApart entries

  -- The dictionary has the entries.
  abbrev pub Stands : Dict V → Dict V → Type ℓ
  Stands d [] = Unit
  Stands d ((k, v) ∷ entries) = (Dict.get d k ≡ some v) × Stands d entries

module _ {ℓ} {V : Type ℓ} where
  pub get-put_all :
      (d entries : Dict V) (k : String)
      → contains k (map (λ e. e.0) entries) ≡ false
      → Dict.get (put_all d entries) k ≡ Dict.get d k
  get-put_all d [] k h = refl
  get-put_all d ((j, v) ∷ entries) k h =
      get-put_all (Dict.put d j v) entries k (ground arith)
      ∙ get-put d j k v
      ∙ ground (arith, eq_iff j k)

  pub Stands-put :
      (d entries : Dict V) (k : String) (v : V)
      → contains k (map (λ e. e.0) entries) ≡ false
      → Stands d entries
      → Stands (Dict.put d k v) entries
  Stands-put d [] k v h stands = tt
  Stands-put d ((j, w) ∷ entries) k v h stands = (
    get-put d k j v ∙ ground (arith, eq_iff k j, eq_iff j k, stands.0),
    Stands-put d entries k v (ground arith) stands.1,
  )

  pub Stands-put_all : (d entries : Dict V) → AreApart entries → Stands (put_all d entries) entries
  Stands-put_all d [] apart = tt
  Stands-put_all d ((k, v) ∷ entries) apart = (
    get-put_all (Dict.put d k v) entries k apart.0 ∙ get-put_self d k v,
    Stands-put_all (Dict.put d k v) entries apart.1,
  )
