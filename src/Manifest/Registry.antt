-- ===== src/Manifest/Registry.antt =====
-- `ModelRegistry` of inference/model_registry.py; each method is one step under the lock. Names are
-- texts.
use pi_ssm.Base.{
  String, Bool, true, false, Option, none, some, is_some, List, [], ◌∷◌, ◌≡◌, refl, arith, ◌==◌,
  eq_iff, if◌then◌else◌, concat,
}
use pi_ssm.Base.Dict
use pi_ssm.Base.Dict.{Dict, get-put, get-remove}
use pi_ssm.Base.Result.{Result, ok, raise}
use pi_ssm.Manifest.Defs.{Manifest}

-- The registry's models by name; `Text` and `Number` are what stands in the fields annotated as `str`
-- and as `int`.
abbrev pub ModelsOf : Type 0 → Type 0 → Type 0
ModelsOf Text Number = Dict (Manifest Text Number)

abbrev pub Models : Type 0 → Type 0
Models Number = ModelsOf String Number

abbrev pub already : String → String
already name = concat ("Model '" ∷ name ∷ "' is already registered" ∷ [])

module _ {Text Number : Type 0} where
  -- `register` of a manifest with the name `name`; `raise` is its `ValueError`.
  unfoldable pub register :
      ModelsOf Text Number
      → String
      → Manifest Text Number
      → ModelsOf Text Number × Result String (Unit {0})
  register models name manifest =
      if Dict.has models name
      then (models, raise (already name))
      else (Dict.put models name manifest, ok tt)

  -- `get`
  unfoldable pub get_model : ModelsOf Text Number → String → Option (Manifest Text Number)
  get_model models name = Dict.get models name

  -- `list_models`
  abbrev pub list_models : ModelsOf Text Number → List (Manifest Text Number)
  list_models models = Dict.values models

  unfoldable pub delete : ModelsOf Text Number → String → ModelsOf Text Number × Bool
  delete models name =
      if Dict.has models name then (Dict.remove models name, true) else (models, false)

pub data Request (Number : Type 0) : Type 0 where
  registers : Manifest String Number → Request Number
  deletes : String → Request Number

module _ {Number : Type 0} where
  -- A history lists the newest request first.
  unfoldable pub run_requests : List (Request Number) → Models Number
  run_requests [] = []
  run_requests (registers manifest ∷ older) =
      (register (run_requests older) manifest.name manifest).0
  run_requests (deletes name ∷ older) = (delete (run_requests older) name).0

  -- The manifest that a history leaves for a name: the first that was registered since the last
  -- deletion of the name.
  unfoldable pub standing : String → List (Request Number) → Option (Manifest String Number)
  standing name [] = none
  standing name (registers manifest ∷ older) =
      let before = standing name older in
      if manifest.name == name then if is_some before then before else some manifest else before
  standing name (deletes other ∷ older) =
      let before = standing name older in if other == name then none else before

  get-register :
      (models : Models Number) (manifest : Manifest String Number) (name : String)
      → Dict.get (register models manifest.name manifest).0 name ≡ (
          if manifest.name == name
          then if is_some (Dict.get models name) then Dict.get models name else some manifest
          else Dict.get models name)
  unfolding register
  get-register models manifest name =
      ground (arith, eq_iff manifest.name name, get-put models manifest.name name manifest)

  get-delete :
      (models : Models Number) (other name : String)
      → Dict.get (delete models other).0 name
        ≡ (if other == name then none else Dict.get models name)
  unfolding delete
  get-delete models other name = ground (arith, eq_iff other name, get-remove models other name)

  -- After any history of registrations and deletions, `get` gives the first manifest that was
  -- registered under the name since its last deletion.
  pub get_model-run_requests :
      (history : List (Request Number)) (name : String)
      → get_model (run_requests history) name ≡ standing name history
  unfolding get_model run_requests standing
  get_model-run_requests [] name = unfold Dict.get in refl
  get_model-run_requests (registers manifest ∷ older) name =
      rw (get-register (run_requests older) manifest name, get_model-run_requests older name) refl
  get_model-run_requests (deletes other ∷ older) name =
      rw (get-delete (run_requests older) other name, get_model-run_requests older name) refl
