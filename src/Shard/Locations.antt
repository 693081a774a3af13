-- ===== src/Shard/Locations.antt =====
-- `TensorLocationSpec` and `tensor_locations_for_range` of inference/shard.py. Names of tensors have
-- ASCII digits and no line breaks, where the regular expression also takes other digits.
pub mod Cover
use Prim.Native.Char.{Char, code}
use Prim.Native.String.{[] as nil, ◌∷◌ as ◌∷ₛ◌}
use pi_ssm.Base.{
  ℕ, zero, suc, ◌+◌, ◌-◌, ◌*◌, String, Bool, true, false, ◌&&◌, Option, none, some, List, [], ◌∷◌,
  ◌++◌, if◌then◌else◌, eqb, leb, ltb, concat,
}
use pi_ssm.Base.Decimal.{decimal, is_digit}
use pi_ssm.Base.Dict
use pi_ssm.Base.Dict.{Dict}
use pi_ssm.Base.Result.{Result, ok, raise, ◌>>=◌}

pub record TensorLocationSpec : Type 0 where
  pub dest_name : String
  pub source_name : String
  pub source_file : String

-- The text behind a prefix.
unfoldable pub behind : String → String → Option String
behind nil s = some s
behind (c ∷ₛ prefix) nil = none
behind (c ∷ₛ prefix) (d ∷ₛ s) = if eqb (code c) (code d) then behind prefix s else none

-- The digits at the front of a text, read behind the number `n`, and the text behind them.
unfoldable pub read_digits : ℕ → String → ℕ × String
read_digits n nil = (n, nil)
read_digits n (c ∷ₛ s) = if is_digit c then read_digits (n * 10 + (code c - 48)) s else (n, c ∷ₛ s)

-- A number of at least one digit.
abbrev pub read_number : String → Option (ℕ × String)
read_number nil = none
read_number (c ∷ₛ s) = if is_digit c then some (read_digits 0 (c ∷ₛ s)) else none

abbrev pub nonempty : String → Option String
nonempty nil = none
nonempty (c ∷ₛ s) = some (c ∷ₛ s)

abbrev pub in_option {ℓ κ} : {A : Type ℓ} {B : Type κ} → Option A → (A → Option B) → Option B
in_option none f = none
in_option (some a) f = f a

-- `_LAYER_NAME_RE.match`: the layer index of a tensor's name, and the name inside the layer.
unfoldable pub layer_of_name : String → Option (ℕ × String)
unfolding behind read_digits
layer_of_name name = in_option (behind "backbone.layers." name) λ rest.
    in_option (read_number rest) λ number.
      in_option (behind "." number.1)
        λ inner. in_option (nonempty inner) λ suffix. some (number.0, suffix)

abbrev pub in_range : ℕ → ℕ → ℕ → Bool
in_range layer_start layer_end layer_idx = leb layer_start layer_idx && ltb layer_idx layer_end

abbrev pub layer_location : ℕ → String → String → ℕ × String → TensorLocationSpec
layer_location layer_start name source_file (layer_idx, suffix) = record {
  dest_name = concat ("layers." ∷ decimal (layer_idx - layer_start) ∷ "." ∷ suffix ∷ []);
  source_name = name;
  source_file = source_file;
}

-- What the loop over the weight map appends for one tensor.
abbrev pub locate : ℕ → ℕ → String → String → Option (ℕ × String) → List TensorLocationSpec
locate layer_start layer_end name source_file none = []
locate layer_start layer_end name source_file (some found) =
    if in_range layer_start layer_end found.0
    then layer_location layer_start name source_file found ∷ []
    else []

-- The loop over the weight map.
unfoldable pub layer_locations : Dict String → ℕ → ℕ → List TensorLocationSpec
layer_locations [] layer_start layer_end = []
layer_locations ((name, source_file) ∷ rest) layer_start layer_end =
    locate layer_start layer_end name source_file (layer_of_name name)
    ++ layer_locations rest layer_start layer_end

-- `TensorLocationSpec(dest_name, source_name, weight_map[source_name])`, where a missing name raises
-- `KeyError`.
abbrev pub spec_for : String → String → Option String → Result String TensorLocationSpec
spec_for dest_name source_name none = raise source_name
spec_for dest_name source_name (some source_file) =
    ok (record { dest_name = dest_name; source_name = source_name; source_file = source_file })

unfoldable pub first_locations : Dict String → Bool → Result String (List TensorLocationSpec)
first_locations weight_map false = ok []
first_locations weight_map true = do
  embeddings ←
      spec_for "embeddings.weight" "backbone.embeddings.weight"
        (Dict.get weight_map "backbone.embeddings.weight")
  ok (embeddings ∷ [])

-- The head's own tensor, or the embedding's where the two are tied.
abbrev pub head_source : Bool → String
head_source true = "lm_head.weight"
head_source false = "backbone.embeddings.weight"

unfoldable pub last_locations : Dict String → Bool → Result String (List TensorLocationSpec)
last_locations weight_map false = ok []
last_locations weight_map true = do
  norm ←
      spec_for "norm_f.weight" "backbone.norm_f.weight"
        (Dict.get weight_map "backbone.norm_f.weight")
  let source_name = head_source (Dict.has weight_map "lm_head.weight")
  head ← spec_for "lm_head.weight" source_name (Dict.get weight_map source_name)
  ok (norm ∷ head ∷ [])

unfoldable pub tensor_locations_for_range :
    Dict String → ℕ → ℕ → Bool → Bool → Result String (List TensorLocationSpec)
unfolding first_locations last_locations
tensor_locations_for_range weight_map layer_start layer_end is_first is_last = do
  first ← first_locations weight_map is_first
  last ← last_locations weight_map is_last
  ok (first ++ layer_locations weight_map layer_start layer_end ++ last)
