-- ===== src/Manifest/Validation.antt =====
-- `validate_manifest`, `manifest_from_dict` and `load_manifest` of inference/manifest.py.
use pi_ssm.Base.{String, Bool, true, false, Option, none, some, List, [], ◌∷◌}
use pi_ssm.Base.Result.{Result, ok, raise, ◌>>=◌}
use pi_ssm.Manifest.Defs.{Manifest}
use pi_ssm.Manifest.Values.{Value, mapping, lookup, holds, is_one_of, is_positive}

-- `ManifestError` with its causes, and the exceptions that a malformed value raises.
pub data ManifestFault : Type 0 where
  missing_field : String → ManifestFault
  unsupported_arch : Value → ManifestFault
  unsupported_input_type : Value → ManifestFault
  not_positive : String → Value → ManifestFault
  has_spaces : Value → ManifestFault
  file_not_found : String → ManifestFault
  type_error : ManifestFault
  key_error : String → ManifestFault
  yaml_error : String → ManifestFault

abbrev pub supported_architectures : List String
supported_architectures = "mamba" ∷ "s4" ∷ "llm-transformer" ∷ []

abbrev pub supported_input_types : List String
supported_input_types = "text" ∷ "timeseries" ∷ "audio" ∷ []

abbrev pub required_fields : List String
required_fields =
    "name" ∷ "arch" ∷ "checkpoint" ∷ "layers" ∷ "hidden_dim" ∷ "state_dim" ∷ "input_type"
    ∷ "tokenizer" ∷ []

abbrev pub found : String → Option Value → Result ManifestFault Value
found name none = raise (key_error name)
found name (some v) = ok v

-- `data[name]`
unfoldable pub subscript : String → Value → Result ManifestFault Value
subscript name (mapping entries) = found name (lookup name entries)
subscript name v = raise type_error

abbrev pub require :
    String → Result ManifestFault (Unit {0}) → Option Bool → Result ManifestFault (Unit {0})
require field rest none = raise type_error
require field rest (some false) = raise (missing_field field)
require field rest (some true) = rest

-- The loop over `REQUIRED_FIELDS`.
unfoldable pub check_fields : List String → Value → Result ManifestFault (Unit {0})
check_fields [] document = ok tt
check_fields (field ∷ fields) document =
    require field (check_fields fields document) (holds field document)

abbrev pub check : Bool → ManifestFault → Result ManifestFault (Unit {0})
check true fault = ok tt
check false fault = raise fault

-- A round of the loop over the numbers.
unfoldable pub check_number : String → Value → Result ManifestFault (Unit {0})
check_number field document = do
  number ← subscript field document
  check (is_positive number) (not_positive field number)

abbrev pub no_space : Value → Option Bool → Result ManifestFault (Unit {0})
no_space name none = raise type_error
no_space name (some true) = raise (has_spaces name)
no_space name (some false) = ok tt

unfoldable pub validate_manifest : Value → Result ManifestFault (Unit {0})
validate_manifest document = do
  fields ← check_fields required_fields document
  arch ← subscript "arch" document
  arch_ok ← check (is_one_of supported_architectures arch) (unsupported_arch arch)
  input_type ← subscript "input_type" document
  type_ok ← check (is_one_of supported_input_types input_type) (unsupported_input_type input_type)
  layers_ok ← check_number "layers" document
  hidden_ok ← check_number "hidden_dim" document
  state_ok ← check_number "state_dim" document
  name ← subscript "name" document
  no_space name (holds " " name)

unfoldable pub manifest_from_dict : Value → Result ManifestFault (Manifest Value Value)
manifest_from_dict document = do
  valid ← validate_manifest document
  name ← subscript "name" document
  arch ← subscript "arch" document
  checkpoint ← subscript "checkpoint" document
  layers ← subscript "layers" document
  hidden_dim ← subscript "hidden_dim" document
  state_dim ← subscript "state_dim" document
  input_type ← subscript "input_type" document
  tokenizer ← subscript "tokenizer" document
  ok (record {
    name = name;
    arch = arch;
    checkpoint = checkpoint;
    layers = layers;
    hidden_dim = hidden_dim;
    state_dim = state_dim;
    input_type = input_type;
    tokenizer = tokenizer;
  })

abbrev pub parsed : Result String Value → Result ManifestFault (Manifest Value Value)
parsed (raise text) = raise (yaml_error text)
parsed (ok document) = manifest_from_dict document

-- `load_manifest`, by what `yaml.safe_load` gives for the file, `none` for a file that is not there.
unfoldable pub load_manifest :
    String → Option (Result String Value) → Result ManifestFault (Manifest Value Value)
load_manifest path none = raise (file_not_found path)
load_manifest path (some contents) = parsed contents
