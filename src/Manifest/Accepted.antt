-- ===== src/Manifest/Accepted.antt =====
-- Which documents are manifests.
use pi_ssm.Base.{
  String, true, false, Option, none, some, is_some, if◌then◌else◌, Bool-cases, inl, inr, List, [],
  ◌∷◌, ◌≡◌, refl,
}
use pi_ssm.Base.Result.{ok, raise}
use pi_ssm.Manifest.Defs.{Manifest}
use pi_ssm.Manifest.Values.{Value, Entries, mapping, lookup, holds, is_one_of, is_positive}
use pi_ssm.Manifest.Validation.{
  missing_field, supported_architectures, supported_input_types, required_fields, subscript,
  check_fields, check_number, validate_manifest, manifest_from_dict,
}

-- The mapping has the fields of the manifest.
pub record IsFrom (entries : Entries) (m : Manifest Value Value) : Type 0 where
  pub name : lookup "name" entries ≡ some m.name
  pub arch : lookup "arch" entries ≡ some m.arch
  pub checkpoint : lookup "checkpoint" entries ≡ some m.checkpoint
  pub layers : lookup "layers" entries ≡ some m.layers
  pub hidden_dim : lookup "hidden_dim" entries ≡ some m.hidden_dim
  pub state_dim : lookup "state_dim" entries ≡ some m.state_dim
  pub input_type : lookup "input_type" entries ≡ some m.input_type
  pub tokenizer : lookup "tokenizer" entries ≡ some m.tokenizer

-- The fields pass the checks.
pub record IsValid (m : Manifest Value Value) : Type 0 where
  pub arch : is_one_of supported_architectures m.arch ≡ true
  pub input_type : is_one_of supported_input_types m.input_type ≡ true
  pub layers : is_positive m.layers ≡ true
  pub hidden_dim : is_positive m.hidden_dim ≡ true
  pub state_dim : is_positive m.state_dim ≡ true
  pub name : holds " " m.name ≡ some false

subscript_lem :
    (entries : Entries) (field : String) (v : Value)
    → lookup field entries ≡ some v
    → subscript field (mapping entries) ≡ ok v
unfolding subscript
subscript_lem entries field v there = rw there refl

holds_lem :
    (entries : Entries) (field : String) (v : Value)
    → lookup field entries ≡ some v
    → holds field (mapping entries) ≡ some true
unfolding holds
holds_lem entries field v there = rw there refl

check_fields_lem :
    (entries : Entries) (m : Manifest Value Value)
    → IsFrom entries m
    → check_fields required_fields (mapping entries) ≡ ok tt
unfolding check_fields
check_fields_lem entries m from =
    rw
      (
        holds_lem entries "name" m.name from.name,
        holds_lem entries "arch" m.arch from.arch,
        holds_lem entries "checkpoint" m.checkpoint from.checkpoint,
        holds_lem entries "layers" m.layers from.layers,
        holds_lem entries "hidden_dim" m.hidden_dim from.hidden_dim,
        holds_lem entries "state_dim" m.state_dim from.state_dim,
        holds_lem entries "input_type" m.input_type from.input_type,
        holds_lem entries "tokenizer" m.tokenizer from.tokenizer,
      )
      refl

check_number_lem :
    (entries : Entries) (field : String) (v : Value)
    → lookup field entries ≡ some v
    → is_positive v ≡ true
    → check_number field (mapping entries) ≡ ok tt
unfolding check_number
check_number_lem entries field v there positive =
    rw (subscript_lem entries field v there, positive) refl

validate_lem :
    (entries : Entries) (m : Manifest Value Value)
    → IsFrom entries m
    → IsValid m
    → validate_manifest (mapping entries) ≡ ok tt
unfolding validate_manifest
validate_lem entries m from valid =
    rw
      (
        check_fields_lem entries m from,
        subscript_lem entries "arch" m.arch from.arch,
        valid.arch,
        subscript_lem entries "input_type" m.input_type from.input_type,
        valid.input_type,
        check_number_lem entries "layers" m.layers from.layers valid.layers,
        check_number_lem entries "hidden_dim" m.hidden_dim from.hidden_dim valid.hidden_dim,
        check_number_lem entries "state_dim" m.state_dim from.state_dim valid.state_dim,
        subscript_lem entries "name" m.name from.name,
        valid.name,
      )
      refl

-- A mapping with the eight fields whose values pass the checks is accepted as the manifest with these
-- values.
pub manifest_from_dict-IsValid :
    (entries : Entries) (m : Manifest Value Value)
    → IsFrom entries m
    → IsValid m
    → manifest_from_dict (mapping entries) ≡ ok m
unfolding manifest_from_dict
manifest_from_dict-IsValid entries m from valid =
    rw
      (
        validate_lem entries m from valid,
        subscript_lem entries "name" m.name from.name,
        subscript_lem entries "arch" m.arch from.arch,
        subscript_lem entries "checkpoint" m.checkpoint from.checkpoint,
        subscript_lem entries "layers" m.layers from.layers,
        subscript_lem entries "hidden_dim" m.hidden_dim from.hidden_dim,
        subscript_lem entries "state_dim" m.state_dim from.state_dim,
        subscript_lem entries "input_type" m.input_type from.input_type,
        subscript_lem entries "tokenizer" m.tokenizer from.tokenizer,
      )
      refl

-- The first field of a list that a mapping lacks.
unfoldable pub first_missing : List String → Entries → Option String
first_missing [] entries = none
first_missing (field ∷ fields) entries =
    let rest = first_missing fields entries in
    if is_some (lookup field entries) then rest else some field

check_fields_missing :
    (fields : List String) (entries : Entries) (field : String)
    → first_missing fields entries ≡ some field
    → check_fields fields (mapping entries) ≡ raise (missing_field field)
unfolding check_fields first_missing holds
check_fields_missing [] entries field h = absurd (cc)
check_fields_missing (first ∷ fields) entries field h =
    elim (Bool-cases (is_some (lookup first entries))) [
      | inl there ↦ rw there (check_fields_missing fields entries field (rw there at h))
      | inr missing ↦ let e = rw missing at h in rw missing (cc)
    ]

-- A mapping that lacks a required field is refused with the error that names the first such field.
pub manifest_from_dict_missing :
    (entries : Entries) (field : String)
    → first_missing required_fields entries ≡ some field
    → manifest_from_dict (mapping entries) ≡ raise (missing_field field)
unfolding manifest_from_dict validate_manifest
manifest_from_dict_missing entries field h =
    rw (check_fields_missing required_fields entries field h) refl
