-- ===== src/Checks/Manifests.antt =====
-- Manifests from documents, and a registry of them.
use pi_ssm.Base.{String, some, [], ◌∷◌, ◌≡◌, ◌↔◌, refl}
use pi_ssm.Base.Result.{ok, raise}
use pi_ssm.Manifest.Defs.{Manifest}
use pi_ssm.Manifest.Values.{
  Value, string, integer, mapping, pos, Entries, no_entry, entry, lookup, is_positive, holds,
}
use pi_ssm.Manifest.Validation.{
  missing_field, type_error, required_fields, manifest_from_dict, validate_manifest, check_fields,
  check_number, subscript,
}
use pi_ssm.Manifest.Accepted.{IsFrom, IsValid, first_missing, manifest_from_dict_missing}
use pi_ssm.Manifest.Sound.{manifest_from_dict_iff}
use pi_ssm.Manifest.Registry.{
  registers, deletes, run_requests, standing, get_model, get_model-run_requests,
}
use pi_ssm.Checks.Orchestrator.{mamba}

abbrev field : String → Value → Entries → Entries
field name v rest = entry (string name) v rest

abbrev pub after_name : Entries
after_name = field "arch" (string "mamba") (
    field "checkpoint" (string "state-spaces/mamba-130m-hf") (
      field "layers" (integer (pos 24)) (
        field "hidden_dim" (integer (pos 768)) (
          field "state_dim" (integer (pos 16)) (
            field "input_type" (string "text") (field "tokenizer" (string "gpt_neox") no_entry))))))

abbrev pub document : Value → Entries
document name = field "name" name after_name

abbrev pub manifest_for : Value → Manifest Value Value
manifest_for name = record {
  name = name;
  arch = string "mamba";
  checkpoint = string "state-spaces/mamba-130m-hf";
  layers = integer (pos 24);
  hidden_dim = integer (pos 768);
  state_dim = integer (pos 16);
  input_type = string "text";
  tokenizer = string "gpt_neox";
}

pub from : IsFrom (document (string "mamba-130m")) (manifest_for (string "mamba-130m"))
unfolding lookup
from = record {
  name = refl;
  arch = refl;
  checkpoint = refl;
  layers = refl;
  hidden_dim = refl;
  state_dim = refl;
  input_type = refl;
  tokenizer = refl;
}

pub valid : IsValid (manifest_for (string "mamba-130m"))
unfolding is_positive holds
valid = record {
  arch = refl;
  input_type = refl;
  layers = refl;
  hidden_dim = refl;
  state_dim = refl;
  name = refl;
}

manifest_from_dict_iff_example :
    (manifest_from_dict (mapping (document (string "mamba-130m")))
      ≡ ok (manifest_for (string "mamba-130m")))
    ↔ (IsFrom (document (string "mamba-130m")) (manifest_for (string "mamba-130m"))
        × IsValid (manifest_for (string "mamba-130m")))
manifest_from_dict_iff_example =
    manifest_from_dict_iff (document (string "mamba-130m")) (manifest_for (string "mamba-130m"))

accepted :
    manifest_from_dict (mapping (document (string "mamba-130m")))
    ≡ ok (manifest_for (string "mamba-130m"))
accepted =
    (manifest_from_dict_iff (document (string "mamba-130m")) (manifest_for (string "mamba-130m"))).1
      (from, valid)

-- A number as the name is no `ManifestError`.
number_name : manifest_from_dict (mapping (document (integer (pos 123)))) ≡ raise type_error
unfolding manifest_from_dict validate_manifest check_fields check_number subscript lookup
    is_positive holds
number_name = refl

no_name : first_missing required_fields after_name ≡ some "name"
unfolding first_missing lookup
no_name = refl

manifest_from_dict_missing_example :
    manifest_from_dict (mapping after_name) ≡ raise (missing_field "name")
manifest_from_dict_missing_example = manifest_from_dict_missing after_name "name" no_name

get_model-run_requests_example :
    get_model
      (run_requests (registers mamba ∷ deletes "mamba-130m" ∷ registers mamba ∷ []))
      "mamba-130m"
    ≡ standing "mamba-130m" (registers mamba ∷ deletes "mamba-130m" ∷ registers mamba ∷ [])
get_model-run_requests_example =
    get_model-run_requests (registers mamba ∷ deletes "mamba-130m" ∷ registers mamba ∷ [])
      "mamba-130m"
