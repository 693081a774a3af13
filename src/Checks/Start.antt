-- ===== src/Checks/Start.antt =====
-- A start of the orchestrator with three manifest files.
use pi_ssm.Base.{List, none, some, [], ◌∷◌, ◌≡◌, refl}
use pi_ssm.Base.Dict
use pi_ssm.Base.Result.{ok}
use pi_ssm.Manifest.Values.{string, integer, mapping, pos, lookup, is_positive, holds}
use pi_ssm.Manifest.Validation.{
  type_error, manifest_from_dict, validate_manifest, check_fields, check_number, subscript,
  load_manifest,
}
use pi_ssm.Manifest.Registry.{get_model, register}
use pi_ssm.Server.{
  ManifestFile, load_file, register_files, register_existing_manifests, first_named, first_uncaught,
  or_else, get_model-register_existing_manifests,
}
use pi_ssm.Checks.Manifests.{document, manifest_for, after_name}

abbrev files : List ManifestFile
files =
    record { path = "a.yaml"; contents = some (ok (mapping (document (string "mamba-130m")))) }
    ∷ record { path = "b.yaml"; contents = some (ok (mapping after_name)) }
    ∷ record { path = "c.yaml"; contents = some (ok (mapping (document (string "mamba-130m")))) }
    ∷ []

fine : first_uncaught files ≡ none
unfolding first_uncaught load_file load_manifest manifest_from_dict validate_manifest check_fields
    check_number subscript lookup is_positive holds
fine = refl

get_model-register_existing_manifests_example :
    ((register_existing_manifests [] (some files)).1 ≡ none)
    × (get_model (register_existing_manifests [] (some files)).0 "mamba-130m"
        ≡ or_else (get_model [] "mamba-130m") (first_named "mamba-130m" files))
get_model-register_existing_manifests_example =
    get_model-register_existing_manifests [] files "mamba-130m" fine

-- The second file is skipped, and the third is a duplicate.
one_model :
    register_existing_manifests [] (some files)
    ≡ (("mamba-130m", manifest_for (string "mamba-130m")) ∷ [], none)
unfolding register_existing_manifests register_files load_file load_manifest manifest_from_dict
    validate_manifest check_fields check_number subscript lookup is_positive holds register
    get_model Dict.get Dict.put
one_model = refl

-- A file with a number as its name ends the start.
number_name :
    (register_existing_manifests [] (
      some (
        record { path = "a.yaml"; contents = some (ok (mapping (document (integer (pos 123))))) }
        ∷ []))).1
    ≡ some type_error
unfolding register_existing_manifests register_files load_file load_manifest manifest_from_dict
    validate_manifest check_fields check_number subscript lookup is_positive holds
number_name = refl
