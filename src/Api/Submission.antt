-- ===== src/Api/Submission.antt =====
-- POST /models and GET /models of orchestrator/http_api.py, over the parsed values of
-- Manifest.Values. A response is the record of its fields, an HTTP error its status code with the
-- detail.
use pi_ssm.Base.{String, List, ℕ}
use pi_ssm.Base.Result.{Result, ok, raise}
use pi_ssm.Manifest.Defs.{Manifest}
use pi_ssm.Manifest.Values.{Value, mapping, string}
use pi_ssm.Manifest.Validation.{ManifestFault, type_error, key_error, manifest_from_dict}
use pi_ssm.Manifest.Registry.{ModelsOf, register, list_models}

-- The causes of an HTTP error; `internal` is an exception that the route does not handle.
pub data Detail : Type 0 where
  invalid_yaml : String → Detail
  not_a_mapping : Detail
  manifest_error : ManifestFault → Detail
  conflict : String → Detail
  internal : Detail

abbrev pub HttpError : Type 0
HttpError = ℕ × Detail

-- A registry's models by what the documents held.
abbrev pub Registered : Type 0
Registered = ModelsOf Value Value

-- `except ManifestError`
abbrev pub manifest_fault : ManifestFault → HttpError
manifest_fault type_error = (500, internal)
manifest_fault (key_error name) = (500, internal)
manifest_fault fault = (400, manifest_error fault)

abbrev pub answered :
    Manifest Value Value
    → Registered × Result String (Unit {0})
    → Registered × Result HttpError (Manifest Value Value)
answered manifest (models, raise text) = (models, raise (409, conflict text))
answered manifest (models, ok done) = (models, ok manifest)

-- A name that is no text passes the validation only as a sequence or a mapping, which is no key of a
-- `dict`.
abbrev pub register_by :
    Registered → Manifest Value Value → Value → Registered × Result HttpError (Manifest Value Value)
register_by models manifest (string name) = answered manifest (register models name manifest)
register_by models manifest name = (models, raise (500, internal))

abbrev pub accepted :
    Registered
    → Result ManifestFault (Manifest Value Value)
    → Registered × Result HttpError (Manifest Value Value)
accepted models (raise fault) = (models, raise (manifest_fault fault))
accepted models (ok manifest) = register_by models manifest manifest.name

abbrev pub submitted :
    Registered → Result String Value → Registered × Result HttpError (Manifest Value Value)
submitted models (raise text) = (models, raise (400, invalid_yaml text))
submitted models (ok (mapping entries)) = accepted models (manifest_from_dict (mapping entries))
submitted models (ok document) = (models, raise (400, not_a_mapping))

-- POST /models, by what `yaml.safe_load` gives; `_manifest_to_dict` is the record itself.
unfoldable pub submit_model :
    Registered → Result String Value → Registered × Result HttpError (Manifest Value Value)
submit_model models document = submitted models document

-- GET /models
abbrev pub get_models : Registered → List (Manifest Value Value)
get_models models = list_models models
