-- ===== src/Api/Submitted.antt =====
-- What POST /models answers, and what it leaves in the registry.
use pi_ssm.Base.{
  String, none, some, is_some, [], ◌∷◌, ◌++◌, ◌≡◌, refl, ◌∙◌, Option-cases, inl, inr, if◌then◌else◌,
}
use pi_ssm.Base.Dict.{put_absent}
use pi_ssm.Base.Result.{Result, ok, raise}
use pi_ssm.Manifest.Defs.{Manifest}
use pi_ssm.Manifest.Values.{
  Value, Entries, mapping, string, null, boolean, integer, other, sequence,
}
use pi_ssm.Manifest.Validation.{ManifestFault, manifest_from_dict}
use pi_ssm.Manifest.Accepted.{IsFrom, IsValid, manifest_from_dict-IsValid}
use pi_ssm.Manifest.Sound.{IsValid-manifest_from_dict}
use pi_ssm.Manifest.Registry.{register, get_model, already}
use pi_ssm.Api.Submission.{
  Registered, HttpError, conflict, submit_model, submitted, accepted, register_by, answered,
}

-- The document is a mapping that holds a valid manifest with this name.
pub record Holds (document : Result String Value) (name : String) (m : Manifest Value Value)
    : Type 0 where
  pub entries : Entries
  pub parsed : document ≡ ok (mapping entries)
  pub from : IsFrom entries m
  pub valid : IsValid m
  pub named : m.name ≡ string name

-- A submission that succeeds: the document holds the manifest of the response, whose name is new, and
-- the registry has this manifest behind those that it had.
pub record Creates (models : Registered) (document : Result String Value) (m : Manifest Value Value)
    (models' : Registered) : Type 0 where
  pub name : String
  pub held : Holds document name m
  pub free : get_model models name ≡ none
  pub appended : models' ≡ models ++ (name, m) ∷ []

register_new :
    (models : Registered) (name : String) (m : Manifest Value Value)
    → get_model models name ≡ none
    → register models name m ≡ (models ++ (name, m) ∷ [], ok tt)
unfolding register get_model
register_new models name m free = rw (free, put_absent models name m free) refl

register_taken :
    (models : Registered) (name : String) (m old : Manifest Value Value)
    → get_model models name ≡ some old
    → register models name m ≡ (models, raise (already name))
unfolding register get_model
register_taken models name m old taken = rw taken refl

submit_lem :
    (models : Registered) (document : Result String Value) (name : String)
    (m : Manifest Value Value)
    → Holds document name m
    → submit_model models document ≡ answered m (register models name m)
unfolding submit_model
submit_lem models document name m h =
    rw (h.parsed, manifest_from_dict-IsValid h.entries m h.from h.valid, h.named) refl

-- POST /models with a valid manifest: under a new name it is registered behind the others and
-- returned; under a name that is taken the answer is the status 409, and the registry stays as it is.
pub submit_model-Holds :
    (models : Registered) (document : Result String Value) (name : String)
    (m : Manifest Value Value)
    → Holds document name m
    → submit_model models document ≡ (
        if is_some (get_model models name)
        then (models, raise (409, conflict (already name)))
        else (models ++ (name, m) ∷ [], ok m))
submit_model-Holds models document name m h = elim (Option-cases (get_model models name)) [
  | inl free ↦ submit_lem models document name m h ∙ rw (register_new models name m free, free) refl
  | inr (old, taken) ↦
      submit_lem models document name m h ∙ rw (register_taken models name m old taken, taken) refl
]

-- A created model, or an error with the registry as it was.
pub data Answers (models : Registered) (document : Result String Value)
    : Registered × Result HttpError (Manifest Value Value) → Type 0 where
  created :
      (models' : Registered) (m : Manifest Value Value)
      → Creates models document m models'
      → Answers models document (models', ok m)
  refused : (e : HttpError) → Answers models document (models, raise e)

registered_lem :
    (models : Registered) (document : Result String Value) (name : String)
    (m : Manifest Value Value)
    → Holds document name m
    → Answers models document (answered m (register models name m))
registered_lem models document name m h = elim (Option-cases (get_model models name)) [
  | inl free ↦ rw (register_new models name m free) (
      created (models ++ (name, m) ∷ []) m
        (record { name = name; held = h; free = free; appended = refl }))
  | inr (old, taken) ↦
      rw (register_taken models name m old taken) (refused (409, conflict (already name)))
]

named_lem :
    (models : Registered) (document : Result String Value) (entries : Entries)
    (m : Manifest Value Value) (name : Value)
    → document ≡ ok (mapping entries)
    → IsFrom entries m
    → IsValid m
    → m.name ≡ name
    → Answers models document (register_by models m name)
named_lem models document entries m (string name) parsed from valid named =
    registered_lem models document name m
      (record { entries = entries; parsed = parsed; from = from; valid = valid; named = named })
named_lem models document entries m null parsed from valid named = refused _
named_lem models document entries m (boolean b) parsed from valid named = refused _
named_lem models document entries m (integer n) parsed from valid named = refused _
named_lem models document entries m (other text) parsed from valid named = refused _
named_lem models document entries m (sequence values) parsed from valid named = refused _
named_lem models document entries m (mapping others) parsed from valid named = refused _

accepted_lem :
    (models : Registered) (document : Result String Value) (entries : Entries)
    (found : Result ManifestFault (Manifest Value Value))
    → document ≡ ok (mapping entries)
    → manifest_from_dict (mapping entries) ≡ found
    → Answers models document (accepted models found)
accepted_lem models document entries (raise fault) parsed e = refused _
accepted_lem models document entries (ok m) parsed e =
    let (from, valid) = IsValid-manifest_from_dict entries m e in
    named_lem models document entries m m.name parsed from valid refl

submitted_lem :
    (models : Registered) (document : Result String Value)
    → Answers models document (submitted models document)
submitted_lem models (raise text) = refused _
submitted_lem models (ok (mapping entries)) =
    accepted_lem models (ok (mapping entries)) entries (manifest_from_dict (mapping entries)) refl
      refl
submitted_lem models (ok null) = refused _
submitted_lem models (ok (boolean b)) = refused _
submitted_lem models (ok (integer n)) = refused _
submitted_lem models (ok (string text)) = refused _
submitted_lem models (ok (other text)) = refused _
submitted_lem models (ok (sequence values)) = refused _

-- POST /models returns a manifest only where the document is a mapping that holds this manifest, the
-- manifest is valid and its name is a text under which no model was registered, and then the registry
-- has the manifest behind those that it had; every error leaves the registry as it was.
pub submit_model-Answers :
    (models : Registered) (document : Result String Value)
    → Answers models document (submit_model models document)
unfolding submit_model
submit_model-Answers models document = submitted_lem models document
