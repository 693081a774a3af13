-- ===== src/Server.antt =====
-- orchestrator/server.py: the manifests that the orchestrator registers at its start, and the reaper
-- loop. The sockets, the command line and the order in which a directory lists its files are not
-- modelled: the files come sorted.
use pi_ssm.Base.{
  ℕ, String, Bool, true, false, Option, none, some, List, [], ◌∷◌, ◌++◌, ◌≡◌, refl, ap, ◌==◌,
  eq_iff, arith, if◌then◌else◌, ◌∙◌,
}
use pi_ssm.Base.Dict.{get-put}
use pi_ssm.Base.Result.{Result, ok, raise}
use pi_ssm.Manifest.Defs.{Manifest}
use pi_ssm.Manifest.Values.{Value, string}
use pi_ssm.Manifest.Validation.{ManifestFault, type_error, key_error, yaml_error, load_manifest}
use pi_ssm.Manifest.Registry.{register, get_model}
use pi_ssm.Nodes.{NodeRegistry, reap_stale_nodes}
use pi_ssm.Api.Submission.{Registered}

-- A `*.yaml` file: its path, and what `yaml.safe_load` gives for it.
pub record ManifestFile : Type 0 where
  pub path : String
  pub contents : Option (Result String Value)

-- What one file comes to: a manifest with its name, a `ManifestError` that is logged, or an exception
-- that is not caught.
pub data Loaded : Type 0 where
  loaded : String → Manifest Value Value → Loaded
  skipped : ManifestFault → Loaded
  uncaught : ManifestFault → Loaded

-- A name that is no text is no key of the registry's `dict`, which is a `TypeError`.
abbrev pub with_name : Manifest Value Value → Value → Loaded
with_name manifest (string name) = loaded name manifest
with_name manifest name = uncaught type_error

-- `except (ManifestError, ValueError)` around `load_manifest`
abbrev pub outcome : Result ManifestFault (Manifest Value Value) → Loaded
outcome (ok manifest) = with_name manifest manifest.name
outcome (raise type_error) = uncaught type_error
outcome (raise (key_error name)) = uncaught (key_error name)
outcome (raise (yaml_error text)) = uncaught (yaml_error text)
outcome (raise fault) = skipped fault

unfoldable pub load_file : ManifestFile → Loaded
load_file file = outcome (load_manifest file.path file.contents)

-- A round of the loop with the rounds behind it. A `ValueError` of `register` is logged, and leaves the
-- registry as it is.
abbrev pub register_loaded :
    Registered
    → Loaded
    → (Registered → Registered × Option ManifestFault)
    → Registered × Option ManifestFault
register_loaded models (loaded name manifest) rest = rest (register models name manifest).0
register_loaded models (skipped fault) rest = rest models
register_loaded models (uncaught fault) rest = (models, some fault)

-- The loop of `register_existing_manifests`, with the exception that ends it if one does.
unfoldable pub register_files : List ManifestFile → Registered → Registered × Option ManifestFault
register_files [] models = (models, none)
register_files (file ∷ files) models =
    register_loaded models (load_file file) (register_files files)

-- `register_existing_manifests`, where `none` is no directory.
unfoldable pub register_existing_manifests :
    Registered → Option (List ManifestFile) → Registered × Option ManifestFault
register_existing_manifests models none = (models, none)
register_existing_manifests models (some files) = register_files files models

-- The loop of `run_reaper`, by the clock readings of its rounds, with the nodes that it warns of.
unfoldable pub run_reaper : List ℕ → NodeRegistry → NodeRegistry × List String
run_reaper [] registry = (registry, [])
run_reaper (now ∷ later) registry =
    let (after, reaped) = reap_stale_nodes registry now in
    let (end, others) = run_reaper later after in (end, reaped ++ others)

-- The first manifest of a list of files that has the name.
abbrev pub or_named :
    String → Loaded → Option (Manifest Value Value) → Option (Manifest Value Value)
or_named name (loaded key manifest) rest = if key == name then some manifest else rest
or_named name (skipped fault) rest = rest
or_named name (uncaught fault) rest = rest

unfoldable pub first_named : String → List ManifestFile → Option (Manifest Value Value)
first_named name [] = none
first_named name (file ∷ files) = or_named name (load_file file) (first_named name files)

-- The exception of the first file that raises one that is not caught.
abbrev pub or_uncaught : Loaded → Option ManifestFault → Option ManifestFault
or_uncaught (loaded name manifest) rest = rest
or_uncaught (skipped fault) rest = rest
or_uncaught (uncaught fault) rest = some fault

unfoldable pub first_uncaught : List ManifestFile → Option ManifestFault
first_uncaught [] = none
first_uncaught (file ∷ files) = or_uncaught (load_file file) (first_uncaught files)

abbrev pub or_else :
    Option (Manifest Value Value) → Option (Manifest Value Value) → Option (Manifest Value Value)
or_else (some m) o = some m
or_else none o = o

or_else-none : (o : Option (Manifest Value Value)) → o ≡ or_else o none
or_else-none none = refl
or_else-none (some m) = refl

get-register :
    (models : Registered) (name key : String) (m : Manifest Value Value)
    → get_model (register models name m).0 key
      ≡ or_else (get_model models key) (if name == key then some m else none)
unfolding register get_model
get-register models name key m = ground (arith, eq_iff name key, get-put models name key m)

or_else_assoc :
    (o : Option (Manifest Value Value)) (b : Bool) (m : Manifest Value Value)
    (rest : Option (Manifest Value Value))
    → or_else (or_else o (if b then some m else none)) rest ≡ or_else o (if b then some m else rest)
or_else_assoc (some n) b m rest = refl
or_else_assoc none true m rest = refl
or_else_assoc none false m rest = refl

uncaught_lem :
    (file : Loaded) (files : List ManifestFile) (models : Registered)
    → ((models : Registered) → (register_files files models).1 ≡ first_uncaught files)
    → (register_loaded models file (register_files files)).1
      ≡ or_uncaught file (first_uncaught files)
uncaught_lem (loaded name m) files models ih = ih (register models name m).0
uncaught_lem (skipped fault) files models ih = ih models
uncaught_lem (uncaught fault) files models ih = refl

register_files_uncaught :
    (files : List ManifestFile) (models : Registered)
    → (register_files files models).1 ≡ first_uncaught files
unfolding register_files first_uncaught
register_files_uncaught [] models = refl
register_files_uncaught (file ∷ files) models =
    uncaught_lem (load_file file) files models (register_files_uncaught files)

named_lem :
    (key : String) (file : Loaded) (files : List ManifestFile) (models : Registered)
    → or_uncaught file (first_uncaught files) ≡ none
    → ((models : Registered)
        → first_uncaught files ≡ none
        → get_model (register_files files models).0 key
          ≡ or_else (get_model models key) (first_named key files))
    → get_model (register_loaded models file (register_files files)).0 key
      ≡ or_else (get_model models key) (or_named key file (first_named key files))
named_lem key (loaded name m) files models fine ih =
    ih (register models name m).0 fine
    ∙ ap (λ o. or_else o (first_named key files)) (get-register models name key m)
    ∙ or_else_assoc (get_model models key) (name == key) m (first_named key files)
named_lem key (skipped fault) files models fine ih = ih models fine
named_lem key (uncaught fault) files models fine ih = absurd (cc)

register_files_named :
    (key : String) (files : List ManifestFile) (models : Registered)
    → first_uncaught files ≡ none
    → get_model (register_files files models).0 key
      ≡ or_else (get_model models key) (first_named key files)
unfolding register_files first_uncaught first_named
register_files_named key [] models fine = or_else-none (get_model models key)
register_files_named key (file ∷ files) models fine =
    named_lem key (load_file file) files models fine (register_files_named key files)

-- A directory none of whose files raises an exception that is not caught: the start raises none, every
-- model that was registered keeps its manifest, and any other name has the manifest of the first file
-- that holds a manifest with that name, or none where no file does.
pub get_model-register_existing_manifests :
    (models : Registered) (files : List ManifestFile) (key : String)
    → first_uncaught files ≡ none
    → ((register_existing_manifests models (some files)).1 ≡ none)
      × (get_model (register_existing_manifests models (some files)).0 key
          ≡ or_else (get_model models key) (first_named key files))
unfolding register_existing_manifests
get_model-register_existing_manifests models files key fine =
    (register_files_uncaught files models ∙ fine, register_files_named key files models fine)
