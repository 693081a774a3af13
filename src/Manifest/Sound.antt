-- ===== src/Manifest/Sound.antt =====
-- What an accepted document holds.
use pi_ssm.Base.{String, Bool, true, false, Option, none, some, ◌≡◌, ◌↔◌, refl, ap, subst, ◌∙◌}
use pi_ssm.Base.Result.{Result, ok, bind_ok}
use pi_ssm.Manifest.Defs.{Manifest}
use pi_ssm.Manifest.Values.{Value, Entries, mapping, lookup, holds, is_one_of, is_positive}
use pi_ssm.Manifest.Validation.{
  ManifestFault, found, no_space, check, not_positive, required_fields, subscript, check_fields,
  check_number, validate_manifest, manifest_from_dict, supported_architectures,
  supported_input_types, unsupported_arch, unsupported_input_type,
}
use pi_ssm.Manifest.Accepted.{IsFrom, IsValid, manifest_from_dict-IsValid}

found_ok : (field : String) (o : Option Value) (v : Value) → found field o ≡ ok v → o ≡ some v
found_ok field none v h = cc
found_ok field (some w) v h = cc

subscript_ok :
    (entries : Entries) (field : String) (v : Value)
    → subscript field (mapping entries) ≡ ok v
    → lookup field entries ≡ some v
unfolding subscript
subscript_ok entries field v h = found_ok field (lookup field entries) v h

check_ok :
    (test : Bool) (fault : ManifestFault) (done : Unit {0})
    → check test fault ≡ ok done
    → test ≡ true
check_ok true fault done h = refl
check_ok false fault done h = cc

no_space_ok :
    (name : Value) (spaces : Option Bool) (done : Unit {0})
    → no_space name spaces ≡ ok done
    → spaces ≡ some false
no_space_ok name none done h = cc
no_space_ok name (some true) done h = cc
no_space_ok name (some false) done h = refl

ok_inj :
    (a b : Manifest Value Value)
    → (let r : Result ManifestFault (Manifest Value Value) = ok a in r) ≡ ok b
    → a ≡ b
ok_inj a b e = cc

-- A field that is read twice is one value.
same :
    (entries : Entries) (field : String) (v w : Value)
    → lookup field entries ≡ some v
    → lookup field entries ≡ some w
    → v ≡ w
same entries field v w p q = cc

check_number_ok :
    (entries : Entries) (field : String) (v : Value) (done : Unit {0})
    → check_number field (mapping entries) ≡ ok done
    → lookup field entries ≡ some v
    → is_positive v ≡ true
unfolding check_number
check_number_ok entries field v done h there =
    let (w, p, q) =
      bind_ok (subscript field (mapping entries))
        (λ number. check (is_positive number) (not_positive field number)) h in
    ap is_positive (same entries field v w there (subscript_ok entries field w p))
    ∙ check_ok (is_positive w) (not_positive field w) done q

-- What the validation has tested.
record Tested (entries : Entries) (arch input_type name : Value) : Type 0 where
  arch_read : subscript "arch" (mapping entries) ≡ ok arch
  arch_ok : is_one_of supported_architectures arch ≡ true
  input_read : subscript "input_type" (mapping entries) ≡ ok input_type
  input_ok : is_one_of supported_input_types input_type ≡ true
  layers : check_number "layers" (mapping entries) ≡ ok tt
  hidden_dim : check_number "hidden_dim" (mapping entries) ≡ ok tt
  state_dim : check_number "state_dim" (mapping entries) ≡ ok tt
  name_read : subscript "name" (mapping entries) ≡ ok name
  name_ok : no_space name (holds " " name) ≡ ok tt

validate_ok :
    (entries : Entries) (done : Unit {0})
    → validate_manifest (mapping entries) ≡ ok done
    → (arch : Value) × (input_type : Value) × (name : Value) × Tested entries arch input_type name
unfolding validate_manifest
validate_ok entries done h =
    let (a, p, h1) = bind_ok (check_fields required_fields (mapping entries)) _ h in
    let (arch, arch_read, h2) = bind_ok (subscript "arch" (mapping entries)) _ h1 in
    let (b, arch_ok, h3) =
      bind_ok (check (is_one_of supported_architectures arch) (unsupported_arch arch)) _ h2 in
    let (input_type, input_read, h4) = bind_ok (subscript "input_type" (mapping entries)) _ h3 in
    let (c, input_ok, h5) =
      bind_ok
        (check (is_one_of supported_input_types input_type) (unsupported_input_type input_type)) _
        h4 in
    let (d, layers, h6) = bind_ok (check_number "layers" (mapping entries)) _ h5 in
    let (e, hidden_dim, h7) = bind_ok (check_number "hidden_dim" (mapping entries)) _ h6 in
    let (f, state_dim, h8) = bind_ok (check_number "state_dim" (mapping entries)) _ h7 in
    let (name, name_read, name_ok) = bind_ok (subscript "name" (mapping entries)) _ h8 in
    (
      arch,
      input_type,
      name,
      record {
        arch_read = arch_read;
        arch_ok = check_ok _ (unsupported_arch arch) b arch_ok;
        input_read = input_read;
        input_ok = check_ok _ (unsupported_input_type input_type) c input_ok;
        layers = layers;
        hidden_dim = hidden_dim;
        state_dim = state_dim;
        name_read = name_read;
        name_ok = name_ok;
      },
    )

IsFrom-ok :
    (entries : Entries) (m : Manifest Value Value)
    → manifest_from_dict (mapping entries) ≡ ok m
    → (validate_manifest (mapping entries) ≡ ok tt) × IsFrom entries m
unfolding manifest_from_dict
IsFrom-ok entries m h =
    let (u, valid, h0) = bind_ok (validate_manifest (mapping entries)) _ h in
    let (name, p1, h1) = bind_ok (subscript "name" (mapping entries)) _ h0 in
    let (arch, p2, h2) = bind_ok (subscript "arch" (mapping entries)) _ h1 in
    let (checkpoint, p3, h3) = bind_ok (subscript "checkpoint" (mapping entries)) _ h2 in
    let (layers, p4, h4) = bind_ok (subscript "layers" (mapping entries)) _ h3 in
    let (hidden_dim, p5, h5) = bind_ok (subscript "hidden_dim" (mapping entries)) _ h4 in
    let (state_dim, p6, h6) = bind_ok (subscript "state_dim" (mapping entries)) _ h5 in
    let (input_type, p7, h7) = bind_ok (subscript "input_type" (mapping entries)) _ h6 in
    let (tokenizer, p8, h8) = bind_ok (subscript "tokenizer" (mapping entries)) _ h7 in
    let e : record {
      name = name;
      arch = arch;
      checkpoint = checkpoint;
      layers = layers;
      hidden_dim = hidden_dim;
      state_dim = state_dim;
      input_type = input_type;
      tokenizer = tokenizer;
    }
        ≡ m =
      ok_inj _ m h8 in
    (
      valid,
      subst (IsFrom entries) e (record {
        name = subscript_ok entries "name" name p1;
        arch = subscript_ok entries "arch" arch p2;
        checkpoint = subscript_ok entries "checkpoint" checkpoint p3;
        layers = subscript_ok entries "layers" layers p4;
        hidden_dim = subscript_ok entries "hidden_dim" hidden_dim p5;
        state_dim = subscript_ok entries "state_dim" state_dim p6;
        input_type = subscript_ok entries "input_type" input_type p7;
        tokenizer = subscript_ok entries "tokenizer" tokenizer p8;
      }),
    )

-- A mapping that is accepted as a manifest has the manifest's values in its eight fields, and they pass
-- the checks: a supported architecture and input type, positive integers in the three sizes, and a
-- name that holds no space.
pub IsValid-manifest_from_dict :
    (entries : Entries) (m : Manifest Value Value)
    → manifest_from_dict (mapping entries) ≡ ok m
    → IsFrom entries m × IsValid m
IsValid-manifest_from_dict entries m h =
    let (valid, from) = IsFrom-ok entries m h in
    let (arch, input_type, name, t) = validate_ok entries tt valid in
    let arch_same =
      same entries "arch" m.arch arch from.arch (subscript_ok entries "arch" arch t.arch_read) in
    let input_same =
      same entries "input_type" m.input_type input_type from.input_type
        (subscript_ok entries "input_type" input_type t.input_read) in
    let name_same =
      same entries "name" m.name name from.name (subscript_ok entries "name" name t.name_read) in
    (
      from,
      record {
        arch = ap (is_one_of supported_architectures) arch_same ∙ t.arch_ok;
        input_type = ap (is_one_of supported_input_types) input_same ∙ t.input_ok;
        layers = check_number_ok entries "layers" m.layers tt t.layers from.layers;
        hidden_dim =
            check_number_ok entries "hidden_dim" m.hidden_dim tt t.hidden_dim from.hidden_dim;
        state_dim = check_number_ok entries "state_dim" m.state_dim tt t.state_dim from.state_dim;
        name = ap (holds " ") name_same ∙ no_space_ok name (holds " " name) tt t.name_ok;
      },
    )

-- `manifest_from_dict` accepts a mapping as a manifest exactly where the mapping holds the manifest's
-- values under its eight fields and these values pass the checks: the architecture and the input type
-- are supported, the numbers are positive and the name has no space.
pub manifest_from_dict_iff :
    (entries : Entries) (m : Manifest Value Value)
    → (manifest_from_dict (mapping entries) ≡ ok m) ↔ (IsFrom entries m × IsValid m)
manifest_from_dict_iff entries m =
    (IsValid-manifest_from_dict entries m, λ h. manifest_from_dict-IsValid entries m h.0 h.1)
