-- ===== src/Shard/Weights/Names.antt =====
-- The names of a shard's parameters are distinct: each is read back as its layer and parameter.
use Prim.Native.Char.{code}
use Prim.Native.String.{[] as nil, ◌∷◌ as ◌∷ₛ◌, ◌++◌}
use text.Mathlib.TextLemmas.{nil-append, cons-append, append_assoc, append-nil as append-empty}
use pi_ssm.Base.{
  ℕ, ◌+◌, ◌-◌, ◌*◌, String, Bool, true, false, ◌&&◌, some, ◌≡◌, refl, ap, sym, ◌∙◌, eqb, arith,
  false≢true,
}
use pi_ssm.Base.Decimal.{decimal, is_digit, are_digits, not_empty, read_value, decimal_reads}
use pi_ssm.Shard.Locations.{behind, read_digits, read_number, nonempty, layer_of_name}
use pi_ssm.Shard.Weights.{layer_key}

both : (a b : Bool) → (a && b) ≡ true → (a ≡ true) × (b ≡ true)
both true true h = (refl, refl)
both true false h = absurd (false≢true h)
both false b h = absurd (false≢true h)

eqb_self : (n : ℕ) → eqb n n ≡ true
eqb_self n = ground arith

behind-append : (prefix s : String) → behind prefix (prefix ++ s) ≡ some s
unfolding behind
behind-append nil s = rw (nil-append s) refl
behind-append (c ∷ₛ prefix) s =
    rw (cons-append c prefix s) (rw (eqb_self (code c)) (behind-append prefix s))

dot : (s : String) → "." ++ s ≡ "." ∷ₛ s
dot s = cons-append "." nil s ∙ ap (◌∷ₛ◌ ".") (nil-append s)

read_digits-dot : (t : String) (n : ℕ) → read_digits n ("." ++ t) ≡ (n, "." ++ t)
unfolding read_digits
read_digits-dot t n = rw (dot t) refl

read_digits-append :
    (s t : String) (n : ℕ)
    → are_digits s ≡ true
    → read_digits n (s ++ "." ++ t) ≡ (read_value n s, "." ++ t)
unfolding read_digits
read_digits-append nil t n h = rw (nil-append ("." ++ t)) (read_digits-dot t n)
read_digits-append (c ∷ₛ s) t n h =
    let (digit, digits) = both (is_digit c) (are_digits s) h in
    rw (cons-append c s ("." ++ t))
      (rw digit (read_digits-append s t (n * 10 + (code c - 48)) digits))

read_number-append :
    (s t : String)
    → are_digits s ≡ true
    → not_empty s ≡ true
    → read_number (s ++ "." ++ t) ≡ some (read_value 0 s, "." ++ t)
read_number-append nil t h some_digit = absurd (false≢true some_digit)
read_number-append (c ∷ₛ s) t h some_digit =
    let (digit, digits) = both (is_digit c) (are_digits s) h in
    let e = read_digits-append (c ∷ₛ s) t 0 h in
    rw (cons-append c s ("." ++ t))
      (rw digit (ap some (ap (read_digits 0) (sym (cons-append c s ("." ++ t))) ∙ e)))

layer_rest : (k : ℕ) (p : String) → layer_key k p ≡ "layers." ++ (decimal k ++ ("." ++ p))
layer_rest k p = rw (append-empty p) refl

-- A parameter of a block, under the model's prefix, is read as its layer and its name.
pub layer_of_name-layer_key :
    (k : ℕ) (p : String)
    → nonempty p ≡ some p
    → layer_of_name ("backbone." ++ layer_key k p) ≡ some (k, p)
unfolding layer_of_name
layer_of_name-layer_key k p named =
    let (digits, some_digit, reads) = decimal_reads k in
    let number = read_number-append (decimal k) p digits some_digit in
    let e : "backbone." ++ layer_key k p ≡ "backbone.layers." ++ (decimal k ++ ("." ++ p)) =
      ap (λ (t : String). "backbone." ++ t) (layer_rest k p)
      ∙ sym (append_assoc "backbone." "layers." (decimal k ++ ("." ++ p))) in
    rw (e, behind-append, number, behind-append, named, reads) refl
