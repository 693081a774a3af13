-- ===== src/Base/Decimal.antt =====
-- `str(n)` for a natural number, and the address texts `f"{host}:{port}"`.
use Prim.Native.Char.{Char, code}
use Prim.Native.Nat.{ℕ, zero, suc, ◌+◌, ◌-◌, ◌*◌, ◌/◌, ◌%◌, ◌<◌}
use text.Mathlib.Text.{◌==◌}
use text.Mathlib.TextEquality.{eq_iff}
use text.Mathlib.TextLemmas.{append-eq-nil_iff, nil-append, cons-append}
use Prim.Native.String.{String, ◌++◌, [] as nil, ◌∷◌ as ◌∷ₛ◌}
use mathlib.Core.Bool.{Bool, true, ◌&&◌, false, false≢true}
use mathlib.Core.Logic.{dite, inl, inr}
use mathlib.Core.WellFounded.{Acc}
use mathlib.Core.Path.{◌≡◌, refl, ap, ◌∙◌}
use native.Mathlib.Decide.{dec_lt}
use native.Mathlib.Omega.{arith}
use pi_ssm.Base.Tests.{Bool-cases, leb, eqb, if◌then◌else◌}

acc_lt : (bound n : ℕ) → n < bound → Acc ◌<◌ n
acc_lt zero n h = elim h [ ]
acc_lt (suc bound) n h = Acc.intro n (λ m lt. acc_lt bound m (omega arith))

digit : ℕ → String
digit d =
    if eqb d 0
    then "0"
    else if eqb d 1
    then "1"
    else if eqb d 2
    then "2"
    else if eqb d 3
    then "3"
    else if eqb d 4
    then "4"
    else if eqb d 5
    then "5"
    else if eqb d 6
    then "6"
    else if eqb d 7
    then "7"
    else if eqb d 8
    then "8"
    else "9"

write : (n : ℕ) → Acc ◌<◌ n → String
unfolding digit
write n (Acc.intro _ smaller) =
    dite (dec_lt 9 n) (λ h. write (n / 10) (smaller (n / 10) (omega arith)) ++ digit (n % 10))
      (λ _. digit n)

unfoldable pub decimal : ℕ → String
unfolding write acc_lt dec_lt
decimal n = write n (acc_lt (suc n) n (omega arith))

-- `f"{host}:{port}"`
unfoldable pub address : String → ℕ → String
unfolding decimal
address host port = host ++ ":" ++ decimal port

address_example : address "10.0.0.7" 50052 ≡ "10.0.0.7:50052"
unfolding address
address_example = refl

-- An address is never empty.
pub address-ne : (host : String) (port : ℕ) → (address host port == "") ≡ false
unfolding address
address-ne host port = elim (Bool-cases (address host port == "")) [
  | inl same ↦
      let colon : ":" ≡ "" =
        (append-eq-nil_iff.0 ((append-eq-nil_iff.0 ((eq_iff _ _).0 same)).1)).0 in
      absurd (false≢true ((eq_iff ":" "").1 colon))
  | inr differ ↦ differ
]

-- The characters of a decimal numeral, and the number that they read as behind `n`.
abbrev pub is_digit : Char → Bool
is_digit c = leb 48 (code c) && leb (code c) 57

abbrev pub are_digits : String → Bool
are_digits nil = true
are_digits (c ∷ₛ s) = is_digit c && are_digits s

abbrev pub not_empty : String → Bool
not_empty nil = false
not_empty (c ∷ₛ s) = true

abbrev pub read_value : ℕ → String → ℕ
read_value n nil = n
read_value n (c ∷ₛ s) = read_value (n * 10 + (code c - 48)) s

are_digits-append : (s t : String) → are_digits (s ++ t) ≡ (are_digits s && are_digits t)
are_digits-append nil t = rw (nil-append t) refl
are_digits-append (c ∷ₛ s) t = rw (cons-append c s t) (ground (arith, are_digits-append s t))

not_empty-append : (s t : String) → not_empty s ≡ true → not_empty (s ++ t) ≡ true
not_empty-append nil t h = absurd (false≢true h)
not_empty-append (c ∷ₛ s) t h = rw (cons-append c s t) refl

read_value-append : (s t : String) (n : ℕ) → read_value n (s ++ t) ≡ read_value (read_value n s) t
read_value-append nil t n = rw (nil-append t) refl
read_value-append (c ∷ₛ s) t n =
    rw (cons-append c s t) (read_value-append s t (n * 10 + (code c - 48)))

digit_lem :
    (d n : ℕ)
    → d < 10
    → (are_digits (digit d) ≡ true)
      × (not_empty (digit d) ≡ true)
      × (read_value n (digit d) ≡ n * 10 + d)
unfolding digit
digit_lem zero n h = (refl, refl, omega arith)
digit_lem (suc zero) n h = (refl, refl, omega arith)
digit_lem (suc (suc zero)) n h = (refl, refl, omega arith)
digit_lem (suc (suc (suc zero))) n h = (refl, refl, omega arith)
digit_lem (suc (suc (suc (suc zero)))) n h = (refl, refl, omega arith)
digit_lem (suc (suc (suc (suc (suc zero))))) n h = (refl, refl, omega arith)
digit_lem (suc (suc (suc (suc (suc (suc zero)))))) n h = (refl, refl, omega arith)
digit_lem (suc (suc (suc (suc (suc (suc (suc zero))))))) n h = (refl, refl, omega arith)
digit_lem (suc (suc (suc (suc (suc (suc (suc (suc zero)))))))) n h = (refl, refl, omega arith)
digit_lem (suc (suc (suc (suc (suc (suc (suc (suc (suc zero))))))))) n h = (refl, refl, omega arith)
digit_lem (suc (suc (suc (suc (suc (suc (suc (suc (suc (suc d)))))))))) n h =
    absurd (omega (arith, h))

dite_cases {ℓ κ μ} :
    {A : Type ℓ} {B : Type κ} (P : B → Type μ) (d : Dec A) (x : A → B) (y : ¬ A → B)
    → ((h : A) → P (x h))
    → ((h : ¬ A) → P (y h))
    → P (dite d x y)
dite_cases P (yes h) x y p q = p h
dite_cases P (no h) x y p q = q h

abbrev Reads : ℕ → String → Type 0
Reads n s = (are_digits s ≡ true) × (not_empty s ≡ true) × (read_value 0 s ≡ n)

one_digit : (n : ℕ) → ¬ (9 < n) → Reads n (digit n)
one_digit n h =
    let (digits, some_digit, reads) = digit_lem n 0 (omega (arith, h)) in
    (digits, some_digit, reads ∙ omega arith)

more_digits : (n : ℕ) (s : String) → Reads (n / 10) s → Reads n (s ++ digit (n % 10))
more_digits n s (digits, some_digit, reads) =
    let (last, _, reads') = digit_lem (n % 10) (n / 10) (omega arith) in
    (
      are_digits-append s (digit (n % 10)) ∙ rw (digits, last) refl,
      not_empty-append s (digit (n % 10)) some_digit,
      read_value-append s (digit (n % 10)) 0
          ∙ ap (λ m. read_value m (digit (n % 10))) reads
          ∙ reads'
          ∙ omega arith,
    )

write_lem : (n : ℕ) (w : Acc ◌<◌ n) → Reads n (write n w)
unfolding write
write_lem n (Acc.intro _ smaller) =
    dite_cases (Reads n) (dec_lt 9 n)
      (λ h. write (n / 10) (smaller (n / 10) (omega arith)) ++ digit (n % 10)) (λ _. digit n)
      (λ h. more_digits n _ (write_lem (n / 10) (smaller (n / 10) (omega arith))))
      (λ h. one_digit n h)

-- The decimal numeral of a number has only digits and at least one, and is read as the number.
pub decimal_reads :
    (n : ℕ)
    → (are_digits (decimal n) ≡ true)
      × (not_empty (decimal n) ≡ true)
      × (read_value 0 (decimal n) ≡ n)
unfolding decimal
decimal_reads n = write_lem n (acc_lt (suc n) n (omega arith))
