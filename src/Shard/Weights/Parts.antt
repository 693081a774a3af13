-- ===== src/Shard/Weights/Parts.antt =====
-- The parts of a shard's parameters and of its locations: the embedding, the layers, and the ends.
use pi_ssm.Base.{
  String, Bool, true, false, ◌&&◌, Option, none, some, is_some, List, [], ◌∷◌, ◌++◌, ◌≡◌, refl, ap,
  subst, sym, ◌∙◌, ◌==◌, eq_iff, arith, All, contains, if◌then◌else◌, Bool-cases, inl, inr,
  false≢true,
}
use pi_ssm.Shard.Locations.{TensorLocationSpec}
use pi_ssm.Shard.Weights.{first_keys, last_keys}
use pi_ssm.Shard.Weights.Files.{wants, wants-append}
use pi_ssm.Shard.Weights.Keys.{contains-append}

pub wants_key :
    (expected : List String) (ls : List TensorLocationSpec) (k : String)
    → All (λ l. contains l.dest_name expected ≡ true) ls
    → wants k ls ≡ true
    → contains k expected ≡ true
wants_key expected [] k h there = absurd (false≢true there)
wants_key expected (l ∷ ls) k h there = elim (Bool-cases (l.dest_name == k)) [
  | inl same ↦
      subst (λ (n : String). contains n expected ≡ true) ((eq_iff l.dest_name k).0 same) h.0
  | inr other ↦ wants_key expected ls k h.1 (rw other at there)
]

pub wants_left :
    (k : String) (xs ys zs : List TensorLocationSpec)
    → wants k xs ≡ true
    → wants k (xs ++ ys ++ zs) ≡ true
wants_left k xs ys zs h = ground (arith, wants-append k (xs ++ ys) zs, wants-append k xs ys, h)

pub wants_middle :
    (k : String) (xs ys zs : List TensorLocationSpec)
    → wants k ys ≡ true
    → wants k (xs ++ ys ++ zs) ≡ true
wants_middle k xs ys zs h = ground (arith, wants-append k (xs ++ ys) zs, wants-append k xs ys, h)

pub wants_right :
    (k : String) (xs ys zs : List TensorLocationSpec)
    → wants k zs ≡ true
    → wants k (xs ++ ys ++ zs) ≡ true
wants_right k xs ys zs h = ground (arith, wants-append k (xs ++ ys) zs, h)

pub contains_left :
    (k : String) (xs ys zs : List String)
    → contains k xs ≡ true
    → contains k (xs ++ ys ++ zs) ≡ true
contains_left k xs ys zs h =
    ground (arith, contains-append k (xs ++ ys) zs, contains-append k xs ys, h)

pub contains_middle :
    (k : String) (xs ys zs : List String)
    → contains k ys ≡ true
    → contains k (xs ++ ys ++ zs) ≡ true
contains_middle k xs ys zs h =
    ground (arith, contains-append k (xs ++ ys) zs, contains-append k xs ys, h)

pub contains_right :
    (k : String) (xs ys zs : List String)
    → contains k zs ≡ true
    → contains k (xs ++ ys ++ zs) ≡ true
contains_right k xs ys zs h = ground (arith, contains-append k (xs ++ ys) zs, h)

-- Locations under a flag load parameters that the shard has.
pub under_flag :
    (flag : Bool) (keys under : List String) (ls : List TensorLocationSpec)
    → (flag ≡ true → keys ≡ under)
    → All (λ l. (flag && contains l.dest_name keys) ≡ true) ls
    → All (λ l. contains l.dest_name under ≡ true) ls
under_flag flag keys under [] same h = tt
under_flag false keys under (l ∷ ls) same h = absurd (false≢true h.0)
under_flag true keys under (l ∷ ls) same h = (
  subst (λ (names : List String). contains l.dest_name names ≡ true) (same refl) h.0,
  under_flag true keys under ls same h.1,
)

pub all_keys :
    (keys wider : List String) (ls : List TensorLocationSpec)
    → ((k : String) → contains k keys ≡ true → contains k wider ≡ true)
    → All (λ l. contains l.dest_name keys ≡ true) ls
    → All (λ l. contains l.dest_name wider ≡ true) ls
all_keys keys wider [] into h = tt
all_keys keys wider (l ∷ ls) into h = (into l.dest_name h.0, all_keys keys wider ls into h.1)

pub first_same : (first : Bool) → first ≡ true → "embeddings.weight" ∷ [] ≡ first_keys first
first_same true h = refl
first_same false h = absurd (false≢true h)

pub last_same :
    (last : Bool) → last ≡ true → "norm_f.weight" ∷ "lm_head.weight" ∷ [] ≡ last_keys last
last_same true h = refl
last_same false h = absurd (false≢true h)

pub filled_lem {ℓ} :
    {A : Type ℓ} (b : Bool) (v : A) (o : Option A)
    → o ≡ (if b then some v else none)
    → is_some o ≡ true
    → b ≡ true
filled_lem true v o e there = refl
filled_lem false v o e there = absurd (false≢true (ap is_some (sym e) ∙ there))
