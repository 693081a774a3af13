-- ===== src/Shard/Locations/Cover.antt =====
-- Which tensors the shards of a plan load.
use pi_ssm.Base.{
  ℕ, suc, ◌+◌, ◌≤◌, ◌<◌, String, Bool, true, false, Option, none, some, List, [], ◌∷◌, ◌++◌,
  if◌then◌else◌, eqb, ◌==◌, ◌≡◌, refl, ap, ◌∙◌, arith, eq_iff, Bool-cases, Option-cases, inl, inr,
}
use pi_ssm.Base.Dict
use pi_ssm.Base.Dict.{Dict}
use pi_ssm.Base.Result.{Result, ok, ◌>>=◌}
use pi_ssm.Dispatch.Ranges.{Tiles}
use pi_ssm.Shard.Locations.{
  TensorLocationSpec, layer_of_name, in_range, locate, layer_locations, first_locations,
  last_locations, tensor_locations_for_range,
}

-- How often a tensor of the checkpoint is listed, and how often the weight map has its name.
unfoldable pub listed : String → List TensorLocationSpec → ℕ
listed name [] = 0
listed name (l ∷ locations) =
    let rest = listed name locations in if l.source_name == name then suc rest else rest

unfoldable pub occurrences : String → Dict String → ℕ
occurrences name [] = 0
occurrences name ((k, file) ∷ rest) =
    let n = occurrences name rest in if k == name then suc n else n

listed-append :
    (name : String) (xs ys : List TensorLocationSpec)
    → listed name (xs ++ ys) ≡ listed name xs + listed name ys
unfolding listed
listed-append name [] ys = omega arith
listed-append name (l ∷ xs) ys = ground (arith, listed-append name xs ys)

listed-locate_same :
    (name k file : String) (s e : ℕ) (found : ℕ × String)
    → (k == name) ≡ true
    → listed name (locate s e k file (some found)) ≡ (if in_range s e found.0 then 1 else 0)
unfolding listed
listed-locate_same name k file s e found same = elim (Bool-cases (in_range s e found.0)) [
  | inl inside ↦ rw (inside, same) refl
  | inr outside ↦ rw outside refl
]

listed-locate_other :
    (name k file : String) (s e : ℕ) (o : Option (ℕ × String))
    → (k == name) ≡ false
    → listed name (locate s e k file o) ≡ 0
unfolding listed
listed-locate_other name k file s e none other = refl
listed-locate_other name k file s e (some found) other = elim (Bool-cases (in_range s e found.0)) [
  | inl inside ↦ rw (inside, other) refl
  | inr outside ↦ rw outside refl
]

-- A shard lists the tensor of a layer as often as the weight map has it, if the layer is in its
-- range, and never if it is not.
listed-layer_locations :
    (name : String) (i : ℕ) (suffix : String) (s e : ℕ) (w : Dict String)
    → layer_of_name name ≡ some (i, suffix)
    → listed name (layer_locations w s e) ≡ (if in_range s e i then occurrences name w else 0)
unfolding layer_locations occurrences listed
listed-layer_locations name i suffix s e [] h = ground arith
listed-layer_locations name i suffix s e ((k, file) ∷ w) h = elim (Bool-cases (k == name)) [
  | inl same ↦
      let here : k ≡ name = (eq_iff k name).0 same in
      let found = ap layer_of_name here ∙ h in
      rw
        (
          listed-append,
          found,
          listed-locate_same name k file s e (i, suffix) same,
          listed-layer_locations name i suffix s e w h,
          same,
        )
        (ground arith)
  | inr other ↦
      rw
        (
          listed-append,
          listed-locate_other name k file s e (layer_of_name k) other,
          listed-layer_locations name i suffix s e w h,
          other,
        )
        (ground arith)
]

-- The shards of the plan's ranges, each with the flags of its range; a name that the weight map lacks
-- raises `KeyError`.
unfoldable pub plan_locations :
    Dict String → ℕ → List (ℕ × ℕ) → Result String (List TensorLocationSpec)
plan_locations w total [] = ok []
plan_locations w total ((s, e) ∷ ranges) = do
  shard ← tensor_locations_for_range w s e (eqb s 0) (eqb e total)
  others ← plan_locations w total ranges
  ok (shard ++ others)

listed_ne :
    (name dest source : String) (file : String)
    → (source == name) ≡ false
    → listed name (record { dest_name = dest; source_name = source; source_file = file } ∷ []) ≡ 0
unfolding listed
listed_ne name dest source file other = rw other refl

differs :
    (name other : String) (i : ℕ) (suffix : String)
    → layer_of_name name ≡ some (i, suffix)
    → layer_of_name other ≡ none
    → (other == name) ≡ false
differs name other i suffix h none_found = elim (Bool-cases (other == name)) [
  | inl same ↦ let e = ap layer_of_name ((eq_iff other name).0 same) in absurd (cc)
  | inr differ ↦ differ
]

-- The names outside the layers.
not_layer :
    (name : String) (i : ℕ) (suffix : String)
    → layer_of_name name ≡ some (i, suffix)
    → (("backbone.embeddings.weight" == name) ≡ false)
      × (("backbone.norm_f.weight" == name) ≡ false)
      × (("lm_head.weight" == name) ≡ false)
unfolding layer_of_name
not_layer name i suffix h = (
  differs name "backbone.embeddings.weight" i suffix h refl,
  differs name "backbone.norm_f.weight" i suffix h refl,
  differs name "lm_head.weight" i suffix h refl,
)

-- Two adjacent ranges.
ranges_add :
    (n a e total i : ℕ)
    → a < e
    → e ≤ total
    → (if in_range a e i then n else 0) + (if in_range e total i then n else 0)
      ≡ (if in_range a total i then n else 0)
ranges_add n a e total i lt le = ground arith

-- The weight map has the names outside the layers that a model needs.
pub record HasEnds (w : Dict String) : Type 0 where
  pub embeddings : String
  pub norm : String
  pub embeddings_there : Dict.get w "backbone.embeddings.weight" ≡ some embeddings
  pub norm_there : Dict.get w "backbone.norm_f.weight" ≡ some norm

module _ (w : Dict String) (ends : HasEnds w) (name : String) (i : ℕ) (suffix : String)
    (layer : layer_of_name name ≡ some (i, suffix)) where
  first_lem :
      (first : Bool)
      → (locations : List TensorLocationSpec) × (first_locations w first ≡ ok locations)
        × (listed name locations ≡ 0)
  unfolding first_locations listed
  first_lem false = ([], refl, refl)
  first_lem true = (
    record {
      dest_name = "embeddings.weight";
      source_name = "backbone.embeddings.weight";
      source_file = ends.embeddings;
    }
        ∷ [],
    rw ends.embeddings_there refl,
    listed_ne name "embeddings.weight" "backbone.embeddings.weight" ends.embeddings
        (not_layer name i suffix layer).0,
  )

  -- What the last shard lists for the norm and the head.
  abbrev tail_of : String → String → List TensorLocationSpec
  tail_of source file =
      record {
        dest_name = "norm_f.weight";
        source_name = "backbone.norm_f.weight";
        source_file = ends.norm;
      }
      ∷ record { dest_name = "lm_head.weight"; source_name = source; source_file = file }
      ∷ []

  head_lem :
      (source : String) (file : String)
      → (source == name) ≡ false
      → listed name (tail_of source file) ≡ 0
  unfolding listed
  head_lem source file other = rw ((not_layer name i suffix layer).1, other) refl

  last_lem :
      (last : Bool)
      → (locations : List TensorLocationSpec) × (last_locations w last ≡ ok locations)
        × (listed name locations ≡ 0)
  unfolding last_locations listed
  last_lem false = ([], refl, refl)
  last_lem true = elim (Option-cases (Dict.get w "lm_head.weight")) [
    | inl tied ↦ (
      tail_of "backbone.embeddings.weight" ends.embeddings,
      rw (ends.norm_there, tied, ends.embeddings_there) refl,
      head_lem "backbone.embeddings.weight" ends.embeddings (not_layer name i suffix layer).0,
    )
    | inr (file, own) ↦ (
      tail_of "lm_head.weight" file,
      rw (ends.norm_there, own) (rw own refl),
      head_lem "lm_head.weight" file (not_layer name i suffix layer).2,
    )
  ]

  shard_lem :
      (s e : ℕ) (first last : Bool)
      → (locations : List TensorLocationSpec) × (tensor_locations_for_range w s e first last
          ≡ ok locations)
        × (listed name locations ≡ (if in_range s e i then occurrences name w else 0))
  unfolding tensor_locations_for_range
  shard_lem s e first last =
      let (xs, first_ok, no_first) = first_lem first in
      let (zs, last_ok, no_last) = last_lem last in
      (
        xs ++ layer_locations w s e ++ zs,
        rw (first_ok, last_ok) refl,
        rw
            (
              listed-append,
              listed-append,
              no_first,
              no_last,
              listed-layer_locations name i suffix s e w layer,
            )
            (omega arith),
      )

  Tiles-le : (a b : ℕ) (ranges : List (ℕ × ℕ)) → Tiles a b ranges → a ≤ b
  Tiles-le a b [] t = omega arith
  Tiles-le a b ((s, e) ∷ ranges) t = omega (arith, Tiles-le e b ranges t.2)

  -- The shards of ranges that tile `a` to `total` list the tensor as often as the weight map has it
  -- if its layer is among them.
  pub plan_locations-Tiles :
      (total a : ℕ) (ranges : List (ℕ × ℕ))
      → Tiles a total ranges
      → (locations : List TensorLocationSpec) × (plan_locations w total ranges ≡ ok locations)
        × (listed name locations ≡ (if in_range a total i then occurrences name w else 0))
  unfolding plan_locations listed
  plan_locations-Tiles total a [] t = ([], refl, ground arith)
  plan_locations-Tiles total a ((s, e) ∷ ranges) t =
      let (here, ran, count) = shard_lem s e (eqb s 0) (eqb e total) in
      let (there, rest, counts) = plan_locations-Tiles total e ranges t.2 in
      let le = Tiles-le e total ranges t.2 in
      (
        here ++ there,
        rw (ran, rest) refl,
        rw (listed-append, count, counts)
            (ranges_add (occurrences name w) s e total i t.1 le
              ∙ ap (λ (b : ℕ). if in_range b total i then occurrences name w else 0) t.0),
      )
