-- ===== src/Shard/Weights/Keys.antt =====
-- The parameters of a shard's layers against the locations that are listed for them.
use pi_ssm.Base.{
  ℕ, zero, suc, ◌+◌, ◌-◌, ◌≤◌, ◌<◌, String, Bool, true, false, ◌&&◌, ◌||◌, Option, none, some, List,
  [], ◌∷◌, ◌++◌, ◌≡◌, refl, subst, sym, ◌∙◌, ◌==◌, eq_iff, eq_refl, eqb, eqb_iff, arith, All,
  All-append, contains, map, Bool-cases, inl, inr, false≢true,
}
use pi_ssm.Base.Dict.{Dict}
use pi_ssm.Shard.Locations.{TensorLocationSpec, layer_of_name, in_range, locate, layer_locations}
use pi_ssm.Shard.Weights.{layer_key, layer_keys}
use pi_ssm.Shard.Weights.Files.{wants, wants-append}
use pi_ssm.Shard.Weights.Checkpoint.{is_layer, lists, LayerTensor, LayerTensors}

both : (a b : Bool) → (a && b) ≡ true → (a ≡ true) × (b ≡ true)
both true true h = (refl, refl)
both true false h = absurd (false≢true h)
both false b h = absurd (false≢true h)

pub contains-append :
    (k : String) (xs ys : List String) → contains k (xs ++ ys) ≡ (contains k xs || contains k ys)
contains-append k [] ys = refl
contains-append k (x ∷ xs) ys = ground (arith, contains-append k xs ys)

contains-map :
    (f : String → String) (p : String) (ps : List String)
    → contains p ps ≡ true
    → contains (f p) (map f ps) ≡ true
contains-map f p [] h = h
contains-map f p (q ∷ ps) h = elim (Bool-cases (q == p)) [
  | inl same ↦ rw ((eq_iff q p).0 same) (rw (eq_refl (f p)) refl)
  | inr other ↦ let ih = contains-map f p ps (rw other at h) in ground (arith, ih)
]

next_lem : (a k : ℕ) → a ≤ k → eqb a k ≡ false → a + 1 ≤ k
next_lem a k from other = ground arith

inside_lem : (s e i : ℕ) → in_range s e i ≡ true → i - s < e - s
inside_lem s e i inside = ground arith

at_lem : (s e k i : ℕ) → k < e - s → eqb i (s + k) ≡ true → (in_range s e i ≡ true) × (i - s ≡ k)
at_lem s e k i inside same = (ground arith, ground arith)

pub or_true : (b : Bool) → (b || true) ≡ true
or_true true = refl
or_true false = refl

contains-layer_keys :
    (ps : List String) (a n k : ℕ) (p : String)
    → a ≤ k
    → k < a + n
    → contains p ps ≡ true
    → contains (layer_key k p) (layer_keys ps a n) ≡ true
unfolding layer_keys
contains-layer_keys ps a zero k p from before there = absurd (omega (arith, from, before))
contains-layer_keys ps a (suc n) k p from before there = elim (Bool-cases (eqb a k)) [
  | inl same ↦
      let e = (eqb_iff a k).0 same in
      let here : contains (layer_key k p) (map (layer_key a) ps) ≡ true =
        subst (λ (b : ℕ). contains (layer_key k p) (map (layer_key b) ps) ≡ true) (sym e)
          (contains-map (layer_key k) p ps there) in
      contains-append (layer_key k p) (map (layer_key a) ps) (layer_keys ps (a + 1) n)
      ∙ rw here refl
  | inr other ↦
      let ih =
        contains-layer_keys ps (a + 1) n k p (next_lem a k from other) (omega (arith, before))
          there in
      contains-append (layer_key k p) (map (layer_key a) ps) (layer_keys ps (a + 1) n)
      ∙ rw ih (or_true _)
]

module _ {Weight : Type 0} (parameters : List String) (w : Dict String)
    (fetch : String → Option (Dict Weight)) (weight : ℕ → String → Weight)
    (embedding norm head : Weight) (s e : ℕ) where
  -- The location of a layer's tensor loads a parameter of the shard.
  IsKey : TensorLocationSpec → Type 0
  IsKey l = contains l.dest_name (layer_keys parameters 0 (e - s)) ≡ true

  locate_keys :
      (name file : String) (o : Option (ℕ × String))
      → LayerTensor parameters w fetch weight embedding norm head name file o
      → All IsKey (locate s e name file o)
  unfolding IsKey
  locate_keys name file none h = tt
  locate_keys name file (some (i, p)) h = elim (Bool-cases (in_range s e i)) [
    | inl inside ↦ rw inside (
      contains-layer_keys parameters 0 (e - s) (i - s) p (omega arith)
          (omega (arith, inside_lem s e i inside)) h.0,
      tt,
    )
    | inr outside ↦ rw outside tt
  ]

  layers_keys :
      (v : Dict String)
      → LayerTensors parameters w fetch weight embedding norm head v
      → All IsKey (layer_locations v s e)
  unfolding layer_locations
  layers_keys [] h = tt
  layers_keys ((name, file) ∷ v) h =
      All-append IsKey (locate s e name file (layer_of_name name)) (layer_locations v s e)
        (locate_keys name file (layer_of_name name) h.0) (layers_keys v h.1)

  pub layer_locations_keys :
      LayerTensors parameters w fetch weight embedding norm head w
      → All
          (λ l. contains l.dest_name (layer_keys parameters 0 (e - s)) ≡ true)
          (layer_locations w s e)
  unfolding IsKey
  layer_locations_keys h = layers_keys w h

module _ (s e k : ℕ) (p : String) (inside : k < e - s) where
  located :
      (name file : String) (o : Option (ℕ × String))
      → is_layer (s + k) p o ≡ true
      → wants (layer_key k p) (locate s e name file o) ≡ true
  located name file none h = absurd (false≢true h)
  located name file (some (i, q)) h =
      let (at_layer, same) = both (eqb i (s + k)) (q == p) h in
      let (within, local) = at_lem s e k i inside at_layer in
      rw (within, local, (eq_iff q p).0 same) (rw (eq_refl (layer_key k p)) refl)

  -- A parameter whose tensor the weight map has is loaded.
  pub wants-layer_locations :
      (v : Dict String)
      → lists (s + k) p v ≡ true
      → wants (layer_key k p) (layer_locations v s e) ≡ true
  unfolding lists layer_locations
  wants-layer_locations [] h = absurd (false≢true h)
  wants-layer_locations ((name, file) ∷ v) h =
      let split =
        wants-append (layer_key k p) (locate s e name file (layer_of_name name))
          (layer_locations v s e) in
      elim (Bool-cases (is_layer (s + k) p (layer_of_name name))) [
        | inl here ↦ split ∙ rw (located name file (layer_of_name name) here) refl
        | inr other ↦ split ∙ rw (wants-layer_locations v (rw other at h)) (or_true _)
      ]
