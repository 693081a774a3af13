-- ===== src/Shard/Weights/Checkpoint.antt =====
-- A checkpoint with the tensors of a model, and what the locations of a shard find in it.
use Prim.Native.String.{◌++◌ as ◌++ₛ◌}
use pi_ssm.Base.{
  ℕ, ◌+◌, ◌-◌, ◌<◌, String, Bool, true, false, ◌&&◌, ◌||◌, Option, none, some, List, [], ◌∷◌, ◌≡◌,
  refl, ap, subst, sym, ◌∙◌, ◌==◌, eq_iff, eqb, arith, All, All-append, contains, if◌then◌else◌,
  Bool-cases, inl, inr, false≢true,
}
use pi_ssm.Base.Dict
use pi_ssm.Base.Dict.{Dict}
use pi_ssm.Base.Result.{ok}
use pi_ssm.Shard.Locations.{
  TensorLocationSpec, layer_of_name, nonempty, in_range, locate, layer_locations, first_locations,
  last_locations,
}
use pi_ssm.Shard.Weights.{layer_key}
use pi_ssm.Shard.Weights.Names.{layer_of_name-layer_key}
use pi_ssm.Shard.Weights.Files.{IsFound, wants}

abbrev pub is_layer : ℕ → String → Option (ℕ × String) → Bool
is_layer i p none = false
is_layer i p (some (j, q)) = eqb j i && (q == p)

-- The weight map has a tensor of the layer with the parameter's name.
unfoldable pub lists : ℕ → String → Dict String → Bool
lists i p [] = false
lists i p ((name, file) ∷ rest) = is_layer i p (layer_of_name name) || lists i p rest

range_lem : (s e i : ℕ) → in_range s e i ≡ true → s + (i - s) ≡ i
range_lem s e i inside = ground arith

pub named_lem :
    (ps : List String) (p : String)
    → All (λ p. nonempty p ≡ some p) ps
    → contains p ps ≡ true
    → nonempty p ≡ some p
named_lem [] p h there = absurd (false≢true there)
named_lem (q ∷ ps) p h there = elim (Bool-cases (q == p)) [
  | inl same ↦ subst (λ (r : String). nonempty r ≡ some r) ((eq_iff q p).0 same) h.0
  | inr other ↦ named_lem ps p h.1 (rw other at there)
]

module _ {Weight : Type 0} (parameters : List String) (w : Dict String)
    (fetch : String → Option (Dict Weight)) (weight : ℕ → String → Weight)
    (embedding norm head : Weight) where
  -- The file can be read and has the tensor.
  abbrev pub HasTensor : String → String → Weight → Type 0
  HasTensor file name v =
      (tensors : Dict Weight) × (fetch file ≡ some tensors) × (Dict.get tensors name ≡ some v)

  abbrev pub Names : String → Weight → Type 0
  Names name v = (file : String) × (Dict.get w name ≡ some file) × HasTensor file name v

  -- A tensor of a layer is the weight of a parameter of its block.
  abbrev pub LayerTensor : String → String → Option (ℕ × String) → Type 0
  LayerTensor name file none = Unit
  LayerTensor name file (some (i, p)) =
      (contains p parameters ≡ true) × HasTensor file name (weight i p)

  abbrev pub LayerTensors : Dict String → Type 0
  LayerTensors [] = Unit
  LayerTensors ((name, file) ∷ rest) =
      LayerTensor name file (layer_of_name name) × LayerTensors rest

  -- The head's own tensor, or the embedding's where the checkpoint has none.
  abbrev pub HeadTensor : Option String → Type 0
  HeadTensor none = head ≡ embedding
  HeadTensor (some file) = HasTensor file "lm_head.weight" head

  -- The checkpoint holds the weights of a model with `total` layers.
  pub record IsCheckpoint (total : ℕ) : Type 0 where
    pub named : All (λ p. nonempty p ≡ some p) parameters
    pub layer_tensors : LayerTensors w
    pub complete :
        (i : ℕ) (p : String) → i < total → contains p parameters ≡ true → lists i p w ≡ true
    pub embedding_there : Names "backbone.embeddings.weight" embedding
    pub norm_there : Names "backbone.norm_f.weight" norm
    pub head_there : HeadTensor (Dict.get w "lm_head.weight")

  -- The weight that a parameter of the shard from layer `s` on has.
  abbrev value_by : ℕ → String → Option (ℕ × String) → Weight
  value_by s key (some (k, p)) = weight (s + k) p
  value_by s key none =
      if key == "embeddings.weight"
      then embedding
      else if key == "norm_f.weight"
      then norm
      else head

  pub value : ℕ → String → Weight
  value s key = value_by s key (layer_of_name ("backbone." ++ₛ key))

  pub value-layer_key :
      (s k : ℕ) (p : String) → nonempty p ≡ some p → value s (layer_key k p) ≡ weight (s + k) p
  unfolding value
  value-layer_key s k p named = rw (layer_of_name-layer_key k p named) refl

  pub value_ends :
      (s : ℕ)
      → (value s "embeddings.weight" ≡ embedding)
        × (value s "norm_f.weight" ≡ norm)
        × (value s "lm_head.weight" ≡ head)
  unfolding value layer_of_name
  value_ends s = (refl, refl, refl)

  module _ {total : ℕ} (c : IsCheckpoint total) where
    locate_found :
        (s e : ℕ) (name file : String) (o : Option (ℕ × String))
        → LayerTensor name file o
        → All (IsFound fetch (value s)) (locate s e name file o)
    locate_found s e name file none h = tt
    locate_found s e name file (some (i, p)) (there, (tensors, fetched, got)) =
        elim (Bool-cases (in_range s e i)) [
          | inl inside ↦
              let named = named_lem parameters p c.named there in
              let same : s + (i - s) ≡ i = range_lem s e i inside in
              rw inside (
                (
                  tensors,
                  fetched,
                  got
                      ∙ ap some (
                          sym
                            (value-layer_key s (i - s) p named ∙ ap (λ (j : ℕ). weight j p) same)),
                ),
                tt,
              )
          | inr outside ↦ rw outside tt
        ]

    layers_found :
        (s e : ℕ) (v : Dict String)
        → LayerTensors v
        → All (IsFound fetch (value s)) (layer_locations v s e)
    unfolding layer_locations
    layers_found s e [] h = tt
    layers_found s e ((name, file) ∷ v) h =
        All-append (IsFound fetch (value s)) (locate s e name file (layer_of_name name))
          (layer_locations v s e) (locate_found s e name file (layer_of_name name) h.0)
          (layers_found s e v h.1)

    -- What a list of locations is for: each tensor is found, and for a flag and the parameters under it,
    -- these are loaded exactly if the flag is set.
    pub record Ends (s : ℕ) (flag : Bool) (keys : List String) (ls : List TensorLocationSpec)
        : Type 0 where
      pub found : All (IsFound fetch (value s)) ls
      pub dests : All (λ l. (flag && contains l.dest_name keys) ≡ true) ls
      pub loaded : flag ≡ true → All (λ k. wants k ls ≡ true) keys

    pub first_lem :
        (s : ℕ) (first : Bool)
        → (ls : List TensorLocationSpec) × (first_locations w first ≡ ok ls)
          × Ends s first ("embeddings.weight" ∷ []) ls
    unfolding first_locations
    first_lem s false =
        ([], refl, record { found = tt; dests = tt; loaded = λ up. absurd (false≢true up) })
    first_lem s true =
        let (file, there, (tensors, fetched, got)) = c.embedding_there in
        (
          record {
            dest_name = "embeddings.weight";
            source_name = "backbone.embeddings.weight";
            source_file = file;
          }
              ∷ [],
          rw there refl,
          record {
            found = ((tensors, fetched, got ∙ ap some (sym ((value_ends s).0))), tt);
            dests = (refl, tt);
            loaded = λ up. (refl, tt);
          },
        )

    -- The locations of the norm and of the head in its file.
    abbrev tail_of : String → String → String → List TensorLocationSpec
    tail_of norm_file source file =
        record {
          dest_name = "norm_f.weight";
          source_name = "backbone.norm_f.weight";
          source_file = norm_file;
        }
        ∷ record { dest_name = "lm_head.weight"; source_name = source; source_file = file }
        ∷ []

    tail_Ends :
        (s : ℕ) (norm_file source file : String)
        → HasTensor norm_file "backbone.norm_f.weight" norm
        → HasTensor file source head
        → Ends s true ("norm_f.weight" ∷ "lm_head.weight" ∷ []) (tail_of norm_file source file)
    tail_Ends s norm_file source file (ts, f, g) (ts', f', g') = record {
      found = (
        (ts, f, g ∙ ap some (sym ((value_ends s).1))),
        ((ts', f', g' ∙ ap some (sym ((value_ends s).2))), tt),
      );
      dests = (refl, (refl, tt));
      loaded = λ up. (refl, (refl, tt));
    }

    head_lem :
        (o : Option String)
        → Dict.get w "lm_head.weight" ≡ o
        → HeadTensor o
        → (source : String) × (file : String) × ((norm_file : String)
            → Dict.get w "backbone.norm_f.weight" ≡ some norm_file
            → last_locations w true ≡ ok (tail_of norm_file source file))
          × HasTensor file source head
    unfolding last_locations
    head_lem none tied h =
        let (file, there, (ts, f, g)) = c.embedding_there in
        (
          "backbone.embeddings.weight",
          file,
          λ norm_file norm. rw (norm, tied, there) refl,
          (ts, f, g ∙ ap some (sym h)),
        )
    head_lem (some file) own h =
        ("lm_head.weight", file, λ norm_file norm. rw (norm, own) (rw own refl), h)

    pub last_lem :
        (s : ℕ) (last : Bool)
        → (ls : List TensorLocationSpec) × (last_locations w last ≡ ok ls)
          × Ends s last ("norm_f.weight" ∷ "lm_head.weight" ∷ []) ls
    last_lem s false = (
      [],
      unfold last_locations in refl,
      record { found = tt; dests = tt; loaded = λ up. absurd (false≢true up) },
    )
    last_lem s true =
        let (norm_file, there, has) = c.norm_there in
        let (source, file, located, has') =
          head_lem (Dict.get w "lm_head.weight") refl c.head_there in
        (
          tail_of norm_file source file,
          located norm_file there,
          tail_Ends s norm_file source file has has',
        )

    pub layer_locations_found : (s e : ℕ) → All (IsFound fetch (value s)) (layer_locations w s e)
    layer_locations_found s e = layers_found s e w c.layer_tensors
