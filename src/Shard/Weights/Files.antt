-- ===== src/Shard/Weights/Files.antt =====
-- The state dictionary that is read from the files of a checkpoint.
use pi_ssm.Base.{
  String, Bool, false, ◌||◌, Option, none, some, List, [], ◌∷◌, ◌++◌, ◌≡◌, refl, ap, ◌∙◌, ◌==◌,
  eq_iff, arith, All, All-append, if◌then◌else◌, inl, inr, Bool-cases, subst,
}
use pi_ssm.Base.Dict
use pi_ssm.Base.Dict.{Dict, get-put}
use pi_ssm.Base.Result.{ok}
use pi_ssm.Shard.Locations.{TensorLocationSpec}
use pi_ssm.Shard.Weights.{appended, by_file, read_tensors, read_files}

-- A location loads the parameter.
abbrev pub wants : String → List TensorLocationSpec → Bool
wants k [] = false
wants k (l ∷ ls) = (l.dest_name == k) || wants k ls

-- All locations of the groups, in the order in which they are read.
abbrev in_groups : Dict (List TensorLocationSpec) → List TensorLocationSpec
in_groups [] = []
in_groups ((file, locations) ∷ rest) = locations ++ in_groups rest

pub wants-append :
    (k : String) (xs ys : List TensorLocationSpec) → wants k (xs ++ ys) ≡ (wants k xs || wants k ys)
wants-append k [] ys = refl
wants-append k (x ∷ xs) ys = ground (arith, wants-append k xs ys)

-- A location joins the group of its file.
wants-put :
    (k : String) (groups : Dict (List TensorLocationSpec)) (l : TensorLocationSpec)
    → wants k
        (in_groups (Dict.put groups l.source_file (appended (Dict.get groups l.source_file) l)))
      ≡ ((l.dest_name == k) || wants k (in_groups groups))
unfolding Dict.put Dict.get
wants-put k [] l = refl
wants-put k ((file, locations) ∷ groups) l = elim (Bool-cases (file == l.source_file)) [
  | inl same ↦ rw same (
      ground (
        arith,
        wants-append k (locations ++ l ∷ []) (in_groups groups),
        wants-append k locations (l ∷ []),
        wants-append k locations (in_groups groups),
      ))
  | inr other ↦ rw other (
      ground (
        arith,
        wants-append k locations (in_groups groups),
        wants-append k locations (
            in_groups (Dict.put groups l.source_file (appended (Dict.get groups l.source_file) l))),
        wants-put k groups l,
      ))
]

wants-by_file :
    (k : String) (groups : Dict (List TensorLocationSpec)) (ls : List TensorLocationSpec)
    → wants k (in_groups (by_file groups ls)) ≡ (wants k (in_groups groups) || wants k ls)
unfolding by_file
wants-by_file k groups [] = ground arith
wants-by_file k groups (l ∷ ls) =
    let groups' = Dict.put groups l.source_file (appended (Dict.get groups l.source_file) l) in
    wants-by_file k groups' ls ∙ ground (arith, wants-put k groups l)

module _ {Weight : Type 0} (fetch : String → Option (Dict Weight)) (value : String → Weight) where
  -- The tensors of a file have the value of the parameter.
  abbrev Has : Dict Weight → TensorLocationSpec → Type 0
  Has tensors l = Dict.get tensors l.source_name ≡ some (value l.dest_name)

  abbrev pub IsFound : TensorLocationSpec → Type 0
  IsFound l = (tensors : Dict Weight) × (fetch l.source_file ≡ some tensors) × Has tensors l

  abbrev IsRead : String → List TensorLocationSpec → Type 0
  IsRead file ls = (tensors : Dict Weight) × (fetch file ≡ some tensors) × All (Has tensors) ls

  abbrev AreRead : Dict (List TensorLocationSpec) → Type 0
  AreRead [] = Unit
  AreRead ((file, ls) ∷ groups) = IsRead file ls × AreRead groups

  one_file :
      (file file' : String) (tensors tensors' : Dict Weight)
      → file ≡ file'
      → fetch file ≡ some tensors
      → fetch file' ≡ some tensors'
      → tensors' ≡ tensors
  one_file file file' tensors tensors' e p q = cc

  joined :
      (file : String) (ls : List TensorLocationSpec) (l : TensorLocationSpec)
      → file ≡ l.source_file
      → IsRead file ls
      → IsFound l
      → IsRead file (ls ++ l ∷ [])
  joined file ls l e (tensors, p, all) (tensors', p', q) = (
    tensors,
    p,
    All-append (Has tensors) ls (l ∷ []) all (
      subst (λ (t : Dict Weight). Has t l) (one_file file l.source_file tensors tensors' e p p') q,
      tt,
    ),
  )

  AreRead-put :
      (groups : Dict (List TensorLocationSpec)) (l : TensorLocationSpec)
      → AreRead groups
      → IsFound l
      → AreRead (Dict.put groups l.source_file (appended (Dict.get groups l.source_file) l))
  unfolding Dict.put Dict.get
  AreRead-put [] l h (tensors, p, q) = ((tensors, p, (q, tt)), tt)
  AreRead-put ((file, ls) ∷ groups) l h found = elim (Bool-cases (file == l.source_file)) [
    | inl same ↦ rw same (joined file ls l ((eq_iff file l.source_file).0 same) h.0 found, h.1)
    | inr other ↦ rw other (h.0, AreRead-put groups l h.1 found)
  ]

  AreRead-by_file :
      (ls : List TensorLocationSpec) (groups : Dict (List TensorLocationSpec))
      → AreRead groups
      → All IsFound ls
      → AreRead (by_file groups ls)
  unfolding by_file
  AreRead-by_file [] groups h found = h
  AreRead-by_file (l ∷ ls) groups h found =
      AreRead-by_file ls
        (Dict.put groups l.source_file (appended (Dict.get groups l.source_file) l))
        (AreRead-put groups l h found.0) found.1

  -- The state has the values of the parameters for which `f` holds, and nothing else.
  abbrev pub Fills : Dict Weight → (String → Bool) → Type 0
  Fills state f = (k : String) → Dict.get state k ≡ (if f k then some (value k) else none)

  Fills-put :
      (state : Dict Weight) (f : String → Bool) (l : TensorLocationSpec)
      → Fills state f
      → Fills (Dict.put state l.dest_name (value l.dest_name)) (λ k. f k || (l.dest_name == k))
  Fills-put state f l h k = elim (Bool-cases (l.dest_name == k)) [
    | inl same ↦
        get-put state l.dest_name k (value l.dest_name)
        ∙ rw same
            (ap (λ (n : String). some (value n)) ((eq_iff l.dest_name k).0 same) ∙ ground arith)
    | inr other ↦ get-put state l.dest_name k (value l.dest_name) ∙ rw other (h k ∙ ground arith)
  ]

  Fills-eq :
      (state : Dict Weight) (f g : String → Bool)
      → ((k : String) → f k ≡ g k)
      → Fills state f
      → Fills state g
  Fills-eq state f g e h k =
      h k ∙ ap (λ (b : Bool). let o : Option Weight = if b then some (value k) else none in o) (e k)

  read_tensors_lem :
      (ls : List TensorLocationSpec) (tensors state : Dict Weight) (f : String → Bool)
      → All (Has tensors) ls
      → Fills state f
      → (after : Dict Weight) × (read_tensors tensors ls state ≡ ok after)
        × Fills after (λ k. f k || wants k ls)
  unfolding read_tensors
  read_tensors_lem [] tensors state f found h =
      (state, refl, Fills-eq state f (λ k. f k || false) (λ k. ground arith) h)
  read_tensors_lem (l ∷ ls) tensors state f found h =
      let (after, ran, fills) =
        read_tensors_lem ls tensors (Dict.put state l.dest_name (value l.dest_name))
          (λ k. f k || (l.dest_name == k)) found.1 (Fills-put state f l h) in
      (
        after,
        rw (found.0) ran,
        Fills-eq after (λ k. (f k || (l.dest_name == k)) || wants k ls)
            (λ k. f k || wants k (l ∷ ls)) (λ k. ground arith) fills,
      )

  read_files_lem :
      (groups : Dict (List TensorLocationSpec)) (state : Dict Weight) (f : String → Bool)
      → AreRead groups
      → Fills state f
      → (after : Dict Weight) × (read_files fetch groups state ≡ ok after)
        × Fills after (λ k. f k || wants k (in_groups groups))
  unfolding read_files
  read_files_lem [] state f h fills =
      (state, refl, Fills-eq state f (λ k. f k || false) (λ k. ground arith) fills)
  read_files_lem ((file, ls) ∷ groups) state f ((tensors, fetched, all), h) fills =
      let (middle, ran, fills') = read_tensors_lem ls tensors state f all fills in
      let (after, others, fills'') =
        read_files_lem groups middle (λ k. f k || wants k ls) h fills' in
      (
        after,
        rw (fetched, ran) others,
        Fills-eq after (λ k. (f k || wants k ls) || wants k (in_groups groups))
            (λ k. f k || wants k (in_groups ((file, ls) ∷ groups)))
            (λ k. ground (arith, wants-append k ls (in_groups groups))) fills'',
      )

  start : Fills [] (λ k. false)
  unfolding Dict.get
  start k = refl

  -- Where each tensor is found, the state has exactly the parameters of the locations.
  pub read_files-by_file :
      (ls : List TensorLocationSpec)
      → All IsFound ls
      → (state : Dict Weight) × (read_files fetch (by_file [] ls) [] ≡ ok state)
        × Fills state (λ k. wants k ls)
  read_files-by_file ls found =
      let (state, ran, fills) =
        read_files_lem (by_file [] ls) [] (λ k. false) (AreRead-by_file ls [] tt found) start in
      (
        state,
        ran,
        Fills-eq state (λ k. false || wants k (in_groups (by_file [] ls))) (λ k. wants k ls)
            (λ k. wants-by_file k [] ls) fills,
      )
