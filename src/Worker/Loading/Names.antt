-- ===== src/Worker/Loading/Names.antt =====
-- Lists of distinct names: the set of the models that a worker is loading.
use pi_ssm.Base.{
  String, false, ◌||◌, List, [], ◌∷◌, ◌++◌, contains, ◌≡◌, refl, arith, eq_iff, eq_refl,
}
use pi_ssm.Worker.Loading.{discard}

abbrev pub IsDistinct : List String → Type 0
IsDistinct [] = Unit
IsDistinct (k ∷ ks) = (contains k ks ≡ false) × IsDistinct ks

pub contains-append :
    (k : String) (xs ys : List String) → contains k (xs ++ ys) ≡ (contains k xs || contains k ys)
contains-append k [] ys = refl
contains-append k (x ∷ xs) ys = ground (arith, contains-append k xs ys)

pub IsDistinct-snoc :
    (k : String) (xs : List String)
    → contains k xs ≡ false
    → IsDistinct xs
    → IsDistinct (xs ++ k ∷ [])
IsDistinct-snoc k [] h d = (refl, tt)
IsDistinct-snoc k (x ∷ xs) h d = (
  ground (arith, contains-append x xs (k ∷ []), eq_iff k x, eq_iff x k),
  IsDistinct-snoc k xs (ground arith) d.1,
)

discard_absent : (k : String) (xs : List String) → contains k xs ≡ false → discard xs k ≡ xs
discard_absent k [] h = refl
discard_absent k (x ∷ xs) h = ground (arith, discard_absent k xs)

-- A name taken out of distinct names.
pub discard_lem :
    (k : String) (xs ys : List String)
    → IsDistinct (xs ++ k ∷ ys)
    → IsDistinct (xs ++ ys)
      × (contains k (xs ++ ys) ≡ false)
      × (discard (xs ++ k ∷ ys) k ≡ xs ++ ys)
discard_lem k [] ys d = (d.1, d.0, rw eq_refl (discard_absent k ys d.0))
discard_lem k (x ∷ xs) ys d =
    let (distinct, absent, same) = discard_lem k xs ys d.1 in
    let c = contains-append x xs (k ∷ ys) in
    let c' = contains-append x xs ys in
    (
      (ground arith, distinct),
      ground (arith, eq_iff k x, eq_iff x k),
      ground (arith, eq_iff k x, eq_iff x k),
    )

-- A name that was not there, added and taken out again.
pub discard-add :
    (k : String) (xs : List String) → contains k xs ≡ false → discard (xs ++ k ∷ []) k ≡ xs
discard-add k [] h = rw eq_refl refl
discard-add k (x ∷ xs) h = ground (arith, discard-add k xs)
