-- ===== src/Graph/Paths/Lengths.antt =====
-- Lists that are sorted by a length of their elements.
use heaplens.Base.{ℕ, ◌≤◌, List, [], ◌∷◌, ◌++◌, All, All-snoc}

module _ {A : Type 0} (size : A → ℕ) where
  abbrev pub IsSorted : List A → Type 0
  IsSorted [] = Unit
  IsSorted (x ∷ xs) = All (λ y. size x ≤ size y) xs × IsSorted xs

  pub IsSorted-snoc :
      (xs : List A) (last : A)
      → IsSorted xs
      → All (λ x. size x ≤ size last) xs
      → IsSorted (xs ++ last ∷ [])
  IsSorted-snoc [] last h le = (tt, tt)
  IsSorted-snoc (x ∷ xs) last (h, hs) (le, les) =
      (All-snoc (λ y. size x ≤ size y) xs last h le, IsSorted-snoc xs last hs les)
