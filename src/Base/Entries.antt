-- ===== src/Base/Entries.antt =====
-- What holds of the entries of a map, after one is set, found or deleted.
use heaplens.Base.{
  ℕ, ◌≡◌, refl, sym, ◌∙◌, All-imp, arith, [], ◌∷◌, All, Bool, true, false, Bool-cases, inl, inr,
  ◌==◌,
}
use heaplens.Base.{none, Option, some, if◌then◌else◌}
use heaplens.Base.Dict.{Dict, lookup, insert, delete, lookup-insert, lookup-delete}
use mathlib.Core.Option.{none-ne-some}

-- What is found in a map after an entry is set.
pub insert-holds :
    {A : Type 0} (P : Option A → Type 0) (key u : ℕ) (x : A) (m : Dict A)
    → (key ≡ u → P (some x))
    → P (lookup u m)
    → P (lookup u (insert key x m))
insert-holds P key u x m own old = elim (Bool-cases (key == u)) [
  | inl same ↦ rw (lookup-insert key u x m, same) (own (ground arith))
  | inr differs ↦ rw (lookup-insert key u x m, differs) old
]

pub if-holds :
    {A : Type 0} (P : A → Type 0) (b : Bool) {x y : A} → P x → P y → P (if b then x else y)
if-holds P true h k = h
if-holds P false h k = k

pub All-insert :
    {A : Type 0} (P : ℕ × A → Type 0) (key : ℕ) (x : A) (m : Dict A)
    → P (key, x)
    → All P m
    → All P (insert key x m)
unfolding insert
All-insert P key x [] own h = (own, tt)
All-insert P key x (entry ∷ m) own (h, hs) =
    if-holds (All P) (entry.0 == key) (own, hs) (h, All-insert P key x m own hs)

pub All-lookup :
    {A : Type 0} (P : ℕ × A → Type 0) (key : ℕ) (x : A) (m : Dict A)
    → All P m
    → lookup key m ≡ some x
    → P (key, x)
unfolding lookup
All-lookup P key x [] h e = absurd (none-ne-some x e)
All-lookup P key x ((k, y) ∷ m) (h, hs) e = elim (Bool-cases (k == key)) [
  | inl same ↦
      let key_is : k ≡ key = ground arith in
      let value_is : y ≡ x = ground arith in rw (← key_is, ← value_is) h
  | inr other ↦ All-lookup P key x m hs (ground arith)
]

pub All-delete :
    {A : Type 0} (P : ℕ × A → Type 0) (key : ℕ) (m : Dict A) → All P m → All P (delete key m)
unfolding delete
All-delete P key [] h = tt
All-delete P key (entry ∷ m) (h, hs) =
    if-holds (All P) (entry.0 == key) (All-delete P key m hs) (h, All-delete P key m hs)

-- Every key stands once.
abbrev pub HasKeysOnce : {A : Type 0} → Dict A → Type 0
HasKeysOnce [] = Unit
HasKeysOnce ((k, x) ∷ m) = (lookup k m ≡ none) × HasKeysOnce m

pub insert-HasKeysOnce :
    {A : Type 0} (key : ℕ) (x : A) (m : Dict A) → HasKeysOnce m → HasKeysOnce (insert key x m)
unfolding insert lookup
insert-HasKeysOnce key x [] h = (refl, tt)
insert-HasKeysOnce key x ((k, y) ∷ m) (fresh, h) = elim (Bool-cases (k == key)) [
  | inl same ↦ let eq : k ≡ key = ground arith in rw same (rw (← eq) fresh, h)
  | inr differs ↦ rw differs (ground (arith, lookup-insert key k x m), insert-HasKeysOnce key x m h)
]

pub delete-HasKeysOnce :
    {A : Type 0} (key : ℕ) (m : Dict A) → HasKeysOnce m → HasKeysOnce (delete key m)
unfolding delete
delete-HasKeysOnce key [] h = tt
delete-HasKeysOnce key ((k, y) ∷ m) (fresh, h) = elim (Bool-cases (k == key)) [
  | inl same ↦ rw same (delete-HasKeysOnce key m h)
  | inr differs ↦ rw differs (ground (arith, lookup-delete key k m), delete-HasKeysOnce key m h)
]

pub All-found :
    {A : Type 0} (m : Dict A) → HasKeysOnce m → All (λ entry. lookup entry.0 m ≡ some entry.1) m
unfolding lookup
All-found [] h = tt
All-found ((k, x) ∷ m) (fresh, h) = (
  ground arith,
  All-imp m
      (λ (key, y) found. elim (Bool-cases (k == key)) [
        | inl same ↦
            let eq : k ≡ key = ground arith in
            let gone : lookup key m ≡ none = rw (← eq) fresh in
            absurd (none-ne-some y (sym gone ∙ found))
        | inr differs ↦ rw differs found
      ])
      (All-found m h),
)
