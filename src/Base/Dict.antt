-- ===== src/Base/Dict.antt =====
-- A Go map keyed by machine words, as an association list: one entry for each key, in an order
-- that stands for nothing (what iterates takes the order as an argument).
use heaplens.Base.Tests.{◌==◌, if◌then◌else◌}
use Prim.Native.Nat.{ℕ}
use mathlib.Core.Path.{◌≡◌, refl}
use mathlib.Core.Option.{Option, none, some}
use mathlib.Core.List.{List, [], ◌∷◌}
use native.Mathlib.Omega.{arith}

abbrev pub Dict {ℓ} : Type ℓ → Type ℓ
Dict V = List (ℕ × V)

module _ {ℓ} {V : Type ℓ} where
  -- m[key], where `none` is the second value false of `v, ok := m[key]`.
  unfoldable pub lookup : ℕ → Dict V → Option V
  lookup key [] = none
  lookup key (entry ∷ entries) = if entry.0 == key then some entry.1 else lookup key entries

  -- m[key] = value, in the place of an entry that is there.
  unfoldable pub insert : ℕ → V → Dict V → Dict V
  insert key value [] = (key, value) ∷ []
  insert key value (entry ∷ entries) =
      if entry.0 == key then (key, value) ∷ entries else entry ∷ insert key value entries

  -- delete(m, key)
  unfoldable pub delete : ℕ → Dict V → Dict V
  delete key [] = []
  delete key (entry ∷ entries) =
      let others = delete key entries in if entry.0 == key then others else entry ∷ others

  pub lookup-insert :
      (key other : ℕ) (value : V) (entries : Dict V)
      → lookup other (insert key value entries)
        ≡ (if key == other then some value else lookup other entries)
  unfolding lookup insert
  lookup-insert key other value [] = refl
  lookup-insert key other value (entry ∷ entries) =
      ground (arith, lookup-insert key other value entries)

  pub lookup-delete :
      (key other : ℕ) (entries : Dict V)
      → lookup other (delete key entries) ≡ (if key == other then none else lookup other entries)
  unfolding lookup delete
  lookup-delete key other [] = ground arith
  lookup-delete key other (entry ∷ entries) = ground (arith, lookup-delete key other entries)
