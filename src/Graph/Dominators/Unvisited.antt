-- ===== src/Graph/Dominators/Unvisited.antt =====
-- graph/dominators.go: the vertices that the search has not numbered.
use heaplens.Base.{ℕ, ◌+◌, ◌≤◌, ◌<◌, ◌≡◌, arith, List, [], ◌∷◌}
use heaplens.Base.{Bool, Bool-cases, inl, inr, true, false, ◌==◌, ◌||◌, none}
use heaplens.Base.{length, if◌then◌else◌}
use heaplens.Base.Dict.{Dict, lookup, insert, lookup-insert}
use heaplens.Graph.{ObjId}
use heaplens.Graph.Dominators.{is_present}

abbrev pub is_in : ObjId → List ObjId → Bool
is_in v [] = false
is_in v (u ∷ us) = u == v || is_in v us

-- How many of the vertices have no number.
abbrev pub unvisited : List ObjId → Dict ℕ → ℕ
unvisited [] m = 0
unvisited (u ∷ us) m = (if is_present (lookup u m) then 0 else 1) + unvisited us m

pub unvisited-shorter : (us : List ObjId) (m : Dict ℕ) → unvisited us m ≤ length us
unvisited-shorter [] m = omega arith
unvisited-shorter (u ∷ us) m = ground (arith, unvisited-shorter us m)

unvisited_mono :
    (us : List ObjId) (v n : ℕ) (m : Dict ℕ) → unvisited us (insert v n m) ≤ unvisited us m
unvisited_mono [] v n m = omega arith
unvisited_mono (u ∷ us) v n m = ground (arith, lookup-insert v u n m, unvisited_mono us v n m)

pub unvisited-insert :
    (us : List ObjId) (v n : ℕ) (m : Dict ℕ)
    → lookup v m ≡ none
    → is_in v us ≡ true
    → unvisited us (insert v n m) < unvisited us m
unvisited-insert [] v n m fresh h = let impossible : ⊥ = cc in absurd impossible
unvisited-insert (u ∷ us) v n m fresh h = elim (Bool-cases (u == v)) [
  | inl same ↦
      let gone : lookup u m ≡ none = (let eq : u ≡ v = ground arith in rw eq fresh) in
      ground (arith, lookup-insert v u n m, unvisited_mono us v n m)
  | inr other ↦
      let later = unvisited-insert us v n m fresh (ground arith) in
      ground (arith, lookup-insert v u n m)
]
