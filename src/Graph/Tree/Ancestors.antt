-- ===== src/Graph/Tree/Ancestors.antt =====
-- graph/domtree.go: DominatorPath and IsDominated.
use heaplens.Base.{ℕ, zero, suc, ◌<◌, ◌≡◌, ◌≢◌, refl, arith, List, [], ◌∷◌, ◌++◌}
use heaplens.Base.{Bool, Bool-cases, true, false, ◌||◌, inl, inr, Option, none, some, ◌==◌}
use heaplens.Base.Dict.{lookup}
use heaplens.Graph.{ObjId}
use heaplens.Graph.Paths.{contains}
use heaplens.Graph.Tree.{Idom, add_super_root, dominator_path, dominator_path_loop}
use heaplens.Graph.Tree.{is_dominated, is_dominated_loop}

-- Along the map a rank goes down, up to the super-root: what a tree has in the place of cycles.
abbrev pub IsRanked : (ObjId → ℕ) → Idom → Type 0
IsRanked rank idom = (v d : ObjId) → lookup v idom ≡ some d → d ≢ 0 → rank d < rank v

contains-append :
    (xs : List ObjId) (y x : ObjId) → contains (xs ++ y ∷ []) x ≡ (contains xs x || (y == x))
unfolding contains
contains-append [] y x = ground arith
contains-append (z ∷ xs) y x = ground (arith, contains-append xs y x)

contains-add_super_root :
    (path : List ObjId) (current d : ObjId)
    → (0 == d) ≡ false
    → contains (add_super_root path current) d ≡ contains path d
unfolding add_super_root
contains-add_super_root path current d h = ground (arith, contains-append path 0 d)

-- What the two loops have in common from `current` on.
abbrev Agree : ℕ → Idom → List ObjId → ObjId → ObjId → Type 0
Agree fuel idom path current d =
    (whole : List ObjId) × (answer : Bool) × (dominator_path_loop fuel idom path current
      ≡ some whole)
    × (is_dominated_loop fuel idom current d ≡ some answer)
    × (contains whole d ≡ (contains path d || (current == d) || answer))

module _ (d : ObjId) (nonzero : (0 == d) ≡ false) (fuel : ℕ) (idom : Idom) (path : List ObjId)
    (current : ObjId) where
  other_zero : (dom : ObjId) → (dom == 0) ≡ true → (dom == d) ≡ false
  other_zero dom h = ground arith

  sym_test : (d == 0) ≡ false
  sym_test = ground arith

  -- One round, by what the map has for `current`.
  Agree-step :
      (next : Option ObjId)
      → lookup current idom ≡ next
      → ((dom : ObjId)
          → next ≡ some dom
          → (dom == 0) ≡ false
          → Agree fuel idom (path ++ current ∷ []) dom d)
      → Agree (suc fuel) idom path current d
  unfolding dominator_path_loop is_dominated_loop
  Agree-step none e above = (
    add_super_root (path ++ current ∷ []) current,
    false,
    rw (e, dominator_path_loop) refl,
    rw (e, is_dominated_loop) refl,
    ground (
      arith,
      contains-add_super_root (path ++ current ∷ []) current d nonzero,
      contains-append path current d,
    ),
  )
  Agree-step (some dom) e above = elim (Bool-cases (dom == 0)) [
    | inl zero_dom ↦ (
      add_super_root (path ++ current ∷ []) current,
      false,
      rw (e, dominator_path_loop, zero_dom) refl,
      rw (e, is_dominated_loop, other_zero dom zero_dom, zero_dom, sym_test) refl,
      ground (
        arith,
        contains-add_super_root (path ++ current ∷ []) current d nonzero,
        contains-append path current d,
      ),
    )
    | inr inner ↦
        let (whole, answer, path_ends, test_ends, same) = above dom refl inner in
        elim (Bool-cases (dom == d)) [
          | inl found ↦ (
            whole,
            true,
            rw (e, dominator_path_loop, inner) path_ends,
            rw (e, is_dominated_loop, found) refl,
            ground (arith, contains-append path current d),
          )
          | inr other ↦ (
            whole,
            answer,
            rw (e, dominator_path_loop, inner) path_ends,
            rw (e, is_dominated_loop, other, inner) test_ends,
            ground (arith, contains-append path current d),
          )
        ]
  ]

loops-Agree :
    (rank : ObjId → ℕ) (idom : Idom)
    → IsRanked rank idom
    → (d : ObjId) → (0 == d) ≡ false
    → (fuel : ℕ) (path : List ObjId) (current : ObjId) → rank current < fuel
    → Agree fuel idom path current d
loops-Agree rank idom ranked d nonzero zero path current h = absurd (omega arith)
loops-Agree rank idom ranked d nonzero (suc fuel) path current h =
    Agree-step d nonzero fuel idom path current (lookup current idom) refl (λ dom e inner.
      loops-Agree rank idom ranked d nonzero fuel (path ++ current ∷ []) dom
        (omega (arith, ranked current dom e (ground arith))))

-- Where the map has no cycles, by a rank that goes down along it, both DominatorPath and IsDominated
-- come to an end within one round more than the rank of the node, and a dominator other than the
-- super-root dominates the node exactly when it is on the path.
pub is_dominated-dominator_path :
    (rank : ObjId → ℕ) (idom : Idom) (node d fuel : ℕ)
    → IsRanked rank idom
    → d ≢ 0
    → rank node < fuel
    → (path : List ObjId) × (dominator_path fuel idom node ≡ some path)
      × (is_dominated fuel idom node d ≡ some (contains path d))
unfolding dominator_path is_dominated contains
is_dominated-dominator_path rank idom node d fuel ranked nonzero h =
    let (path, answer, path_ends, test_ends, same) =
      loops-Agree rank idom ranked d (ground arith) fuel [] node h in
    elim (Bool-cases (node == d)) [
      | inl self ↦ (path, path_ends, ground arith)
      | inr other ↦ (path, path_ends, ground arith)
    ]
