-- ===== src/Graph/Dominators/Visits.antt =====
-- graph/dominators.go: the depth-first search of Dominators.
use heaplens.Base.{ℕ, zero, suc, ◌≤◌, ◌<◌, ◌≡◌, refl, sym, ap, ◌∙◌, arith, List, [], All}
use heaplens.Base.{true, false, Option, none, some, some_inj}
use heaplens.Base.{length}
use heaplens.Base.Dict.{Dict, lookup}
use heaplens.Run.{◌>>=◌, ◌>>◌}
use heaplens.Run.Returns.{
  Returns, Returns-bind, Returns-pure, Returns-given, Returns-bool, Returns-then,
}
use heaplens.Graph.{ObjId}
use heaplens.Graph.Dominators.{Forest, new_forest, is_present, gets, update, for_each}
use heaplens.Graph.Dominators.{number_vertex, dfs, successors}
use heaplens.Graph.Dominators.Unvisited.{is_in, unvisited, unvisited-shorter, unvisited-insert}
use heaplens.Graph.Dominators.Actions.{Returns-gets, Returns-update, Returns-for_each}
use mathlib.Core.Option.{none-ne-some}
use mathlib.Core.Path.{subst}
use heaplens.Graph.Dominators.Search.{IsSearch, number_vertex-IsSearch}

not_present : {A : Type 0} (o : Option A) → is_present o ≡ false → o ≡ none
not_present none h = refl
not_present (some a) h = let impossible : ⊥ = cc in absurd impossible

module _ (nodes : List ObjId) where
  -- The search with at most `k` vertices left and at least `c` numbers given.
  abbrev pub Searching : ℕ → ℕ → Forest → Type 0
  Searching k c s = IsSearch nodes s × (unvisited nodes s.dfnum ≤ k) × (c ≤ s.dfs_num)

  no_number : is_present (lookup 0 new_forest.dfnum) ≡ true → ⊥
  unfolding new_forest lookup
  no_number e = cc

  IsSearch-new : IsSearch nodes new_forest
  unfolding new_forest lookup
  IsSearch-new = record {
    counted = refl;
    numbered = λ i v e. absurd (none-ne-some v e);
    placed = λ v n e. absurd (none-ne-some n e);
    rooted = λ h. absurd (omega (arith, h));
    parents = λ v n p e. absurd (none-ne-some n e);
    ancestors = λ v n e. absurd (none-ne-some n e);
    bests = λ v n e. absurd (none-ne-some n e);
    samedoms = λ v n e. absurd (none-ne-some n e);
    no_idom = refl;
    no_bucket = refl;
    room = omega (arith, unvisited-shorter nodes []);
  }

  Searching-new : (k : ℕ) → length nodes ≡ suc k → Searching (suc k) 0 new_forest
  Searching-new k size =
      (IsSearch-new, let le = unvisited-shorter nodes new_forest.dfnum in omega arith, omega arith)

  module _ (adj : Dict (List ObjId))
      (closed : (v : ObjId) → All (λ w. is_in w nodes ≡ true) (successors adj v)) where
    Returns-expand :
        (fuel : ℕ) (v : ObjId) (p : Option ℕ) (k c : ℕ)
        → is_in v nodes ≡ true
        → ((q : ℕ) → p ≡ some q → q < c)
        → (c ≡ 0 → v ≡ 0)
        → ((w : ObjId) (number : ℕ)
            → is_in w nodes ≡ true
            → Returns
                (Searching k (suc number))
                (dfs fuel adj w (some number))
                (λ u. Searching k (suc number)))
        → Returns
            (λ s. Searching (suc k) c s × (lookup v s.dfnum ≡ none))
            (do
              number ← gets (λ s. s.dfs_num)
              update (number_vertex v p)
              for_each (successors adj v) (λ w. dfs fuel adj w (some number)))
            (λ u. Searching k (suc c))
    unfolding number_vertex
    Returns-expand fuel v p k c inside before first rec =
        Returns-bind _ (Returns-gets (λ s. s.dfs_num)) (λ number.
          Returns-given {F = c ≤ number}
            (λ s h. (h, let le = h.0.0.2 in let e = h.1 in omega arith))
            (λ more.
              Returns-bind (λ u. Searching k (suc number))
                (Returns-update (number_vertex v p) (λ s (((search, left, le), fresh), e). (
                  number_vertex-IsSearch nodes v p s fresh inside
                      (λ q same. let lt = before q same in omega arith)
                      (λ none_yet. first (omega arith)) search,
                  let less = unvisited-insert nodes v s.dfs_num s.dfnum fresh inside in omega arith,
                  omega arith,
                )))
                (λ u.
                  Returns-then _
                    (Returns-for_each (λ w. is_in w nodes ≡ true) (successors adj v) _ (closed v)
                      (λ w inner. rec w number inner))
                    (λ u s (search, left, le). (search, left, omega arith)))))

    Returns-dfs :
        (fuel : ℕ) (v : ObjId) (p : Option ℕ) (k c : ℕ)
        → is_in v nodes ≡ true
        → k < fuel
        → ((q : ℕ) → p ≡ some q → q < c)
        → (c ≡ 0 → v ≡ 0)
        → Returns (Searching k c) (dfs fuel adj v p) (λ u. Searching k c)
    unfolding dfs
    Returns-dfs zero v p k c inside lt before first = absurd (omega (arith, lt))
    Returns-dfs (suc fuel) v p zero c inside lt before first =
        Returns-bind _ (Returns-gets (λ s. is_present (lookup v s.dfnum))) (λ visited.
          Returns-bool visited (λ e. Returns-pure tt (λ s h. h.0))
            (λ e.
              Returns-given {F = ⊥}
                (λ s (search, is). (
                  search,
                  let gone = not_present (lookup v s.dfnum) (sym is ∙ e) in
                      let less = unvisited-insert nodes v 0 s.dfnum gone inside in
                      let left = search.1 in omega arith,
                ))
                (λ impossible. absurd impossible)))
    Returns-dfs (suc fuel) v p (suc k) c inside lt before first =
        Returns-bind _ (Returns-gets (λ s. is_present (lookup v s.dfnum))) (λ visited.
          Returns-bool visited (λ e. Returns-pure tt (λ s h. h.0))
            (λ e.
              Returns-given {F = Unit {0}}
                (λ s (search, is). ((search, not_present (lookup v s.dfnum) (sym is ∙ e)), tt))
                (λ t.
                  Returns-then _
                    (Returns-expand fuel v p k c inside before first (λ w number inner.
                      Returns-dfs fuel w (some number) k (suc number) inner (omega arith)
                        (λ q same. let eq : number ≡ q = some_inj same in omega arith)
                        (λ z. absurd (omega (arith, z)))))
                    (λ u s (search, left, le). (search, omega arith, omega arith)))))

    -- From the empty maps.
    pub Returns-search :
        (fuel k : ℕ)
        → is_in 0 nodes ≡ true
        → length nodes ≡ suc k
        → k < fuel
        → Returns (λ s. s ≡ new_forest) (dfs (suc fuel) adj 0 none) (λ u. Searching k 1)
    unfolding dfs
    Returns-search fuel k inside size enough =
        Returns-bind _ (Returns-gets (λ s. is_present (lookup 0 s.dfnum))) (λ visited.
          Returns-bool visited
            (λ e.
              Returns-given {F = ⊥} {R = λ s. Searching k 1 s}
                (λ s (empty, is).
                  absurd
                    (no_number (ap (λ t. is_present (lookup 0 t.dfnum)) (sym empty) ∙ sym is ∙ e)))
                (λ impossible. absurd impossible))
            (λ e.
              Returns-given {F = Unit {0}}
                (λ s (empty, is). (
                  (
                    subst (Searching (suc k) 0) (sym empty) (Searching-new k size),
                    not_present (lookup 0 s.dfnum) (sym is ∙ e),
                  ),
                  tt,
                ))
                (λ t.
                  Returns-expand fuel 0 none k 0 inside (λ q same. absurd (none-ne-some q same))
                    (λ z. z)
                    (λ w number inner.
                      Returns-dfs fuel w (some number) k (suc number) inner enough
                        (λ q same. let eq : number ≡ q = some_inj same in omega arith)
                        (λ z. absurd (omega (arith, z)))))))
