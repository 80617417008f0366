-- ===== src/Graph/Dominators/Search.antt =====
-- graph/dominators.go: the maps during the depth-first search.
use heaplens.Base.{
  ℕ, zero, suc, ◌+◌, ◌≤◌, ◌<◌, ◌≡◌, refl, sym, ap, ◌∙◌, ◌⊎◌, arith, List, [], ◌∷◌, ◌++◌,
}
use heaplens.Base.{Bool-cases, inl, inr, true, ◌==◌, Option, none, some, some_inj}
use heaplens.Base.{get_elem?, length, length-append}
use heaplens.Base.Dict.{Dict, lookup, insert, lookup-insert}
use heaplens.Graph.{ObjId}
use heaplens.Graph.Dominators.{Forest, get_or}
use heaplens.Graph.Dominators.{number_vertex, ancestor_of, best_of}
use heaplens.Graph.Dominators.Numbering.{parent_of, samedom_of}
use heaplens.Base.Entries.{insert-holds}
use heaplens.Graph.Dominators.Unvisited.{is_in, unvisited, unvisited-insert}
use mathlib.Core.Option.{none-ne-some}

get_elem?-snoc :
    (xs : List ObjId) (v : ObjId) (i : ℕ) (x : ObjId)
    → get_elem? (xs ++ v ∷ []) i ≡ some x
    → (get_elem? xs i ≡ some x) ⊎ ((i ≡ length xs) × (v ≡ x))
get_elem?-snoc [] v zero x e = inr (refl, some_inj e)
get_elem?-snoc [] v (suc i) x e = inl e
get_elem?-snoc (y ∷ xs) v zero x e = inl e
get_elem?-snoc (y ∷ xs) v (suc i) x e = elim (get_elem?-snoc xs v i x e) [
  | inl old ↦ inl old
  | inr (at, same) ↦ inr (ap suc at, same)
]

module _ (nodes : List ObjId) where
  pub record IsSearch (s : Forest) : Type 0 where
    pub counted : s.dfs_num ≡ length s.vertex
    pub numbered : (i : ℕ) (v : ObjId) → get_elem? s.vertex i ≡ some v → lookup v s.dfnum ≡ some i
    pub placed : (v : ObjId) (n : ℕ) → lookup v s.dfnum ≡ some n → n < length s.vertex
    pub rooted : 0 < s.dfs_num → lookup 0 s.dfnum ≡ some 0
    pub parents : (v : ObjId) (n p : ℕ) → lookup v s.dfnum ≡ some n → parent_of v s ≡ some p → p < n
    pub ancestors : (v : ObjId) (n : ℕ) → lookup v s.dfnum ≡ some n → ancestor_of v s ≡ none
    pub bests : (v : ObjId) (n : ℕ) → lookup v s.dfnum ≡ some n → best_of v s ≡ v
    pub samedoms : (v : ObjId) (n : ℕ) → lookup v s.dfnum ≡ some n → samedom_of v s ≡ v
    pub no_idom : s.idom ≡ []
    pub no_bucket : s.bucket ≡ []
    pub room : unvisited nodes s.dfnum + length s.vertex ≤ length nodes

  -- A vertex with a number is the one that has just got it, or an old one.
  fresh_holds :
      {A : Type 0} (P : Option A → Type 0) (v u n m : ℕ) (x : A) (dfnum : Dict ℕ) (values : Dict A)
      → lookup u (insert v n dfnum) ≡ some m
      → (v ≡ u → n ≡ m → P (some x))
      → (lookup u dfnum ≡ some m → P (lookup u values))
      → P (lookup u (insert v x values))
  fresh_holds P v u n m x dfnum values hu own old = elim (Bool-cases (v == u)) [
    | inl same ↦
        let eq : n ≡ m = ground (arith, lookup-insert v u n dfnum) in
        rw (lookup-insert v u x values, same) (own (ground arith) eq)
    | inr other ↦
        let before : lookup u dfnum ≡ some m = ground (arith, lookup-insert v u n dfnum) in
        rw (lookup-insert v u x values, other) (old before)
  ]

  pub number_vertex-IsSearch :
      (v : ObjId) (p : Option ℕ) (s : Forest)
      → lookup v s.dfnum ≡ none
      → is_in v nodes ≡ true
      → ((q : ℕ) → p ≡ some q → q < s.dfs_num)
      → (s.dfs_num ≡ 0 → v ≡ 0)
      → IsSearch s
      → IsSearch (number_vertex v p s)
  unfolding number_vertex
  number_vertex-IsSearch v p s fresh inside before first h = record {
    counted = let e = h.counted in omega (arith, length-append s.vertex (v ∷ []));
    numbered = λ i x e. elim (get_elem?-snoc s.vertex v i x e) [
      | inl old ↦
          insert-holds (λ o. o ≡ some i) v x s.dfs_num s.dfnum
            (λ same. absurd (none-ne-some i (sym fresh ∙ rw same (h.numbered i x old))))
            (h.numbered i x old)
      | inr (at, same) ↦
          let e = h.counted in
          let eq : s.dfs_num ≡ i = omega arith in
          ground (arith, lookup-insert v x s.dfs_num s.dfnum)
    ];
    placed = λ u m hu.
        let longer = length-append s.vertex (v ∷ []) in
        let e = h.counted in
        fresh_holds (λ o. m < length (s.vertex ++ v ∷ [])) v u s.dfs_num m s.dfs_num s.dfnum s.dfnum
          hu (λ same eq. omega arith) (λ old. let lt = h.placed u m old in omega arith);
    rooted = λ some_number. elim (Bool-cases (s.dfs_num == 0)) [
      | inl none_yet ↦
          let root : v ≡ 0 = first (ground arith) in
          ground (arith, lookup-insert v 0 s.dfs_num s.dfnum)
      | inr more ↦
          let old = h.rooted (ground arith) in
          insert-holds (λ o. o ≡ some 0) v 0 s.dfs_num s.dfnum
            (λ same. absurd (none-ne-some 0 (sym fresh ∙ rw same old))) old
    ];
    parents = λ u m q hu.
        fresh_holds (λ o. get_or (some 0) o ≡ some q → q < m) v u s.dfs_num m p s.dfnum s.parent hu
          (λ same eq e. let lt = before q e in omega arith) (λ old. h.parents u m q old);
    ancestors = λ u m hu.
        fresh_holds (λ o. get_or (some 0) o ≡ none) v u s.dfs_num m none s.dfnum s.ancestor hu
          (λ same eq. refl) (λ old. h.ancestors u m old);
    bests = λ u m hu.
        fresh_holds (λ o. get_or 0 o ≡ u) v u s.dfs_num m v s.dfnum s.best hu (λ same eq. same)
          (λ old. h.bests u m old);
    samedoms = λ u m hu.
        fresh_holds (λ o. get_or 0 o ≡ u) v u s.dfs_num m v s.dfnum s.samedom hu (λ same eq. same)
          (λ old. h.samedoms u m old);
    no_idom = h.no_idom;
    no_bucket = h.no_bucket;
    room =
        let r = h.room in
        let less = unvisited-insert nodes v s.dfs_num s.dfnum fresh inside in
        omega (arith, length-append s.vertex (v ∷ []));
  }
