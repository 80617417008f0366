-- ===== src/Graph/Dominators/Total.antt =====
-- graph/dominators.go: the whole of Dominators, on any graph.
use heaplens.Base.{
  ℕ, zero, suc, ◌-◌, ◌≤◌, ◌<◌, ◌≡◌, refl, sym, ap, ◌∙◌, arith, List, [], ◌∷◌, ◌++◌, All,
}
use heaplens.Base.{Bool-cases, inl, inr, true, ◌==◌, ◌||◌, none, length, All-imp}
use heaplens.Base.Dict.{Dict, lookup, delete, lookup-delete}
use heaplens.Base.Entries.{All-delete, HasKeysOnce, delete-HasKeysOnce}
use heaplens.Run.{Outcome, ok, err, panic, stuck, ◌>>◌}
use heaplens.Run.Returns.{ReturnsAt, Returns, Returns-bind, Returns-then}
use heaplens.Graph.{Object, ObjId, MemGraph, Order, elements, get_roots}
use heaplens.Graph.Dominators.{Forest, new_forest, get_or, is_present, gets, build_adj, successors}
use heaplens.Graph.Dominators.{process_vertices, copy_dominators, run_dominators, dominators}
use heaplens.Graph.Dominators.Edges.{collected}
use heaplens.Graph.Dominators.Numbering.{At, IsFrom, IsBelow, IsNumbering, IsForest}
use heaplens.Graph.Dominators.Actions.{Returns-gets}
use heaplens.Graph.Dominators.Rounds.{Returns-process_vertices, Returns-copy_dominators}
use heaplens.Graph.Dominators.Unvisited.{is_in}
use heaplens.Graph.Dominators.Search.{IsSearch}
use heaplens.Graph.Dominators.Visits.{Returns-search}
use mathlib.Core.Path.{subst}
use mathlib.Core.Option.{none-ne-some}

-- The ends of all edges.
abbrev pub targets : Dict (List ObjId) → List ObjId
targets [] = []
targets ((v, ws) ∷ adj) = ws ++ targets adj

-- The vertices that the search can meet, some more than once.
abbrev pub nodes_of : List Object → List ObjId → List ObjId
nodes_of objects roots = 0 ∷ targets (build_adj objects roots)

is_in-append : (w : ObjId) (us vs : List ObjId) → is_in w (us ++ vs) ≡ (is_in w us || is_in w vs)
is_in-append w [] vs = refl
is_in-append w (u ∷ us) vs = ground (arith, is_in-append w us vs)

all_in :
    (ws us : List ObjId)
    → ((w : ObjId) → is_in w ws ≡ true → is_in w us ≡ true)
    → All (λ w. is_in w us ≡ true) ws
all_in [] us sub = tt
all_in (w ∷ ws) us sub = (sub w (ground arith), all_in ws us (λ u h. sub u (ground arith)))

is_in-targets :
    (v w : ObjId) (adj : Dict (List ObjId))
    → is_in w (elements (lookup v adj)) ≡ true
    → is_in w (targets adj) ≡ true
unfolding lookup
is_in-targets v w [] h = let impossible : ⊥ = cc in absurd impossible
is_in-targets v w ((k, ws) ∷ adj) h = elim (Bool-cases (k == v)) [
  | inl same ↦
      let here : is_in w ws ≡ true = ground arith in ground (arith, is_in-append w ws (targets adj))
  | inr other ↦
      let there = is_in-targets v w adj (ground arith) in
      ground (arith, is_in-append w ws (targets adj))
]

successors_closed :
    (adj : Dict (List ObjId)) (v : ObjId)
    → All (λ w. is_in w (0 ∷ targets adj) ≡ true) (successors adj v)
successors_closed adj v =
    all_in (successors adj v) (0 ∷ targets adj)
      (λ w h. let found = is_in-targets v w adj h in ground arith)

-- The number that the search gave to a vertex.
abbrev pub number_of : Forest → ObjId → ℕ
number_of s v = get_or 0 (lookup v s.dfnum)

-- No entry for the super-root, and every immediate dominator has a number, below that of its vertex.
pub record IsAcyclic (idom : Dict ObjId) (s : Forest) : Type 0 where
  pub no_root : lookup 0 idom ≡ none
  pub once : HasKeysOnce idom
  pub below :
      All
        (λ entry.
          (number_of s entry.1 < number_of s entry.0) × (number_of s entry.0 < length s.vertex))
        idom
  pub known : All (λ entry. is_present (lookup entry.1 s.dfnum) ≡ true) idom

module _ (vertex : List ObjId) (dfnum : Dict ℕ) (numbering : IsNumbering vertex dfnum) where
  number_At :
      (low : ℕ) (s : Forest) (v : ObjId) (n : ℕ)
      → IsForest vertex dfnum low s
      → At vertex dfnum v n
      → number_of s v ≡ n
  number_At low s v n h hv =
      ap (λ numbers. get_or 0 (lookup v numbers)) h.same_dfnum ∙ ap (get_or 0) hv

  IsAcyclic-idom :
      (low : ℕ) (s : Forest) → IsForest vertex dfnum low s → IsAcyclic (delete 0 s.idom) s
  IsAcyclic-idom low s h = record {
    no_root = ground (arith, lookup-delete 0 0 s.idom);
    once = delete-HasKeysOnce 0 s.idom h.once;
    below = All-delete _ 0 s.idom (
        All-imp s.idom
          (λ (v, d) (n, hv, m, hd, lt).
            let nv = number_At low s v n h hv in
            let nd = number_At low s d m h hd in
            let place = numbering.placed v n hv in
            let same = ap length h.same_vertex in (omega arith, omega arith))
          h.idoms);
    known = All-delete _ 0 s.idom (
        All-imp s.idom
          (λ (v, d) (n, hv, m, hd, lt). let at = ap (lookup d) h.same_dfnum ∙ hd in rw at refl)
          h.idoms);
  }

  -- The code behind the search.
  Returns-behind :
      (fuel : ℕ) (objects : List Object) (adj : Dict (List ObjId)) (last : ℕ)
      → length vertex < fuel
      → last < length vertex
      → Returns
          (IsForest vertex dfnum (suc last))
          (do
            process_vertices fuel objects adj last
            copy_dominators 1 last
            gets (λ s. delete 0 s.idom))
          (λ idom s. IsAcyclic idom s × (s.vertex ≡ vertex))
  Returns-behind fuel objects adj last enough lt =
      Returns-bind _
        (Returns-process_vertices vertex dfnum numbering fuel objects adj last enough lt)
        (λ u.
          Returns-bind _
            (Returns-copy_dominators vertex dfnum numbering 1 1 last (omega arith) (omega arith))
            (λ u.
              Returns-then _ (Returns-gets (λ s. delete 0 s.idom))
                (λ idom s (h, e). (rw e (IsAcyclic-idom 1 s h), h.same_vertex))))

-- What the search leaves.
IsForest-search :
    (nodes : List ObjId) (low : ℕ) (s : Forest) → IsSearch nodes s → IsForest s.vertex s.dfnum low s
unfolding lookup
IsForest-search nodes low s h = record {
  same_vertex = refl;
  same_dfnum = refl;
  parents = h.parents;
  ancestors = λ v n j hv e. absurd (none-ne-some j (sym (h.ancestors v n hv) ∙ e));
  bests = λ v n hv. (n, rw (h.bests v n hv) hv, omega arith);
  samedoms = λ v n hv. (n, rw (h.samedoms v n hv) hv, omega arith);
  idoms = subst (All (IsBelow s.vertex s.dfnum)) (sym h.no_idom) tt;
  once = subst HasKeysOnce (sym h.no_idom) tt;
  buckets = λ p.
      subst (λ m. All (IsFrom s.vertex s.dfnum low) (elements (lookup p m))) (sym h.no_bucket) tt;
}

IsNumbering-search :
    (nodes : List ObjId) (s : Forest)
    → IsSearch nodes s
    → 0 < s.dfs_num
    → IsNumbering s.vertex s.dfnum
IsNumbering-search nodes s h pos = record {
  numbered = h.numbered;
  rooted = h.rooted pos;
  placed = h.placed;
}

returned :
    {A : Type 0} (Q : A → Forest → Type 0) (o : Outcome ⊥ Forest A)
    → ReturnsAt Q o
    → (a : A) × (s : Forest) × (o ≡ ok a s) × Q a s
returned Q (ok a s) h = (a, s, refl, h)
returned Q (err e s) h = absurd h
returned Q panic h = absurd h
returned Q stuck h = absurd h

Returns-run_dominators :
    (fuel : ℕ) (objects : List Object) (roots : List ObjId)
    → length (nodes_of objects roots) ≤ fuel
    → Returns
        (λ s. s ≡ new_forest)
        (run_dominators (suc fuel) objects roots)
        (λ idom s. IsAcyclic idom s × (length s.vertex ≤ length (nodes_of objects roots)))
unfolding run_dominators
Returns-run_dominators fuel objects roots enough =
    let adj = build_adj objects roots in
    let nodes = nodes_of objects roots in
    Returns-bind _
      (Returns-search nodes adj (successors_closed adj) fuel (length (targets adj)) refl
        (omega arith) (omega arith))
      (λ u. Returns-bind _ (Returns-gets (λ s. s.dfs_num - 1)) (λ last. record {
        at = λ s ((search, left, pos), e).
            let room = search.room in
            let counted = search.counted in
            (Returns-then (λ idom t. IsAcyclic idom t × (t.vertex ≡ s.vertex))
                (Returns-behind s.vertex s.dfnum (IsNumbering-search nodes s search (omega arith))
                  (suc fuel) objects adj last (omega arith) (omega arith))
                (λ idom t (acyclic, same). (acyclic, let e = ap length same in omega arith))).at
              s (IsForest-search nodes (suc last) s search);
      }))

-- With fuel above the number of edges in the adjacency lists plus one, Dominators returns on every graph,
-- without a panic, and its map has no cycles: it has no entry for the super-root, and the search has
-- numbered every immediate dominator below its vertex. The search meets at most as many vertices.
pub dominators-IsAcyclic :
    (fuel : ℕ) (order : Order Object) (g : MemGraph)
    → length (nodes_of (collected order g) (get_roots g).ids) < fuel
    → (idom : Dict ObjId) × (s : Forest) × (dominators fuel order g ≡ ok idom s)
      × IsAcyclic idom s
      × (length s.vertex ≤ length (nodes_of (collected order g) (get_roots g).ids))
unfolding dominators
dominators-IsAcyclic zero order g enough = absurd (omega (arith, enough))
dominators-IsAcyclic (suc fuel) order g enough =
    let (idom, s, e, (acyclic, small)) = returned _ (dominators (suc fuel) order g) (
      (Returns-run_dominators fuel (collected order g) (get_roots g).ids (omega arith)).at
        new_forest refl) in
    (idom, s, e, acyclic, small)
