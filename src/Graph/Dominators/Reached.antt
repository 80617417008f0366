-- ===== src/Graph/Dominators/Reached.antt =====
-- graph/dominators.go: Dominators against reachability.
use heaplens.Base.{ℕ, ◌<◌, ◌≡◌, ◌↔◌, refl, sym, arith, List, [], ◌∷◌, All, All-imp}
use mathlib.Core.Path.{subst}
use heaplens.Base.{Bool-cases, Option-cases, All-both, inl, inr, true, ◌==◌, none, length}
use heaplens.Base.Dict.{Dict, lookup}
use heaplens.Run.{Outcome, ok, err, panic, stuck}
use heaplens.Run.Keeps.{KeepsAt, Keeps, Keeps-bind}
use heaplens.Run.Yields.{YieldsAt, Yields, Yields-bind, Yields-then}
use heaplens.Graph.{Object, ObjId, MemGraph, Order, get_roots}
use heaplens.Graph.Dominators.{Forest, Build, new_forest}
use heaplens.Graph.Dominators.{is_present}
use heaplens.Graph.Dominators.{build_adj}
use heaplens.Graph.Dominators.{run_dominators, dominators, successors}
use heaplens.Graph.Dominators.Unvisited.{is_in}
use heaplens.Graph.Dominators.Edges.{collected}
use heaplens.Graph.Dominators.Total.{nodes_of, number_of, dominators-IsAcyclic}
use heaplens.Graph.Dominators.Reach.{IsReachable, root, step, IsNumbered, Visited, Yields-dfs}
use heaplens.Graph.Dominators.Stays.{Keeps-gets, Keeps-process_vertices, Keeps-copy_dominators}

-- The numbers are those of the vertices that can be reached, and no other vertex has a number.
abbrev IsExact : Dict (List ObjId) → Dict ℕ → Type 0
IsExact adj dfnum = (v : ObjId) → (is_present (lookup v dfnum) ≡ true) ↔ IsReachable adj v

-- What Dominators finds out: the search numbers exactly the vertices that can be reached from the
-- super-root, and an immediate dominator is given to such vertices alone, and is one of them.
pub record IsSearched (adj : Dict (List ObjId)) (idom : Dict ObjId) (s : Forest) : Type 0 where
  pub exact : (v : ObjId) → IsNumbered s v ↔ IsReachable adj v
  pub entries : All (λ entry. IsReachable adj entry.0 × IsReachable adj entry.1) idom

IsNumbered-of_all :
    (s : Forest) (ws : List ObjId) (w : ObjId)
    → All (IsNumbered s) ws
    → is_in w ws ≡ true
    → IsNumbered s w
IsNumbered-of_all s [] w all h = let impossible : ⊥ = cc in absurd impossible
IsNumbered-of_all s (x ∷ ws) w (hx, hs) h = elim (Bool-cases (x == w)) [
  | inl same ↦ let eq : x ≡ w = ground arith in rw (← eq) hx
  | inr other ↦ IsNumbered-of_all s ws w hs (ground arith)
]

module _ (adj : Dict (List ObjId)) where
  reached :
      (s : Forest) (v : ObjId) → Visited adj [] (0 ∷ []) s → IsReachable adj v → IsNumbered s v
  reached s _ h (root v zero_v) = rw zero_v (h.numbered.0)
  reached s _ h (step u v path edge) = elim (h.closed u (reached s u h path)) [
    | inl is_gray ↦ let impossible : ⊥ = cc in absurd impossible
    | inr all ↦ IsNumbered-of_all s (successors adj u) v all edge
  ]

  IsExact-search : (s : Forest) → Visited adj [] (0 ∷ []) s → IsExact adj s.dfnum
  IsExact-search s h v = (h.reachable v, reached s v h)

  Visited-new : Visited adj [] [] new_forest
  unfolding new_forest lookup
  Visited-new = record {
    reachable = λ v h. let impossible : ⊥ = cc in absurd impossible;
    closed = λ v h. let impossible : ⊥ = cc in absurd impossible;
    numbered = tt;
  }

YieldsAt-of_KeepsAt :
    {A : Type 0} (P : Forest → Type 0) (o : Outcome ⊥ Forest A) → KeepsAt P o → YieldsAt (λ a. P) o
YieldsAt-of_KeepsAt P (ok a s) h = h
YieldsAt-of_KeepsAt P (err e s) h = tt
YieldsAt-of_KeepsAt P panic h = tt
YieldsAt-of_KeepsAt P stuck h = tt

Yields-of_Keeps : {A : Type 0} {P : Forest → Type 0} {m : Build A} → Keeps P m → Yields P m (λ a. P)
Yields-of_Keeps {P = P} {m = m} h = record { at = λ s p. YieldsAt-of_KeepsAt P (m s) (h.at s p) }

Yields-run_dominators :
    (fuel : ℕ) (objects : List Object) (roots : List ObjId)
    → Yields
        (λ s. s ≡ new_forest)
        (run_dominators fuel objects roots)
        (λ idom s. IsExact (build_adj objects roots) s.dfnum)
unfolding run_dominators
Yields-run_dominators fuel objects roots =
    let adj = build_adj objects roots in
    let exact = IsExact adj in
    Yields-bind (λ u s. exact s.dfnum)
      (Yields-then _
        (record {
          at = λ s e.
              (Yields-dfs adj fuel 0 none [] [] (root 0 refl)).at s
                (subst (Visited adj [] []) (sym e) (Visited-new adj));
        })
        (λ u s h. IsExact-search adj s h))
      (λ u. Yields-of_Keeps (
        Keeps-bind _ _ _ (Keeps-gets exact _) (λ last.
          Keeps-bind _ _ _ (Keeps-process_vertices exact fuel objects adj last) (λ u.
            Keeps-bind _ _ _ (Keeps-copy_dominators exact 1 last) (λ u. Keeps-gets exact _)))))

IsNumbered-above : (s : Forest) (v : ObjId) (n : ℕ) → n < number_of s v → IsNumbered s v
IsNumbered-above s v n lt = elim (Option-cases (lookup v s.dfnum)) [
  | inl gone ↦ let zero_v : number_of s v ≡ 0 = rw gone refl in absurd (omega arith)
  | inr (m, at) ↦ rw at refl
]

-- With fuel above the number of edges in the adjacency lists plus one, Dominators returns on every graph;
-- its search has numbered exactly the vertices that can be reached from the super-root along the
-- adjacency lists, and its map gives an immediate dominator to such vertices alone, which is one of them.
pub dominators-IsSearched :
    (fuel : ℕ) (order : Order Object) (g : MemGraph)
    → length (nodes_of (collected order g) (get_roots g).ids) < fuel
    → (idom : Dict ObjId) × (s : Forest) × (dominators fuel order g ≡ ok idom s)
      × IsSearched (build_adj (collected order g) (get_roots g).ids) idom s
unfolding dominators
dominators-IsSearched fuel order g enough =
    let adj = build_adj (collected order g) (get_roots g).ids in
    let (idom, s, e, acyclic, small) = dominators-IsAcyclic fuel order g enough in
    let exact : IsExact adj s.dfnum =
      subst (YieldsAt (λ idom s. IsExact adj s.dfnum)) e
        ((Yields-run_dominators fuel (collected order g) (get_roots g).ids).at new_forest refl) in
    (
      idom,
      s,
      e,
      record {
        exact = exact;
        entries =
            All-imp idom
              (λ (v, d) ((lt, place), known).
                ((exact v).0 (IsNumbered-above s v _ lt), (exact d).0 known))
              (All-both _ _ idom acyclic.below acyclic.known);
      },
    )
