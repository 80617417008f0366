-- ===== src/Graph/Dominators/Reach.antt =====
-- graph/dominators.go: which vertices the depth-first search of Dominators meets.
use heaplens.Base.{ℕ, zero, suc, ◌≡◌, refl, sym, ◌∙◌, arith, List, [], ◌∷◌, All, All-imp}
use heaplens.Base.{Bool-cases, inl, inr, true, ◌==◌, ◌⊎◌, some, Option}
use heaplens.Base.Dict.{Dict, lookup, lookup-insert}
use heaplens.Run.Yields.{Yields, Yields-bind, Yields-pure, Yields-exhausted, Yields-bool}
use heaplens.Run.Yields.{Yields-then}
use heaplens.Graph.{ObjId}
use heaplens.Graph.Dominators.{Forest, is_present, gets, update, for_each, number_vertex, dfs}
use heaplens.Graph.Dominators.{successors}
use heaplens.Graph.Dominators.Unvisited.{is_in}

-- Reached from the super-root along the adjacency lists.
pub data IsReachable (adj : Dict (List ObjId)) : ObjId → Type 0 where
  root : (v : ObjId) → v ≡ 0 → IsReachable adj v
  step : (u v : ObjId) → IsReachable adj u → is_in v (successors adj u) ≡ true → IsReachable adj v

abbrev pub IsNumbered : Forest → ObjId → Type 0
IsNumbered s v = is_present (lookup v s.dfnum) ≡ true

Yields-gets :
    {A : Type 0} {P : Forest → Type 0} (f : Forest → A) → Yields P (gets f) (λ a s. P s × (a ≡ f s))
unfolding gets
Yields-gets f = record { at = λ s p. (p, refl) }

Yields-update :
    {P Q : Forest → Type 0} (f : Forest → Forest)
    → ((s : Forest) → P s → Q (f s))
    → Yields P (update f) (λ u s. Q s)
unfolding update
Yields-update f h = record { at = h }

module _ (adj : Dict (List ObjId)) where
  -- The numbered vertices are reachable, the successors of those outside of `gray` are numbered, and
  -- those of the list are.
  pub record Visited (gray done : List ObjId) (s : Forest) : Type 0 where
    pub reachable : (v : ObjId) → IsNumbered s v → IsReachable adj v
    pub closed :
        (v : ObjId) → IsNumbered s v → (is_in v gray ≡ true) ⊎ All (IsNumbered s) (successors adj v)
    pub numbered : All (IsNumbered s) done

  IsNumbered-keeps :
      (v : ObjId) (p : Option ℕ) (s : Forest) (u : ObjId)
      → IsNumbered s u
      → IsNumbered (number_vertex v p s) u
  unfolding number_vertex
  IsNumbered-keeps v p s u h = ground (arith, lookup-insert v u s.dfs_num s.dfnum)

  IsNumbered-self : (v : ObjId) (p : Option ℕ) (s : Forest) → IsNumbered (number_vertex v p s) v
  unfolding number_vertex
  IsNumbered-self v p s = ground (arith, lookup-insert v v s.dfs_num s.dfnum)

  IsNumbered-before :
      (v : ObjId) (p : Option ℕ) (s : Forest) (u : ObjId)
      → IsNumbered (number_vertex v p s) u
      → (v ≡ u) ⊎ IsNumbered s u
  unfolding number_vertex
  IsNumbered-before v p s u h = elim (Bool-cases (v == u)) [
    | inl same ↦ inl (ground arith)
    | inr other ↦ inr (ground (arith, lookup-insert v u s.dfs_num s.dfnum))
  ]

  -- The vertex that is numbered turns gray.
  Visited-number :
      (v : ObjId) (p : Option ℕ) (gray done : List ObjId) (s : Forest)
      → IsReachable adj v
      → Visited gray done s
      → Visited (v ∷ gray) (v ∷ done) (number_vertex v p s)
  Visited-number v p gray done s reach h = record {
    reachable = λ u hu. elim (IsNumbered-before v p s u hu) [
      | inl same ↦ rw (← same) reach
      | inr old ↦ h.reachable u old
    ];
    closed = λ u hu. elim (IsNumbered-before v p s u hu) [
      | inl same ↦ inl (ground arith)
      | inr old ↦ elim (h.closed u old) [
        | inl is_gray ↦ inl (ground arith)
        | inr all ↦ inr (All-imp _ (IsNumbered-keeps v p s) all)
      ]
    ];
    numbered = (IsNumbered-self v p s, All-imp done (IsNumbered-keeps v p s) h.numbered);
  }

  -- Once its successors are numbered it is not gray any more.
  Visited-finish :
      (v : ObjId) (gray done : List ObjId) (s : Forest)
      → All (IsNumbered s) (successors adj v)
      → Visited (v ∷ gray) done s
      → Visited gray done s
  Visited-finish v gray done s all h = record {
    reachable = h.reachable;
    closed = λ u hu. elim (h.closed u hu) [
      | inl is_gray ↦ elim (Bool-cases (v == u)) [
        | inl same ↦ let eq : v ≡ u = ground arith in inr (rw (← eq) all)
        | inr other ↦ inl (ground arith)
      ]
      | inr closed ↦ inr closed
    ];
    numbered = h.numbered;
  }

  Yields-successors :
      (fuel number : ℕ) (v : ObjId) (ws gray done : List ObjId)
      → ((w : ObjId) → is_in w ws ≡ true → is_in w (successors adj v) ≡ true)
      → IsReachable adj v
      → ((w : ObjId) (gray done : List ObjId)
          → IsReachable adj w
          → Yields
              (Visited gray done)
              (dfs fuel adj w (some number))
              (λ u. Visited gray (w ∷ done)))
      → Yields
          (Visited gray done)
          (for_each ws (λ w. dfs fuel adj w (some number)))
          (λ u s. Visited gray done s × All (IsNumbered s) ws)
  unfolding for_each
  Yields-successors fuel number v [] gray done sub reach rec = Yields-pure tt (λ s h. (h, tt))
  Yields-successors fuel number v (w ∷ ws) gray done sub reach rec =
      Yields-bind _ (rec w gray done (step v w reach (sub w (ground arith)))) (λ u.
        Yields-then _
          (Yields-successors fuel number v ws gray (w ∷ done) (λ x h. sub x (ground arith)) reach
            rec)
          (λ u s (h, all). (
            record { reachable = h.reachable; closed = h.closed; numbered = h.numbered.1 },
            (h.numbered.0, all),
          )))

  pub Yields-dfs :
      (fuel : ℕ) (v : ObjId) (p : Option ℕ) (gray done : List ObjId)
      → IsReachable adj v
      → Yields (Visited gray done) (dfs fuel adj v p) (λ u. Visited gray (v ∷ done))
  unfolding dfs
  Yields-dfs zero v p gray done reach = Yields-exhausted
  Yields-dfs (suc fuel) v p gray done reach =
      Yields-bind _ (Yields-gets (λ s. is_present (lookup v s.dfnum))) (λ visited.
        Yields-bool visited
          (λ e. Yields-pure tt (λ s (h, is). record {
            reachable = h.reachable;
            closed = h.closed;
            numbered = (sym is ∙ e, h.numbered);
          }))
          (λ e. Yields-bind _ (Yields-gets (λ s. s.dfs_num)) (λ number.
            Yields-bind (λ u. Visited (v ∷ gray) (v ∷ done))
              (Yields-update (number_vertex v p)
                (λ s h. Visited-number v p gray done s reach h.0.0))
              (λ u.
                Yields-then _
                  (Yields-successors fuel number v (successors adj v) (v ∷ gray) (v ∷ done)
                    (λ w h. h) reach
                    (λ w gray done reach'. Yields-dfs fuel w (some number) gray done reach'))
                  (λ u s (h, all). Visited-finish v gray (v ∷ done) s all h)))))
