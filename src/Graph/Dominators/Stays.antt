-- ===== src/Graph/Dominators/Stays.antt =====
-- graph/dominators.go: the code behind the search leaves the numbers of the vertices as they are.
use heaplens.Base.{ℕ, zero, suc, ◌+◌, ◌≡◌, refl, arith, List, [], ◌∷◌}
use heaplens.Base.{Bool, true, false, ◌==◌, leb, none, some, Option}
use heaplens.Base.Dict.{Dict}
use heaplens.Run.Keeps.{KeepsAt, Keeps, Keeps-pure, Keeps-exhausted, Keeps-bind, Keeps-if}
use heaplens.Graph.{Object, ObjId, elements}
use heaplens.Graph.Dominators.{Forest, Build, gets, update, for_each, vertex_at, or_panic}
use heaplens.Graph.Dominators.{shorten, compress, eval, lower_semi, process_edge, process_pointers}
use heaplens.Graph.Dominators.{add_to_bucket, link, settle, settle_bucket, process_vertex}
use heaplens.Graph.Dominators.{process_vertices, copy_dominator, copy_dominators}
use heaplens.Graph.Dominators.{successors}

module _ (Q : Dict ℕ → Type 0) where
  abbrev pub Kept : {A : Type 0} → Build A → Type 0
  Kept = Keeps (λ s. Q s.dfnum)

  pub Keeps-gets : {A : Type 0} (f : Forest → A) → Kept (gets f)
  unfolding gets
  Keeps-gets f = record { at = λ s h. h }

  Keeps-update : (f : Forest → Forest) → ((s : Forest) → (f s).dfnum ≡ s.dfnum) → Kept (update f)
  unfolding update
  Keeps-update f same = record { at = λ s h. rw (same s) h }

  or_panic_keeps :
      (o : Option ObjId) (s : Forest) → Q s.dfnum → KeepsAt (λ s. Q s.dfnum) (or_panic o s)
  or_panic_keeps none s h = tt
  or_panic_keeps (some v) s h = h

  Keeps-vertex_at : (i : ℕ) → Kept (vertex_at i)
  unfolding vertex_at
  Keeps-vertex_at i = record { at = λ s h. or_panic_keeps _ s h }

  Keeps-option :
      {A B : Type 0} (o : Option B) (m : Build A) (k : B → Build A)
      → Kept m
      → ((b : B) → Kept (k b))
      → Kept (elim o [ none ↦ m | some b ↦ k b ])
  Keeps-option none m k h f = h
  Keeps-option (some b) m k h f = f b

  Keeps-bool :
      {A : Type 0} (b : Bool) (m k : Build A)
      → Kept m
      → Kept k
      → Kept (elim b [ true ↦ m | false ↦ k ])
  Keeps-bool true m k hm hk = hm
  Keeps-bool false m k hm hk = hk

  Keeps-for_each :
      {A : Type 0} (xs : List A) (body : A → Build (Unit {0}))
      → ((x : A) → Kept (body x))
      → Kept (for_each xs body)
  unfolding for_each
  Keeps-for_each [] body h = Keeps-pure _ tt
  Keeps-for_each (x ∷ xs) body h = Keeps-bind _ _ _ (h x) (λ u. Keeps-for_each xs body h)

  Keeps-shorten : (v a : ObjId) → Kept (update (shorten v a))
  unfolding shorten
  Keeps-shorten v a = Keeps-update _ (λ s. refl)

  Keeps-compress : (fuel : ℕ) (v : ObjId) → Kept (compress fuel v)
  unfolding compress
  Keeps-compress zero v = Keeps-exhausted _
  Keeps-compress (suc fuel) v = Keeps-bind _ _ _ (Keeps-gets _) (λ anc.
      Keeps-option anc _ _ (Keeps-pure _ tt) (λ i. Keeps-bind _ _ _ (Keeps-vertex_at i) (λ a.
        Keeps-bind _ _ _ (Keeps-gets _) (λ above.
          Keeps-option above _ _ (Keeps-pure _ tt)
            (λ j. Keeps-bind _ _ _ (Keeps-compress fuel a) (λ u. Keeps-shorten v a))))))

  Keeps-eval : (fuel : ℕ) (v : ObjId) → Kept (eval fuel v)
  unfolding eval
  Keeps-eval fuel v = Keeps-bind _ _ _ (Keeps-gets _) (λ anc.
      Keeps-option anc _ _ (Keeps-pure _ v)
        (λ i. Keeps-bind _ _ _ (Keeps-compress fuel v) (λ u. Keeps-gets _)))

  Keeps-process_edge : (fuel : ℕ) (v w : ObjId) → Kept (process_edge fuel v w)
  unfolding process_edge lower_semi
  Keeps-process_edge fuel v w = Keeps-bind _ _ _ (Keeps-gets _) (λ v_num.
      Keeps-bind _ _ _ (Keeps-gets _) (λ w_num. Keeps-option v_num _ _ (Keeps-pure _ tt) (λ n.
        Keeps-bind _ _ _ (Keeps-if _ (leb n w_num) _ _ (Keeps-pure _ v) (Keeps-eval fuel v))
          (λ u. Keeps-update _ (λ s. refl)))))

  Keeps-process_pointers :
      (fuel : ℕ) (v w : ObjId) (ptrs : List ObjId) → Kept (process_pointers fuel v w ptrs)
  unfolding process_pointers
  Keeps-process_pointers fuel v w ptrs =
      Keeps-for_each ptrs _
        (λ ptr. Keeps-if _ (ptr == w) _ _ (Keeps-process_edge fuel v w) (Keeps-pure _ tt))

  Keeps-settle : (fuel p : ℕ) (v : ObjId) → Kept (settle fuel p v)
  unfolding settle
  Keeps-settle fuel p v = Keeps-bind _ _ _ (Keeps-eval fuel v) (λ u.
      Keeps-bind _ _ _ (Keeps-gets _) (λ same.
        Keeps-bool same _ _ (Keeps-bind _ _ _ (Keeps-vertex_at p) (λ d. Keeps-update _ (λ s. refl)))
          (Keeps-update _ (λ s. refl))))

  Keeps-settle_bucket : (fuel : ℕ) (p : Option ℕ) → Kept (settle_bucket fuel p)
  unfolding settle_bucket
  Keeps-settle_bucket fuel none = Keeps-pure _ tt
  Keeps-settle_bucket fuel (some p) = Keeps-bind _ _ _ (Keeps-gets _) (λ waiting.
      Keeps-bind _ _ _ (Keeps-for_each waiting _ (Keeps-settle fuel p))
        (λ u. Keeps-update _ (λ s. refl)))

  Keeps-process_vertex :
      (fuel : ℕ) (objects : List Object) (adj : Dict (List ObjId)) (i : ℕ)
      → Kept (process_vertex fuel objects adj i)
  unfolding process_vertex add_to_bucket link
  Keeps-process_vertex fuel objects adj i = Keeps-bind _ _ _ (Keeps-vertex_at i) (λ w.
      Keeps-bind _ _ _
        (Keeps-for_each objects _ (λ obj. Keeps-process_pointers fuel obj.id w (elements obj.ptrs)))
        (λ u. Keeps-bind _ _ _ (Keeps-process_pointers fuel 0 w (successors adj 0)) (λ u.
          Keeps-bind _ _ _ (Keeps-update _ (λ s. refl)) (λ u. Keeps-bind _ _ _ (Keeps-gets _) (λ p.
            Keeps-bind _ _ _
              (Keeps-option p _ _ (Keeps-pure _ tt) (λ n. Keeps-update _ (λ s. refl)))
              (λ u. Keeps-settle_bucket fuel p))))))

  pub Keeps-process_vertices :
      (fuel : ℕ) (objects : List Object) (adj : Dict (List ObjId)) (n : ℕ)
      → Kept (process_vertices fuel objects adj n)
  unfolding process_vertices
  Keeps-process_vertices fuel objects adj zero = Keeps-pure _ tt
  Keeps-process_vertices fuel objects adj (suc n) =
      Keeps-bind _ _ _ (Keeps-process_vertex fuel objects adj (suc n))
        (λ u. Keeps-process_vertices fuel objects adj n)

  Keeps-copy_dominator : (w : ObjId) (s : Forest) → (copy_dominator w s).dfnum ≡ s.dfnum
  unfolding copy_dominator
  Keeps-copy_dominator w s = ground arith

  pub Keeps-copy_dominators : (i n : ℕ) → Kept (copy_dominators i n)
  unfolding copy_dominators
  Keeps-copy_dominators i zero = Keeps-pure _ tt
  Keeps-copy_dominators i (suc n) = Keeps-bind _ _ _ (Keeps-vertex_at i) (λ w.
      Keeps-bind _ _ _ (Keeps-update _ (Keeps-copy_dominator w))
        (λ u. Keeps-copy_dominators (i + 1) n))
