-- ===== src/Graph/Dominators/Rounds.antt =====
-- graph/dominators.go: the steps of Dominators behind the search.
use heaplens.Base.{ℕ, zero, suc, ◌+◌, ◌≤◌, ◌<◌, ◌≡◌, refl, sym, ap, ◌∙◌, arith, List, All}
use heaplens.Base.{leb, ◌==◌, Option, none, some}
use heaplens.Base.{get_elem?, length}
use heaplens.Base.Dict.{Dict, lookup}
use mathlib.Core.Path.{subst}
use heaplens.Run.Returns.{Returns, Returns-bind, Returns-pure, Returns-if, Returns-given}
use heaplens.Run.Returns.{Returns-option, Returns-bool}
use heaplens.Graph.{Object, ObjId, elements}
use heaplens.Graph.Dominators.{Forest, get_or, gets, vertex_at}
use heaplens.Graph.Dominators.{ancestor_of, semi_of, best_of, bucket_of, compress, eval}
use heaplens.Graph.Dominators.{process_edge, process_pointers, settle}
use heaplens.Graph.Dominators.{settle_bucket, process_vertex, process_vertices, successors}
use heaplens.Graph.Dominators.{copy_dominators}
use heaplens.Graph.Dominators.Actions.{
  Returns-gets, Returns-update, Returns-for_each, all_unit, get_elem?-some,
}
use heaplens.Graph.Dominators.Numbering.{At, IsNumbering, IsForest, IsFrom, IsUpTo, parent_of}
use heaplens.Graph.Dominators.Numbering.{shorten-IsForest, lower_semi-IsForest, link-IsForest}
use heaplens.Graph.Dominators.Numbering.{add_to_bucket-IsForest, clear_bucket-IsForest}
use heaplens.Graph.Dominators.Numbering.{set_idom-IsForest, set_samedom-IsForest}
use heaplens.Graph.Dominators.Numbering.{copy_dominator-IsForest}

module _ (vertex : List ObjId) (dfnum : Dict ℕ) (numbering : IsNumbering vertex dfnum) where
  abbrev Kept : ℕ → Forest → Type 0
  Kept = IsForest vertex dfnum

  Returns-vertex_at :
      (low i : ℕ)
      → i < length vertex
      → Returns (Kept low) (vertex_at i) (λ v s. Kept low s × At vertex dfnum v i)
  unfolding vertex_at
  Returns-vertex_at low i lt =
      let (v, e) = get_elem?-some vertex i lt in
      record {
        at = λ s h.
            let got : get_elem? s.vertex i ≡ some v = ap (λ xs. get_elem? xs i) h.same_vertex ∙ e in
            rw got (h, numbering.numbered i v e);
      }

  placed_before : (v : ObjId) (n i : ℕ) → At vertex dfnum v n → i < n → i < length vertex
  placed_before v n i hv lt = let place = numbering.placed v n hv in omega arith

  Returns-best :
      (low : ℕ) (v : ObjId) (n : ℕ)
      → At vertex dfnum v n
      → Returns (Kept low) (gets (best_of v)) (λ u s. Kept low s × IsUpTo vertex dfnum n u)
  unfolding gets
  Returns-best low v n hv = record { at = λ s h. (h, h.bests v n hv) }

  Returns-compress :
      (low fuel : ℕ) (v : ObjId) (n : ℕ)
      → At vertex dfnum v n
      → n < fuel
      → Returns (Kept low) (compress fuel v) (λ u. Kept low)
  unfolding compress
  Returns-compress low zero v n hv lt = absurd (omega (arith, lt))
  Returns-compress low (suc fuel) v n hv lt = Returns-bind _ (Returns-gets (ancestor_of v)) (λ anc.
      Returns-option anc (λ e. Returns-pure tt (λ s h. h.0))
        (λ i e.
          Returns-given (λ s h. (h.0, h.0.ancestors v n i hv (sym h.1 ∙ e)))
            (λ above. Returns-bind _ (Returns-vertex_at low i (placed_before v n i hv above)) (λ a.
              Returns-bind _ (Returns-gets (ancestor_of a)) (λ anc'.
                Returns-option anc' (λ e'. Returns-pure tt (λ s h. h.0.0))
                  (λ j e'.
                    Returns-given (λ s h. (h.0.0, h.0.1))
                      (λ ha. Returns-bind _ (Returns-compress low fuel a i ha (omega arith)) (λ u.
                        Returns-update _
                          (λ s h. shorten-IsForest vertex dfnum low v a n i s hv ha above h)))))))))

  Returns-eval :
      (low fuel : ℕ) (v : ObjId) (n : ℕ)
      → At vertex dfnum v n
      → n < fuel
      → Returns (Kept low) (eval fuel v) (λ u s. Kept low s × IsUpTo vertex dfnum n u)
  unfolding eval
  Returns-eval low fuel v n hv lt = Returns-bind _ (Returns-gets (ancestor_of v)) (λ anc.
      Returns-option anc (λ e. Returns-pure v (λ s h. (h.0, (n, hv, omega arith))))
        (λ i e.
          Returns-given (λ s h. (h.0, tt))
            (λ t.
              Returns-bind _ (Returns-compress low fuel v n hv lt) (λ u. Returns-best low v n hv))))

  Returns-process_edge :
      (low fuel : ℕ) (v w : ObjId)
      → length vertex < fuel
      → Returns (Kept low) (process_edge fuel v w) (λ u. Kept low)
  unfolding process_edge
  Returns-process_edge low fuel v w enough =
      Returns-bind _ (Returns-gets (λ s. lookup v s.dfnum)) (λ v_num.
        Returns-bind _ (Returns-gets (λ s. get_or 0 (lookup w s.dfnum))) (λ w_num.
          Returns-option v_num (λ e. Returns-pure tt (λ s h. h.0.0))
            (λ n e.
              Returns-given (λ s h. (h.0.0, sym (ap (lookup v) h.0.0.same_dfnum) ∙ sym h.0.1 ∙ e))
                (λ hv.
                  Returns-bind _
                    (Returns-if (leb n w_num)
                      (λ first. Returns-pure v (λ s h. (h, (n, hv, omega arith))))
                      (λ later.
                        Returns-eval low fuel v n hv
                          (let place = numbering.placed v n hv in omega arith)))
                    (λ u.
                      Returns-update _ (λ s h. lower_semi-IsForest vertex dfnum low u w s h.0))))))

  Returns-process_pointers :
      (low fuel : ℕ) (v w : ObjId) (ptrs : List ObjId)
      → length vertex < fuel
      → Returns (Kept low) (process_pointers fuel v w ptrs) (λ u. Kept low)
  unfolding process_pointers
  Returns-process_pointers low fuel v w ptrs enough =
      Returns-for_each (λ ptr. Unit {0}) ptrs _ (all_unit ptrs)
        (λ ptr t.
          Returns-if (ptr == w) (λ c. Returns-process_edge low fuel v w enough)
            (λ c. Returns-pure tt (λ s h. h)))

  Returns-settle :
      (low fuel p : ℕ) (v : ObjId) (n : ℕ)
      → length vertex < fuel
      → At vertex dfnum v n
      → p < n
      → Returns (Kept low) (settle fuel p v) (λ u. Kept low)
  unfolding settle
  Returns-settle low fuel p v n enough hv lt =
      let place = numbering.placed v n hv in
      Returns-bind _ (Returns-eval low fuel v n hv (omega arith)) (λ u.
        Returns-bind _ (Returns-gets (λ s. semi_of u s == semi_of v s)) (λ same.
          Returns-given (λ s h. (h.0.0, h.0.1))
            (λ (m, hu, le).
              Returns-bool same
                (λ e. Returns-bind _ (Returns-vertex_at low p (omega arith)) (λ d.
                  Returns-update _
                    (λ s h. set_idom-IsForest vertex dfnum low v d n p s hv h.1 lt h.0)))
                (λ e.
                  Returns-update _
                    (λ s h. set_samedom-IsForest vertex dfnum low v u n m s hv hu le h)))))

  Returns-settle_bucket :
      (low fuel : ℕ) (p : Option ℕ)
      → length vertex < fuel
      → ((q : ℕ) → p ≡ some q → q < low)
      → Returns (Kept low) (settle_bucket fuel p) (λ u. Kept low)
  unfolding settle_bucket
  Returns-settle_bucket low fuel none enough before = Returns-pure tt (λ s h. h)
  Returns-settle_bucket low fuel (some p) enough before =
      let lt : p < low = before p refl in
      Returns-bind _ (Returns-gets (bucket_of p)) (λ waiting.
        Returns-given
          (λ s h. (h.0, subst (All (IsFrom vertex dfnum low)) (sym h.1) (h.0.buckets p)))
          (λ from.
            Returns-bind _
              (Returns-for_each (IsFrom vertex dfnum low) waiting (settle fuel p) from
                (λ v (n, hv, le). Returns-settle low fuel p v n enough hv (omega arith)))
              (λ u. Returns-update _ (λ s h. clear_bucket-IsForest vertex dfnum low p s h))))

  Returns-process_vertex :
      (fuel : ℕ) (objects : List Object) (adj : Dict (List ObjId)) (i : ℕ)
      → length vertex < fuel
      → i < length vertex
      → Returns (Kept (suc i)) (process_vertex fuel objects adj i) (λ u. Kept i)
  unfolding process_vertex
  Returns-process_vertex fuel objects adj i enough lt =
      Returns-bind _ (Returns-vertex_at (suc i) i lt) (λ w.
        Returns-given (λ s h. (h.0, h.1))
          (λ hw.
            Returns-bind _
              (Returns-for_each (λ obj. Unit {0}) objects _ (all_unit objects)
                (λ obj t.
                  Returns-process_pointers (suc i) fuel obj.id w (elements obj.ptrs) enough))
              (λ u.
                Returns-bind _ (Returns-process_pointers (suc i) fuel 0 w (successors adj 0) enough)
                  (λ u.
                    Returns-bind _
                      (Returns-update _ (λ s h. add_to_bucket-IsForest vertex dfnum i w s hw h))
                      (λ u. Returns-bind _ (Returns-gets (parent_of w)) (λ p.
                        Returns-given
                          (λ s h.
                            (h.0, λ (q : ℕ) (e : p ≡ some q). h.0.parents w i q hw (sym h.1 ∙ e)))
                          (λ before.
                            Returns-bind _
                              (Returns-option p (λ e. Returns-pure tt (λ s h. h))
                                (λ n e.
                                  Returns-update _ (λ s h.
                                    link-IsForest vertex dfnum i w i n s hw (before n e) h)))
                              (λ u. Returns-settle_bucket i fuel p enough before))))))))

  pub Returns-process_vertices :
      (fuel : ℕ) (objects : List Object) (adj : Dict (List ObjId)) (n : ℕ)
      → length vertex < fuel
      → n < length vertex
      → Returns (Kept (suc n)) (process_vertices fuel objects adj n) (λ u. Kept 1)
  unfolding process_vertices
  Returns-process_vertices fuel objects adj zero enough lt = Returns-pure tt (λ s h. h)
  Returns-process_vertices fuel objects adj (suc n) enough lt =
      Returns-bind _ (Returns-process_vertex fuel objects adj (suc n) enough lt)
        (λ u. Returns-process_vertices fuel objects adj n enough (omega arith))

  pub Returns-copy_dominators :
      (low i n : ℕ)
      → 0 < i
      → i + n ≤ length vertex
      → Returns (Kept low) (copy_dominators i n) (λ u. Kept low)
  unfolding copy_dominators
  Returns-copy_dominators low i zero pos le = Returns-pure tt (λ s h. h)
  Returns-copy_dominators low i (suc n) pos le =
      Returns-bind _ (Returns-vertex_at low i (omega arith)) (λ w.
        Returns-given (λ s h. (h.0, h.1))
          (λ hw.
            Returns-bind _
              (Returns-update _
                (λ s h. copy_dominator-IsForest vertex dfnum low w i s numbering.rooted hw pos h))
              (λ u. Returns-copy_dominators low (i + 1) n (omega arith) (omega arith))))
