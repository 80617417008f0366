-- ===== src/Graph/Dominators/Numbering.antt =====
-- graph/dominators.go: what holds of the maps that the closures of Dominators share, while the vertices
-- and their numbers stay as the search has left them.
use heaplens.Base.{ℕ, suc, ◌≤◌, ◌<◌, ◌≡◌, sym, ◌∙◌, arith, List, [], ◌∷◌, All, All-snoc}
use heaplens.Base.{some_inj, ltb, inl, inr, ◌==◌, Option, Option-cases, some, get_elem?, length}
use heaplens.Base.Dict.{Dict, lookup, insert}
use heaplens.Base.Entries.{
  insert-holds, if-holds, All-insert, All-lookup, HasKeysOnce, insert-HasKeysOnce,
}
use heaplens.Graph.{ObjId, elements}
use heaplens.Graph.Dominators.{Forest, get_or, ancestor_of, semi_of, best_of, bucket_of, shorten}
use heaplens.Graph.Dominators.{lower_semi, add_to_bucket, link, copy_dominator}

abbrev pub parent_of : ObjId → Forest → Option ℕ
parent_of v s = get_or (some 0) (lookup v s.parent)

abbrev pub samedom_of : ObjId → Forest → ObjId
samedom_of v s = get_or 0 (lookup v s.samedom)

module _ (vertex : List ObjId) (dfnum : Dict ℕ) where
  abbrev pub At : ObjId → ℕ → Type 0
  At v n = lookup v dfnum ≡ some n

  -- Every vertex of the list has its place as its number, and every number is a place.
  pub record IsNumbering : Type 0 where
    pub numbered : (i : ℕ) (v : ObjId) → get_elem? vertex i ≡ some v → At v i
    pub rooted : At 0 0
    pub placed : (v : ObjId) (n : ℕ) → At v n → n < length vertex

  At-unique : (v u : ObjId) (n m : ℕ) → v ≡ u → At v n → At u m → n ≡ m
  At-unique v u n m same hv hu = let at : At v m = rw same hu in some_inj (sym hv ∙ at)

  -- A vertex that comes at `n` or before.
  abbrev pub IsUpTo : ℕ → ObjId → Type 0
  IsUpTo n u = (m : ℕ) × At u m × (m ≤ n)

  abbrev pub IsFrom : ℕ → ObjId → Type 0
  IsFrom low u = (m : ℕ) × At u m × (low ≤ m)

  -- An immediate dominator comes before its vertex.
  abbrev pub IsBelow : ObjId × ObjId → Type 0
  IsBelow (v, d) = (n : ℕ) × At v n × (m : ℕ) × At d m × (m < n)

  -- Parents and ancestors come before, candidates not after, immediate dominators before; the buckets hold
  -- vertices from `low` on.
  pub record IsForest (low : ℕ) (s : Forest) : Type 0 where
    pub same_vertex : s.vertex ≡ vertex
    pub same_dfnum : s.dfnum ≡ dfnum
    pub parents : (v : ObjId) (n p : ℕ) → At v n → parent_of v s ≡ some p → p < n
    pub ancestors : (v : ObjId) (n j : ℕ) → At v n → ancestor_of v s ≡ some j → j < n
    pub bests : (v : ObjId) (n : ℕ) → At v n → IsUpTo n (best_of v s)
    pub samedoms : (v : ObjId) (n : ℕ) → At v n → IsUpTo n (samedom_of v s)
    pub idoms : All IsBelow s.idom
    pub once : HasKeysOnce s.idom
    pub buckets : (p : ℕ) → All (IsFrom low) (bucket_of p s)

  pub shorten-IsForest :
      (low : ℕ) (v a : ObjId) (n k : ℕ) (s : Forest)
      → At v n
      → At a k
      → k < n
      → IsForest low s
      → IsForest low (shorten v a s)
  unfolding shorten
  shorten-IsForest low v a n k s hv ha lt h = record {
    same_vertex = h.same_vertex;
    same_dfnum = h.same_dfnum;
    parents = h.parents;
    ancestors = λ u m j hu.
        insert-holds (λ o. get_or (some 0) o ≡ some j → j < m) v u (ancestor_of a s) s.ancestor
          (λ same e.
            let at : n ≡ m = At-unique v u n m same hv hu in
            let above = h.ancestors a k j ha e in omega arith)
          (h.ancestors u m j hu);
    bests = λ u m hu.
        if-holds (λ best. IsUpTo m (get_or 0 (lookup u best)))
          (ltb (semi_of (best_of a s) s) (semi_of (best_of v s) s))
          (insert-holds (λ o. IsUpTo m (get_or 0 o)) v u (best_of a s) s.best
            (λ same.
              let at : n ≡ m = At-unique v u n m same hv hu in
              let (i, hi, le) = h.bests a k ha in (i, hi, omega arith))
            (h.bests u m hu))
          (h.bests u m hu);
    samedoms = h.samedoms;
    idoms = h.idoms;
    once = h.once;
    buckets = h.buckets;
  }

  pub lower_semi-IsForest :
      (low : ℕ) (u w : ObjId) (s : Forest) → IsForest low s → IsForest low (lower_semi u w s)
  unfolding lower_semi
  lower_semi-IsForest low u w s h = record {
    same_vertex = h.same_vertex;
    same_dfnum = h.same_dfnum;
    parents = h.parents;
    ancestors = h.ancestors;
    bests = h.bests;
    samedoms = h.samedoms;
    idoms = h.idoms;
    once = h.once;
    buckets = h.buckets;
  }

  pub link-IsForest :
      (low : ℕ) (w : ObjId) (i p : ℕ) (s : Forest)
      → At w i
      → p < i
      → IsForest low s
      → IsForest low (link w (some p) s)
  unfolding link
  link-IsForest low w i p s hw lt h = record {
    same_vertex = h.same_vertex;
    same_dfnum = h.same_dfnum;
    parents = h.parents;
    ancestors = λ u m j hu.
        insert-holds (λ o. get_or (some 0) o ≡ some j → j < m) w u (some p) s.ancestor
          (λ same e.
            let at : i ≡ m = At-unique w u i m same hw hu in
            let eq : p ≡ j = some_inj e in omega arith)
          (h.ancestors u m j hu);
    bests = h.bests;
    samedoms = h.samedoms;
    idoms = h.idoms;
    once = h.once;
    buckets = h.buckets;
  }

  IsFrom-weaken : (low : ℕ) (us : List ObjId) → All (IsFrom (suc low)) us → All (IsFrom low) us
  IsFrom-weaken low [] h = tt
  IsFrom-weaken low (u ∷ us) ((m, hu, le), h) = ((m, hu, omega arith), IsFrom-weaken low us h)

  pub add_to_bucket-IsForest :
      (i : ℕ) (w : ObjId) (s : Forest)
      → At w i
      → IsForest (suc i) s
      → IsForest i (add_to_bucket w s)
  unfolding add_to_bucket
  add_to_bucket-IsForest i w s hw h = record {
    same_vertex = h.same_vertex;
    same_dfnum = h.same_dfnum;
    parents = h.parents;
    ancestors = h.ancestors;
    bests = h.bests;
    samedoms = h.samedoms;
    idoms = h.idoms;
    once = h.once;
    buckets = λ p.
        insert-holds (λ o. All (IsFrom i) (elements o)) (semi_of w s) p _ s.bucket
          (λ same.
            All-snoc (IsFrom i) (bucket_of (semi_of w s) s) w
              (IsFrom-weaken i _ (h.buckets (semi_of w s))) (i, hw, omega arith))
          (IsFrom-weaken i _ (h.buckets p));
  }

  pub clear_bucket-IsForest :
      (low p : ℕ) (s : Forest)
      → IsForest low s
      → IsForest low (record s { bucket = insert p [] s.bucket })
  clear_bucket-IsForest low p s h = record {
    same_vertex = h.same_vertex;
    same_dfnum = h.same_dfnum;
    parents = h.parents;
    ancestors = h.ancestors;
    bests = h.bests;
    samedoms = h.samedoms;
    idoms = h.idoms;
    once = h.once;
    buckets = λ q.
        insert-holds (λ o. All (IsFrom low) (elements o)) p q [] s.bucket (λ same. tt)
          (h.buckets q);
  }

  pub set_idom-IsForest :
      (low : ℕ) (v d : ObjId) (n m : ℕ) (s : Forest)
      → At v n
      → At d m
      → m < n
      → IsForest low s
      → IsForest low (record s { idom = insert v d s.idom })
  set_idom-IsForest low v d n m s hv hd lt h = record {
    same_vertex = h.same_vertex;
    same_dfnum = h.same_dfnum;
    parents = h.parents;
    ancestors = h.ancestors;
    bests = h.bests;
    samedoms = h.samedoms;
    idoms = All-insert IsBelow v d s.idom (n, hv, m, hd, lt) h.idoms;
    once = insert-HasKeysOnce v d s.idom h.once;
    buckets = h.buckets;
  }

  pub set_samedom-IsForest :
      (low : ℕ) (v d : ObjId) (n m : ℕ) (s : Forest)
      → At v n
      → At d m
      → m ≤ n
      → IsForest low s
      → IsForest low (record s { samedom = insert v d s.samedom })
  set_samedom-IsForest low v d n m s hv hd le h = record {
    same_vertex = h.same_vertex;
    same_dfnum = h.same_dfnum;
    parents = h.parents;
    ancestors = h.ancestors;
    bests = h.bests;
    samedoms = λ u k hu.
        insert-holds (λ o. IsUpTo k (get_or 0 o)) v u d s.samedom
          (λ same. let at : n ≡ k = At-unique v u n k same hv hu in (m, hd, omega arith))
          (h.samedoms u k hu);
    idoms = h.idoms;
    once = h.once;
    buckets = h.buckets;
  }

  pub copy_dominator-IsForest :
      (low : ℕ) (w : ObjId) (n : ℕ) (s : Forest)
      → At 0 0
      → At w n
      → 0 < n
      → IsForest low s
      → IsForest low (copy_dominator w s)
  unfolding copy_dominator
  copy_dominator-IsForest low w n s root hw pos h =
      let (k, hk, le) = h.samedoms w n hw in
      if-holds (IsForest low) (samedom_of w s == w) h
        (elim (Option-cases (lookup (samedom_of w s) s.idom)) [
          | inl gone ↦ rw gone (set_idom-IsForest low w 0 n 0 s hw root pos h)
          | inr (d, e) ↦
              let (k', hk', m, hm, lt) = All-lookup IsBelow (samedom_of w s) d s.idom h.idoms e in
              let same : k' ≡ k = some_inj (sym hk' ∙ hk) in
              rw e (set_idom-IsForest low w d n m s hw hm (omega arith) h)
        ])
