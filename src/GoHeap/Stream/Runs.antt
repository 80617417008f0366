-- ===== src/GoHeap/Stream/Runs.antt =====
-- heapdump/goheap/streaming.go: actions of the parser on input that begins with given bytes.
use heaplens.Base.{ℕ, ◌≡◌, refl, ap, List, [], ◌++◌}
use heaplens.Base.{append_assoc, Bool}
use heaplens.Base.{Option, none, some, some_inj}
use heaplens.Run.{ok, pure, ◌>>=◌, ◌>>◌}
use heaplens.GoHeap.Wire.{Context}
use heaplens.GoHeap.Parser.{wrapping}
use heaplens.GoHeap.Stream.{Counted, StreamCallbacks, StreamingParser, Streaming}
use heaplens.GoHeap.Stream.{Callback, reading, modify, call}
use heaplens.GoHeap.Stream.Loop.{guarded}
use heaplens.GoHeap.Stream.Items.{agreed, hand}
use heaplens.GoHeap.Stream.Reads.{Reads}

module _ {U : Type 0} where
  -- The parser over other input.
  abbrev pub over : List ℕ → ℕ → StreamingParser U → StreamingParser U
  over left progress p = record p { input = record { left = left; progress = progress } }

  -- From `p`, `m` takes `bytes` off the front of any input that begins with them, returns `a` and
  -- leaves the parser as `q`.
  pub record Runs {A : Type 0} (p : StreamingParser U) (bytes : List ℕ) (m : Streaming U A) (a : A)
      (q : StreamingParser U) : Type 0 where
    pub at :
        (rest : List ℕ) (progress : ℕ)
        → (progress' : ℕ) × (m (over (bytes ++ rest) progress p) ≡ ok a (over rest progress' q))

  pub Runs-reading :
      {A : Type 0} {m : Counted A} {bytes : List ℕ} {a : A} (p : StreamingParser U)
      → Reads m bytes a
      → Runs p bytes (reading m) a p
  unfolding reading
  Runs-reading p h = record {
    at = λ rest progress. let (progress', e) = h.at rest progress in (progress', rw e refl);
  }

  pub Runs-pure : {A : Type 0} (p : StreamingParser U) (a : A) → Runs p [] (pure a) a p
  unfolding ◌>>=◌
  Runs-pure p a = record { at = λ rest progress. (progress, refl) }

  pub Runs-modify :
      (p : StreamingParser U) (f : StreamingParser U → StreamingParser U)
      → ((left : List ℕ) (progress : ℕ) → f (over left progress p) ≡ over left progress (f p))
      → Runs p [] (modify f) tt (f p)
  unfolding modify
  Runs-modify p f h = record {
    at = λ rest progress. (progress, ap (λ q. ok tt q) (h rest progress));
  }

  module _ {A B : Type 0} where
    pub Runs-bind :
        {p q r : StreamingParser U} {m : Streaming U A} {xs ys : List ℕ} {a : A} {b : B}
        (f : A → Streaming U B)
        → Runs p xs m a q
        → Runs q ys (f a) b r
        → Runs p (xs ++ ys) (m >>= f) b r
    unfolding ◌>>=◌
    Runs-bind {xs} {ys} f hm hf = record {
      at = λ rest progress.
          let (between, first) = hm.at (ys ++ rest) progress in
          let (after, second) = hf.at rest between in
          (after, rw (append_assoc xs ys rest, first) second);
    }

    pub Runs-bind_none :
        {p q r : StreamingParser U} {m : Streaming U A} {ys : List ℕ} {a : A} {b : B}
        (f : A → Streaming U B)
        → Runs p [] m a q
        → Runs q ys (f a) b r
        → Runs p ys (m >>= f) b r
    unfolding ◌>>=◌
    Runs-bind_none {ys} f hm hf = record {
      at = λ rest progress.
          let (between, first) = hm.at (ys ++ rest) progress in
          let (after, second) = hf.at rest between in (after, rw first second);
    }

    pub Runs-bind_last :
        {p q r : StreamingParser U} {m : Streaming U A} {xs : List ℕ} {a : A} {b : B}
        (f : A → Streaming U B)
        → Runs p xs m a q
        → Runs q [] (f a) b r
        → Runs p xs (m >>= f) b r
    unfolding ◌>>=◌
    Runs-bind_last f hm hf = record {
      at = λ rest progress.
          let (between, first) = hm.at rest progress in
          let (after, second) = hf.at rest between in (after, rw first second);
    }

  pub Runs-wrapping :
      {A : Type 0} (c : Context) {p q : StreamingParser U} {m : Streaming U A} {bytes : List ℕ}
      {a : A}
      → Runs p bytes m a q
      → Runs p bytes (wrapping c m) a q
  unfolding wrapping
  Runs-wrapping c h = record {
    at = λ rest progress. let (progress', e) = h.at rest progress in (progress', rw e refl);
  }

  pub Runs-guarded :
      (callbacks : StreamCallbacks U) (c : Context) (wrapped : Bool) {p q : StreamingParser U}
      {m : Streaming U (Unit {0})} {bytes : List ℕ}
      → Runs p bytes m tt q
      → Runs p bytes (guarded callbacks c wrapped m) tt q
  unfolding guarded
  Runs-guarded callbacks c wrapped h = record {
    at = λ rest progress. let (progress', e) = h.at rest progress in (progress', rw e refl);
  }

  answered : (reply : Option ℕ × U) (user : U) → agreed reply ≡ some user → reply ≡ (none, user)
  answered (none, u) user e = cc
  answered (some code, u) user e = cc

  pub Runs-call :
      (p : StreamingParser U) (callback : Option (Callback U)) (user : U)
      → hand callback p.user ≡ some user
      → Runs p [] (call callback) tt (record p { user = user })
  unfolding call hand
  Runs-call p none user e = record {
    at = λ rest progress.
        (progress, ap (λ u. ok tt (over rest progress (record p { user = u }))) (some_inj e));
  }
  Runs-call p (some callback) user e = record {
    at = λ rest progress. (progress, rw (answered (callback p.user) user e) refl);
  }

  -- A value that is read and then kept by a change of the fields.
  pub Runs-field :
      {A B : Type 0} {p r : StreamingParser U} {m : Streaming U B} {xs ys : List ℕ} {a : B} {b : A}
      (f : B → StreamingParser U → StreamingParser U) (k : Streaming U A)
      → Runs p xs m a p
      → ((left : List ℕ) (progress : ℕ) → f a (over left progress p) ≡ over left progress (f a p))
      → Runs (f a p) ys k b r
      → Runs p (xs ++ ys) (m >>= λ b. modify (f b) >> k) b r
  Runs-field {p} {a} f k hm hf hk = Runs-bind _ hm (Runs-bind_none _ (Runs-modify p (f a) hf) hk)
