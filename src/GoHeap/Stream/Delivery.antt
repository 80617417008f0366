-- ===== src/GoHeap/Stream/Delivery.antt =====
-- heapdump/goheap/streaming.go: a round of Parse on a record that was written.
use heaplens.Base.{ℕ, ◌≤◌, ◌≡◌, refl, List}
use heaplens.Base.{Bool, true, false, if◌then◌else◌}
use heaplens.Base.{Option, none, some, Option-cases, inl, inr, length}
use heaplens.Run.{◌>>=◌}
use mathlib.Core.Path.{subst}
use mathlib.Core.Option
use heaplens.GoHeap.Wire.{IsU64, Context, max_string}
use heaplens.GoHeap.Wire.Encode.{put_varint, put_string}
use heaplens.GoHeap.Pointers.{extract_pointers}
use heaplens.GoHeap.Parser.{wrapping}
use heaplens.GoHeap.Parser.Objects.{type_address}
use heaplens.GoHeap.Stream.{Counted, DumpParams, StreamCallbacks, StreamingParser, Streaming}
use heaplens.GoHeap.Stream.{Callback, reading, call, read_varint, read_string}
use heaplens.GoHeap.Stream.Records.{parse_params, parse_type, parse_object, parse_root}
use heaplens.GoHeap.Stream.Records.{parse_goroutine}
use heaplens.GoHeap.Stream.Loop.{is_set, stream_case, parse_case}
use heaplens.GoHeap.Stream.Items.{put_object}
use heaplens.GoHeap.Records.{PointerField}
use heaplens.GoHeap.Stream.Items.{Item, params, typ, object, root, goroutine, item_tag, put_params}
use heaplens.GoHeap.Stream.Items.{put_body, IsParams, IsItem, params_after}
use heaplens.GoHeap.Stream.Items.{hand, hand_item}
use heaplens.GoHeap.Stream.Reads.{Reads, Reads-varint, Reads-string, Reads-bool, flag, flag_lem}
use heaplens.GoHeap.Stream.Reads.{Reads-type, Reads-object, Reads-root, Reads-goroutine}
use heaplens.GoHeap.Stream.Runs.{Runs, Runs-reading}
use heaplens.GoHeap.Stream.Runs.{Runs-bind_last, Runs-wrapping, Runs-guarded, Runs-call, Runs-field}

module _ {U : Type 0} (callbacks : StreamCallbacks U) where
  abbrev with_params : DumpParams → StreamingParser U → StreamingParser U
  with_params q p = record p { params = q }

  Runs-number :
      (p : StreamingParser U) (v : ℕ) → IsU64 v → Runs p (put_varint v) (reading read_varint) v p
  Runs-number p v h = Runs-reading p (Reads-varint v h)

  Runs-text :
      (c : Context) (p : StreamingParser U) (s : List ℕ)
      → length s ≤ max_string
      → Runs p (put_string s) (wrapping c (reading read_string)) s p
  Runs-text c p s h = Runs-wrapping c (Runs-reading p (Reads-string s h))

  Runs-decoded_params :
      (p : StreamingParser U) (q : DumpParams) (user : U)
      → IsParams q
      → hand
          (Option.map (λ f. f (record q { big_endian = flag q.big_endian })) callbacks.on_params)
          p.user
        ≡ some user
      → Runs p
          (put_params q)
          (parse_params callbacks)
          tt
          (record p { params = record q { big_endian = flag q.big_endian }; user = user })
  unfolding parse_params put_params flag
  Runs-decoded_params p q user h e =
      Runs-field _ _ (Runs-reading _ (Reads-bool q.big_endian)) (λ l g. refl)
        (Runs-field _ _ (Runs-number _ q.pointer_size h.pointer_size) (λ l g. refl)
          (Runs-field _ _ (Runs-number _ q.heap_start h.heap_start) (λ l g. refl)
            (Runs-field _ _ (Runs-number _ q.heap_end h.heap_end) (λ l g. refl)
              (Runs-field _ _ (Runs-text _ _ q.arch h.arch) (λ l g. refl)
                (Runs-field _ _ (Runs-text _ _ q.go_version h.go_version) (λ l g. refl)
                  (Runs-field _ _ (Runs-number _ q.num_cpus h.num_cpus) (λ l g. refl)
                    (record {
                      at = λ rest progress.
                          (Runs-call (with_params (record q { big_endian = flag q.big_endian }) p) _
                              user e).at
                            rest progress;
                    })))))))

  Runs-params :
      (p : StreamingParser U) (q : DumpParams) (user : U)
      → IsParams q
      → hand_item callbacks p.params (params q) p.user ≡ some user
      → Runs p (put_params q) (parse_params callbacks) tt (record p { params = q; user = user })
  unfolding hand_item
  Runs-params p q user h e =
      subst
        (λ b.
          hand (Option.map (λ f. f (record q { big_endian = b })) callbacks.on_params) p.user
            ≡ some user
          → Runs p (put_params q) (parse_params callbacks) tt
              (record p { params = record q { big_endian = b }; user = user }))
        (flag_lem q.big_endian) (Runs-decoded_params p q user h) e

  -- A record that is read, and its callback.
  Runs-called :
      {B : Type 0} {m : Counted B} {bytes : List ℕ} {b : B} (p : StreamingParser U)
      (f : B → Option (Callback U)) (user : U)
      → Reads m bytes b
      → hand (f b) p.user ≡ some user
      → Runs p bytes (reading m >>= λ b. call (f b)) tt (record p { user = user })
  Runs-called {b} p f user h e = Runs-bind_last _ (Runs-reading p h) (Runs-call p (f b) user e)

  Runs-object :
      (p : StreamingParser U) (addr : ℕ) (bytes : List ℕ) (fields : List PointerField) (user : U)
      → IsItem (object addr bytes fields)
      → hand_item callbacks p.params (object addr bytes fields) p.user ≡ some user
      → Runs p (put_object addr bytes fields) (parse_object callbacks) tt (record p { user = user })
  unfolding parse_object hand_item
  Runs-object p addr bytes fields user (ha, hb, hf) e =
      let n = p.params.pointer_size in
      let be = p.params.big_endian in
      elim (Option-cases (type_address bytes n be)) [
        | inl bad ↦ let stop : none ≡ some user = rw bad at e in cc
        | inr (type_addr, ht) ↦ elim (Option-cases (extract_pointers bytes fields n be)) [
          | inl bad ↦ let stop : none ≡ some user = rw (ht, bad) at e in cc
          | inr (pointers, hp) ↦
              let called = rw (ht, hp) at e in
              record {
                at = λ rest progress.
                    (Runs-called p
                        (λ o.
                          Option.map (λ f. f o.addr o.type_addr o.bytes o.pointers)
                            callbacks.on_object)
                        user (Reads-object addr bytes fields n be type_addr pointers ha hb hf ht hp)
                        called).at
                      rest progress;
              }
        ]
      ]

  Runs-if :
      {p q : StreamingParser U} {m k : Streaming U (Unit {0})} {bytes : List ℕ} (b : Bool)
      → Runs p bytes m tt q
      → Runs p bytes k tt q
      → Runs p bytes (if b then m else k) tt q
  Runs-if true h k = h
  Runs-if false h k = k

  -- What Parse does below the tag of a record.
  pub Runs-item :
      (p : StreamingParser U) (item : Item) (user : U)
      → IsItem item
      → hand_item callbacks p.params item p.user ≡ some user
      → Runs p
          (put_body item)
          (parse_case callbacks (stream_case (item_tag item)) (item_tag item))
          tt
          (record p { params = params_after p.params item; user = user })
  unfolding parse_case stream_case
  Runs-item p (params q) user h e = Runs-wrapping _ (Runs-params p q user h e)
  Runs-item p (typ t) user h e =
      unfold parse_type hand_item in
      let run = Runs-called p _ user (Reads-type t h) e in
      Runs-if (is_set callbacks.on_type) (Runs-wrapping _ run) (Runs-guarded callbacks _ true run)
  Runs-item p (object addr bytes fields) user h e =
      Runs-guarded callbacks _ false (Runs-object p addr bytes fields user h e)
  Runs-item p (root desc ptr) user (hd, hp) e =
      unfold parse_root hand_item in
      Runs-guarded callbacks _ false (Runs-called p _ user (Reads-root desc ptr hd hp) e)
  Runs-item p (goroutine g) user h e =
      unfold parse_goroutine hand_item in
      Runs-guarded callbacks _ false (Runs-called p _ user (Reads-goroutine g h) e)
