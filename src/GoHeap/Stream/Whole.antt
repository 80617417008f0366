-- ===== src/GoHeap/Stream/Whole.antt =====
-- heapdump/goheap/streaming.go: Parse on a whole dump that was written.
use heaplens.Base.{ℕ, zero, suc, ◌+◌, ◌%◌, ◌^◌, ◌<◌, ◌≡◌, refl, arith, List, [], ◌∷◌, ◌++◌}
use heaplens.Base.{false, ◌==◌}
use heaplens.Base.{none, some, Option-cases, inl, inr, some_inj, length, length-append, All}
use heaplens.Run.{ok, ◌>>=◌}
use heaplens.GoHeap.Wire.{IsU64}
use heaplens.GoHeap.Wire.RoundTrip.{read_full_append}
use heaplens.GoHeap.Wire.Encode.{put_varint}
use heaplens.GoHeap.Parser.Loop.{magic, bytes_eq, tag_eof}
use heaplens.GoHeap.Stream.{StreamCallbacks, StreamingParser}
use heaplens.GoHeap.Stream.{modify, no_params}
use heaplens.GoHeap.Stream.{new_streaming_parser}
use heaplens.GoHeap.Stream.Loop.{tagged, read_next, read_header}
use heaplens.GoHeap.Stream.Loop.{send_progress, count_record}
use heaplens.GoHeap.Stream.Loop.{parse_loop, parse_stream}
use heaplens.GoHeap.Stream.Items.{Item, params, typ, object, root, goroutine, item_tag}
use heaplens.GoHeap.Stream.Items.{put_items, put_dump, IsItem, params_after}
use heaplens.GoHeap.Stream.Items.{hand_item, hand_items}
use heaplens.GoHeap.Stream.Reads.{Reads, Reads-varint}
use heaplens.GoHeap.Stream.Runs.{
  Runs, Runs-pure, over, Runs-reading, Runs-modify, Runs-bind, Runs-bind_none,
}
use heaplens.GoHeap.Stream.Runs.{Runs-bind_last}
use heaplens.GoHeap.Records.RoundTrip.{length-put_varint}
use heaplens.GoHeap.Stream.Delivery.{Runs-item}

not_eof : (item : Item) → (item_tag item == tag_eof) ≡ false
not_eof (params q) = refl
not_eof (typ t) = refl
not_eof (object addr bytes fields) = refl
not_eof (root desc ptr) = refl
not_eof (goroutine g) = refl

tag_IsU64 : (item : Item) → IsU64 (item_tag item)
tag_IsU64 (params q) = omega arith
tag_IsU64 (typ t) = omega arith
tag_IsU64 (object addr bytes fields) = omega arith
tag_IsU64 (root desc ptr) = omega arith
tag_IsU64 (goroutine g) = omega arith

Reads-next : (tag : ℕ) → IsU64 tag → Reads read_next (put_varint tag) (tagged tag)
unfolding read_next
Reads-next tag h = record {
  at = λ rest progress.
      let (progress', e) = (Reads-varint tag h).at rest progress in (progress', rw e refl);
}

Reads-header : Reads read_header magic tt
unfolding read_header bytes_eq
Reads-header = record {
  at = λ rest progress. ((progress + 16) % 2 ^ 64, rw (read_full_append magic rest) refl);
}

lt-length-put_items : (items : List Item) → length items < length (put_items items)
unfolding put_items
lt-length-put_items [] = length-put_varint tag_eof
lt-length-put_items (item ∷ items) =
    rw (length-append, length-append)
      (omega (arith, length-put_varint (item_tag item), lt-length-put_items items))

module _ {U : Type 0} (callbacks : StreamCallbacks U) where
  -- What a parse of the records leaves in the parser.
  record IsAfter (p : StreamingParser U) (items : List Item) (user : U) (q : StreamingParser U)
      : Type 0 where
    handed : q.user ≡ user
    no_error : q.error_count ≡ p.error_count
    counted : q.record_count ≡ p.record_count + length items + 1

  Runs-count :
      (p : StreamingParser U)
      → Runs p [] (count_record callbacks) tt (record p { record_count = p.record_count + 1 })
  unfolding count_record
  Runs-count p = Runs-modify p _ (λ left progress. refl)

  Runs-loop :
      (items : List Item) (fuel : ℕ) (p : StreamingParser U) (user : U)
      → length items < fuel
      → All IsItem items
      → hand_items callbacks p.params items p.user ≡ some user
      → (q : StreamingParser U) × Runs p (put_items items) (parse_loop callbacks fuel) tt q
        × IsAfter p items user q
  unfolding parse_loop put_items hand_items
  Runs-loop items zero p user h all e = absurd (omega arith)
  Runs-loop [] (suc fuel) p user h all e = (
    record p { record_count = p.record_count + 1 },
    Runs-bind_last _ (Runs-reading p (Reads-next tag_eof (omega arith)))
        (Runs-bind_none _ (Runs-count p) (Runs-pure _ tt)),
    record { handed = some_inj e; no_error = refl; counted = omega arith },
  )
  Runs-loop (item ∷ items) (suc fuel) p user h (hi, his) e =
      elim (Option-cases (hand_item callbacks p.params item p.user)) [
        | inl bad ↦ let stop : none ≡ some user = rw (bad, hand_items) at e in cc
        | inr (user', good) ↦
            let counted : StreamingParser U = record p { record_count = p.record_count + 1 } in
            let between : StreamingParser U = record counted {
              params = params_after p.params item;
              user = user';
            } in
            let later = rw (good, hand_items) at e in
            let (q, run, after) = Runs-loop items fuel between user (omega arith) his later in
            (
              q,
              Runs-bind _ (Runs-reading p (Reads-next (item_tag item) (tag_IsU64 item))) (
                  Runs-bind_none _ (Runs-count p) (
                    rw (not_eof item)
                      (Runs-bind _ (Runs-item callbacks counted item user' hi good) run))),
              record {
                handed = after.handed;
                no_error = after.no_error;
                counted = omega (arith, after.counted);
              },
            )
      ]

  silent :
      (p : StreamingParser U)
      → callbacks.on_progress ≡ none
      → Runs p [] (send_progress callbacks) tt p
  unfolding send_progress modify
  silent p h = record { at = λ rest progress. (progress, rw h refl) }

-- A dump of parameters, types, objects, roots and goroutines alone, each within the limits of the
-- format, that is written record by record and closed by the end tag is parsed without an error, with
-- each record handed to its callback once and in order, the parameters in force being the last ones
-- before it; what follows the end tag is not read. The contents of objects are read without a panic,
-- the callbacks refuse nothing, and progress is not reported.
pub parse_stream-put_dump :
    {U : Type 0} (callbacks : StreamCallbacks U) (items : List Item) (rest : List ℕ)
    (start user : U)
    → All IsItem items
    → callbacks.on_progress ≡ none
    → hand_items callbacks no_params items start ≡ some user
    → (q : StreamingParser U) × (parse_stream callbacks
          (new_streaming_parser (put_dump items ++ rest) start)
        ≡ ok tt q)
      × (q.user ≡ user)
      × (q.input.left ≡ rest)
      × (q.error_count ≡ 0)
      × (q.record_count ≡ length items + 1)
unfolding parse_stream put_dump new_streaming_parser ◌>>=◌
parse_stream-put_dump {U} callbacks items rest start user all quiet e =
    let p : StreamingParser U = new_streaming_parser [] start in
    let bytes = put_items items ++ rest in
    let enough : length items < suc (length bytes) =
      rw length-append (omega (arith, lt-length-put_items items)) in
    let (q, run, after) = Runs-loop callbacks items (suc (length bytes)) p user enough all e in
    let (progress, header) = (Runs-reading p Reads-header).at bytes 0 in
    let (progress', reported) = (silent callbacks p quiet).at bytes progress in
    let (progress'', ends) = run.at rest progress' in
    (
      over rest progress'' q,
      rw (header, reported) ends,
      after.handed,
      refl,
      after.no_error,
      omega (arith, after.counted),
    )
