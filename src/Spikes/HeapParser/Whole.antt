-- ===== src/Spikes/HeapParser/Whole.antt =====
-- spikes/goformat/heap_parser.go: Parse on a whole dump that was written, and on any input.
use heaplens.Base.{
  ℕ, zero, suc, ◌≡◌, ◌≢◌, ◌≤◌, refl, ap, arith, List, [], ◌∷◌, ◌++◌, append_assoc, append-nil,
}
use heaplens.Base.{◌==◌, true, false, length, length-append, All, ◌+◌, ◌-◌, ◌∙◌}
use heaplens.Run.{Outcome, ok, err, panic, stuck, pure, ◌>>=◌, ◌>>◌}
use heaplens.Run.Ends.{EndsAt}
use heaplens.Run.Panics.{IsCalmAt}
use heaplens.GoHeap.Wire.{Error, IsU64, read_varint, read_uvarint_loop, unknown_tag}
use heaplens.GoHeap.Wire.{reading_tag, eof}
use heaplens.GoHeap.Wire.{wrap}
use heaplens.GoHeap.Wire.Encode.{put_varint}
use heaplens.GoHeap.Wire.RoundTrip.{Reads-varint, read_full_append}
use heaplens.GoHeap.Records.RoundTrip.{length-put_varint}
use heaplens.GoHeap.Parser.{wrapping}
use heaplens.GoHeap.Parser.Loop.{magic, bytes_eq, tag_eof, record_case, unknown}
use heaplens.Spikes.HeapParser.{HeapDump, Parser, Parse, reading, empty_dump, new_parser}
use heaplens.Spikes.HeapParser.Loop.{parse_case, parse_record, parse_loop, check_header, parse}
use heaplens.Spikes.HeapParser.Loop.{parsed, partial, failed, panics, runs_on, answer, parse_heap}
use heaplens.Spikes.HeapParser.Ending.{Ends-parse}
use heaplens.Spikes.HeapParser.Calm.{IsCalm-parse}
use heaplens.Spikes.HeapParser.Items.{Item}
use heaplens.Spikes.HeapParser.Items.{item_tag, put_body, put_records, put_dump, IsItem}
use heaplens.Spikes.HeapParser.Items.{keep, keep_all}
use heaplens.Spikes.HeapParser.Runs.{Runs-item, small_tag}

length-put_records : (items : List Item) → length items ≤ length (put_records items)
unfolding put_records
length-put_records [] = omega arith
length-put_records (item ∷ items) =
    rw (length-append, length-append)
      (omega (arith, length-put_varint (item_tag item), length-put_records items))

-- The parser at `rest`, with the dump `d`.
abbrev at_rest : List ℕ → HeapDump → Parser
at_rest rest d = record { r = rest; dump = d }

-- The loop over the records that were written, with the rounds that are left for what follows.
loop_records :
    (items : List Item) (fuel more : ℕ) (d : HeapDump) (rest : List ℕ)
    → fuel ≡ length items + more
    → All IsItem items
    → parse_loop fuel (at_rest (put_records items ++ rest) d)
      ≡ parse_loop more (at_rest rest (keep_all items d))
unfolding parse_loop put_records keep_all ◌>>=◌ reading wrapping
loop_records [] fuel more d rest h all = ap (λ n. parse_loop n (at_rest rest d)) (omega (arith, h))
loop_records (item ∷ items) zero more d rest h all = absurd (omega arith)
loop_records (item ∷ items) (suc fuel) more d rest h (hi, his) =
    let (low, high) = small_tag item in
    let not_eof : (item_tag item == tag_eof) ≡ false = ground arith in
    let tail = put_body item ++ put_records items in
    let run : (elim (item_tag item == tag_eof) as (λ _. Parse (Unit {0})) [
      | true ↦ pure tt
      | false ↦ parse_record (item_tag item) >> parse_loop fuel
    ])
          (at_rest (tail ++ rest) d)
        ≡ parse_loop more (at_rest rest (keep_all (item ∷ items) d)) =
      rw
        (
          not_eof,
          append_assoc (put_body item) (put_records items) rest,
          (Runs-item d item hi).at (put_records items ++ rest),
        )
        (loop_records items fuel more (keep item d) rest (omega arith) his) in
    rw
      (
        append_assoc (put_varint (item_tag item)) tail rest,
        (Reads-varint (item_tag item) (omega arith)).at (tail ++ rest),
      )
      run

-- Parse once the records are read: a round is left at least.
parse_records :
    (items : List Item) (rest : List ℕ)
    → All IsItem items
    → (more : ℕ) × (parse_heap (magic ++ (put_records items ++ rest))
        ≡ answer (parse_loop (suc more) (at_rest rest (keep_all items empty_dump))))
unfolding parse_heap parse new_parser check_header bytes_eq ◌>>=◌ reading wrapping
parse_records items rest all =
    let bytes = put_records items ++ rest in
    let more = length bytes - length items in
    let enough : suc (length bytes) ≡ length items + suc more =
      rw length-append (omega (arith, length-put_records items)) in
    (
      more,
      rw (read_full_append magic bytes) (
          ap answer
            (loop_records items (suc (length bytes)) (suc more) empty_dump rest enough all)),
    )

-- A dump that is written record by record and closed by the end tag is parsed without an error, into
-- the dump that keeps its records one after the other: parameters, types and objects by their
-- addresses, roots, goroutines and frames in order, the last memory statistics. The other records are
-- passed over, and what follows the end tag is not read. There are neither defer, panic nor allocation
-- sample records, and memory statistics are eight numbers.
pub parse_heap-put_dump :
    (items : List Item) (rest : List ℕ)
    → All IsItem items
    → parse_heap (put_dump items ++ rest) ≡ parsed (keep_all items empty_dump)
unfolding put_dump parse_loop ◌>>=◌ reading wrapping
parse_heap-put_dump items rest all =
    let (more, e) = parse_records items (put_varint tag_eof ++ rest) all in
    let d = keep_all items empty_dump in
    let last : answer (parse_loop (suc more) (at_rest (put_varint tag_eof ++ rest) d)) ≡ parsed d =
      rw ((Reads-varint tag_eof (omega arith)).at rest) refl in
    rw (append_assoc (put_records items) (put_varint tag_eof) rest) (e ∙ last)

record_case-unknown : (tag : ℕ) → 18 ≤ tag → record_case tag ≡ unknown
unfolding record_case
record_case-unknown tag h = ground arith

-- The end of the file or an unknown tag behind records that were written: the first is an error, and
-- nothing that was read is returned; the second, a number from 18 on, is an error too, which comes with
-- the dump of the records before it. Among the records are neither defer, panic nor allocation sample
-- records, memory statistics are eight numbers, and each record is within the limits of the format.
pub parse_heap_stops :
    (items : List Item) (tag : ℕ) (rest : List ℕ)
    → All IsItem items
    → 18 ≤ tag
    → IsU64 tag
    → (parse_heap (magic ++ put_records items) ≡ failed (wrap reading_tag eof))
      × (parse_heap (magic ++ (put_records items ++ (put_varint tag ++ rest)))
          ≡ partial (keep_all items empty_dump) (unknown_tag tag))
unfolding parse_loop parse_record parse_case ◌>>=◌ reading wrapping read_varint read_uvarint_loop
parse_heap_stops items tag rest all high small =
    let d = keep_all items empty_dump in
    let (more, e) = parse_records items [] all in
    let (more', e') = parse_records items (put_varint tag ++ rest) all in
    let cut : answer (parse_loop (suc more) (at_rest [] d)) ≡ failed (wrap reading_tag eof) =
      refl in
    let other : (tag == tag_eof) ≡ false = ground arith in
    let after : Parser = at_rest rest d in
    let round : (elim (tag == tag_eof) as (λ _. Parse (Unit {0})) [
      | true ↦ pure tt
      | false ↦ parse_record tag >> parse_loop more'
    ])
          after
        ≡ err (unknown_tag tag) after =
      rw (other, record_case-unknown tag high) refl in
    let last : answer (parse_loop (suc more') (at_rest (put_varint tag ++ rest) d))
        ≡ partial d (unknown_tag tag) =
      rw ((Reads-varint tag small).at rest, round) refl in
    ((rw append-nil at e) ∙ cut, e' ∙ last)

answer_ends :
    (o : Outcome Error Parser (Unit {0})) (n : ℕ)
    → EndsAt (λ p. length p.r) n o
    → IsCalmAt o
    → (answer o ≢ panics) × (answer o ≢ runs_on)
answer_ends (ok u p) n h calm = (λ e. cc, λ e. cc)
answer_ends (err (unknown_tag tag) p) n h calm = (λ e. cc, λ e. cc)
answer_ends (err e p) n h calm = (λ e. cc, λ e. cc)
answer_ends panic n h calm = absurd calm
answer_ends stuck n h calm = absurd h

-- On every input, of any bytes, the prototype's Parse comes to an end without a panic: with a dump, with
-- an error, or with both.
pub parse_heap_ends : (input : List ℕ) → (parse_heap input ≢ panics) × (parse_heap input ≢ runs_on)
unfolding parse_heap
parse_heap_ends input =
    answer_ends (parse (new_parser input)) _ (Ends-parse.at (new_parser input))
      (IsCalm-parse.at (new_parser input))
