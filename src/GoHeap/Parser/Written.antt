-- ===== src/GoHeap/Parser/Written.antt =====
-- heapdump/goheap/parser.go: Parse on a whole dump that was written.
use heaplens.Base.{
  ℕ, zero, suc, ◌+◌, ◌-◌, ◌^◌, ◌≤◌, ◌<◌, ◌≡◌, refl, ap, ◌∙◌, arith, List, [], ◌∷◌, ◌++◌,
}
use heaplens.Base.{append_assoc, append-nil, true, false, ◌==◌, Option, Option-cases, none, some}
use heaplens.Base.{inl, inr, some_inj, length, length-append, All}
use heaplens.Run.{ok, ◌>>=◌, ◌>>◌}
use heaplens.Graph.{new_mem_graph, set_roots}
use heaplens.GoHeap.Wire.{read_varint, read_uvarint_loop}
use heaplens.GoHeap.Wire.Encode.{put_varint}
use heaplens.GoHeap.Wire.RoundTrip.{Reads-varint, read_full_append}
use heaplens.GoHeap.Parser.{Parser, Parse, new_parser, reading, modify, wrapping}
use heaplens.GoHeap.Parser.Loop.{magic, bytes_eq, tag_eof, read_tag, parse_record, parse_loop}
use heaplens.GoHeap.Parser.Loop.{finalize, check_header, parse, parsed, parse_dump}
use heaplens.GoHeap.Parser.Items.{DumpRecord, common, frame, itab, finalizer, queued_finalizer}
use heaplens.GoHeap.Parser.Items.{data_segment, bss_segment, os_thread, mem_prof}
use heaplens.GoHeap.Parser.Items.{tag_of, tag_of_range, put_record, put_records, put_dump, IsRecord}
use heaplens.GoHeap.Parser.Items.{length-put_records}
use heaplens.GoHeap.Parser.Known.{Known, nothing, keep_object, keep, keep_all}
use heaplens.GoHeap.Parser.Known.{nodes_from, graph_of}
use heaplens.GoHeap.Parser.Runs.{over, parser_of, Runs-record}
use heaplens.GoHeap.Stream.Items

abbrev shape_count : Known → ℕ
shape_count k = length k.shapes

kept_count : (k k' : Known) → some k ≡ some k' → shape_count k' ≤ shape_count k + 1
kept_count k k' e = let same = ap shape_count (some_inj e) in omega arith

object_count :
    (k k' : Known) (addr : ℕ) (bytes : List ℕ) (type_addr : Option (Option ℕ))
    (pointers : Option (List ℕ))
    → keep_object addr bytes type_addr pointers k ≡ some k'
    → shape_count k' ≤ shape_count k + 1
object_count k k' addr bytes none pointers e = let impossible : ⊥ = cc in absurd impossible
object_count k k' addr bytes (some ta) none e = let impossible : ⊥ = cc in absurd impossible
object_count k k' addr bytes (some ta) (some ps) e =
    let same = ap shape_count (some_inj e) in omega (arith, length-append k.shapes _)

-- A record brings one object at most.
grows : (k k' : Known) (r : DumpRecord) → keep r k ≡ some k' → shape_count k' ≤ shape_count k + 1
grows k k' (common (Items.params q)) e = let same = ap shape_count (some_inj e) in omega arith
grows k k' (common (Items.typ t)) e = let same = ap shape_count (some_inj e) in omega arith
grows k k' (common (Items.object addr bytes fields)) e = object_count k k' addr bytes _ _ e
grows k k' (common (Items.root desc ptr)) e = let same = ap shape_count (some_inj e) in omega arith
grows k k' (common (Items.goroutine g)) e = let impossible : ⊥ = cc in absurd impossible
grows k k' (frame f) e = kept_count k k' e
grows k k' (itab i) e = kept_count k k' e
grows k k' (finalizer f) e = kept_count k k' e
grows k k' (queued_finalizer f) e = kept_count k k' e
grows k k' (data_segment d) e = kept_count k k' e
grows k k' (bss_segment d) e = kept_count k k' e
grows k k' (os_thread t) e = kept_count k k' e
grows k k' (mem_prof m) e = kept_count k k' e

abbrev at_rest : List ℕ → Known → Parser
at_rest rest k = over rest (parser_of k)

-- The loop over the records that were written, with the rounds that are left for what follows.
loop_records :
    (rs : List DumpRecord) (fuel more : ℕ) (k k' : Known) (rest : List ℕ)
    → fuel ≡ length rs + more
    → shape_count k + length rs < 2 ^ 64
    → All IsRecord rs
    → keep_all rs k ≡ some k'
    → parse_loop fuel (at_rest (put_records rs ++ rest) k) ≡ parse_loop more (at_rest rest k')
unfolding parse_loop put_records keep_all ◌>>=◌ reading read_tag
loop_records [] fuel more k k' rest h small all e =
    let same : fuel ≡ more = omega (arith, h) in
    ap (λ n. parse_loop n (at_rest rest k)) same
    ∙ ap (λ k. parse_loop more (at_rest rest k)) (some_inj e)
loop_records (r ∷ rs) zero more k k' rest h small all e = absurd (omega arith)
loop_records (r ∷ rs) (suc fuel) more k k' rest h small (hr, hrs) e =
    elim (Option-cases (keep r k)) [
      | inl bad ↦ let stop : none ≡ some k' = rw (bad, keep_all) at e in cc
      | inr (k1, good) ↦
          let later : keep_all rs k1 ≡ some k' = rw (good, keep_all) at e in
          let (low, high) = tag_of_range r in
          let not_eof : (tag_of r == tag_eof) ≡ false = ground arith in
          let tail = put_record r ++ put_records rs in
          let more_objects = grows k k1 r good in
          let run : (elim (tag_of r == tag_eof) as (λ _. Parse (Unit {0})) [
            | true ↦ finalize
            | false ↦ parse_record (tag_of r) >> parse_loop fuel
          ])
                (at_rest (tail ++ rest) k)
              ≡ parse_loop more (at_rest rest k') =
            rw
              (
                not_eof,
                append_assoc (put_record r) (put_records rs) rest,
                (Runs-record k k1 r hr (omega arith) good).at (put_records rs ++ rest),
              )
              (loop_records rs fuel more k1 k' rest (omega arith) (omega arith) hrs later) in
          rw
            (
              append_assoc (put_varint (tag_of r)) tail rest,
              (Reads-varint (tag_of r) (omega arith)).at (tail ++ rest),
            )
            run
    ]

-- Parse once the records are read: a round is left at least.
parse_records :
    (rs : List DumpRecord) (k : Known) (rest : List ℕ)
    → length rs < 2 ^ 64
    → All IsRecord rs
    → keep_all rs nothing ≡ some k
    → (more : ℕ) × (parse_dump (magic ++ (put_records rs ++ rest))
        ≡ parsed (parse_loop (suc more) (at_rest rest k)))
unfolding parse_dump parse new_parser new_mem_graph check_header bytes_eq nodes_from ◌>>=◌ reading
    wrapping
parse_records rs k rest small all e =
    let bytes = put_records rs ++ rest in
    let more = length bytes - length rs in
    let enough : suc (length bytes) ≡ length rs + suc more =
      rw length-append (omega (arith, length-put_records rs)) in
    (
      more,
      rw (read_full_append magic bytes) (
          ap parsed (
            loop_records rs (suc (length bytes)) (suc more) nothing k rest enough
              (omega (arith, small)) all e)),
    )

-- A dump that is written record by record and closed by the end tag parses without an error, and what
-- follows the end tag is not read; without the end tag, at the end of the file, it parses into the same
-- graph. The graph has the objects of the dump by their places in it, each with the size of its
-- contents and the name of the last type before it whose address is its first word, or "unknown"; the
-- roots are, for each root record, the last object before it at its address, if there is one. The
-- records are parameters, types, objects, roots, stack frames, interface tables, finalizers, queued
-- finalizers, data and BSS segments, OS threads and memory profiles, fewer than 2^64 and each within
-- the limits of the format; there are no others, such as goroutines, memory statistics, defer and panic
-- records and allocation samples. Contents are read without a panic.
pub parse_dump-put_dump :
    (rs : List DumpRecord) (k : Known) (rest : List ℕ)
    → length rs < 2 ^ 64
    → All IsRecord rs
    → keep_all rs nothing ≡ some k
    → (parse_dump (put_dump rs ++ rest) ≡ ok (graph_of k) rest)
      × (parse_dump (magic ++ put_records rs) ≡ ok (graph_of k) [])
unfolding put_dump parse_loop finalize set_roots modify ◌>>=◌ reading read_tag read_varint
    read_uvarint_loop
parse_dump-put_dump rs k rest small all e =
    let (more, run) = parse_records rs k (put_varint tag_eof ++ rest) small all e in
    let (more', run') = parse_records rs k [] small all e in
    let last : parsed (parse_loop (suc more) (at_rest (put_varint tag_eof ++ rest) k))
        ≡ ok (graph_of k) rest =
      rw ((Reads-varint tag_eof (omega arith)).at rest) refl in
    (
      rw (append_assoc (put_records rs) (put_varint tag_eof) rest) (run ∙ last),
      rw append-nil at run',
    )
