-- ===== src/Spikes/HeapParser/Loop.antt =====
-- spikes/goformat/heap_parser.go: Parse. Its tags and the groups of its switch are those of
-- heapdump/goheap/parser.go, but the end of the file is an error here where a tag is read.
use heaplens.Base.{ℕ, zero, suc, List, true, false}
use heaplens.Base.{◌==◌, if◌then◌else◌, length}
use heaplens.Run.{Outcome, ok, err, panic, stuck, pure, raise, exhausted, ◌>>=◌, ◌>>◌}
use heaplens.GoHeap.Wire.{Error, unknown_tag, invalid_header, read_varint, read_full}
use heaplens.GoHeap.Wire.{reading_header, reading_tag, parsing_params, parsing_type, parsing_object}
use heaplens.GoHeap.Wire.{parsing_root, parsing_goroutine, parsing_stack_frame, parsing_memstats}
use heaplens.GoHeap.Wire.{skipping_itab, skipping_finalizer, skipping_data_segment}
use heaplens.GoHeap.Wire.{skipping_defer_panic, skipping_os_thread, skipping_mem_prof}
use heaplens.GoHeap.Parser.{wrapping}
use heaplens.GoHeap.Parser.Loop.{
  magic, bytes_eq, tag_eof, record_case, RecordCase, params, typ, object,
}
use heaplens.GoHeap.Parser.Loop.{other_root, goroutine, stack_frame, mem_stats, itab, finalizer}
use heaplens.GoHeap.Parser.Loop.{data_segment, defer_panic, os_thread, mem_prof, unknown}
use heaplens.Spikes.HeapParser.{HeapDump, Parser, Parse, new_parser, reading}
use heaplens.Spikes.HeapParser.Records.{parse_params, parse_type, parse_object, parse_other_root}
use heaplens.Spikes.HeapParser.Records.{parse_goroutine, parse_stack_frame, parse_mem_stats}
use heaplens.Spikes.HeapParser.Records.{skip_itab, skip_finalizer, skip_data_segment}
use heaplens.Spikes.HeapParser.Records.{skip_defer_panic, skip_os_thread, skip_mem_prof}

unfoldable pub parse_case : RecordCase → ℕ → Parse (Unit {0})
unfolding ◌>>=◌
parse_case params tag = wrapping parsing_params parse_params
parse_case typ tag = wrapping parsing_type parse_type
parse_case object tag = wrapping parsing_object parse_object
parse_case other_root tag = wrapping parsing_root parse_other_root
parse_case goroutine tag = wrapping parsing_goroutine parse_goroutine
parse_case stack_frame tag = wrapping parsing_stack_frame parse_stack_frame
parse_case mem_stats tag = wrapping parsing_memstats parse_mem_stats
parse_case itab tag = wrapping skipping_itab (reading skip_itab)
parse_case finalizer tag = wrapping skipping_finalizer (reading skip_finalizer)
parse_case data_segment tag = wrapping skipping_data_segment (reading skip_data_segment)
parse_case defer_panic tag = wrapping skipping_defer_panic (reading skip_defer_panic)
parse_case os_thread tag = wrapping skipping_os_thread (reading skip_os_thread)
parse_case mem_prof tag = wrapping skipping_mem_prof (reading skip_mem_prof)
parse_case unknown tag = raise (unknown_tag tag)

unfoldable pub parse_record : ℕ → Parse (Unit {0})
parse_record tag = parse_case (record_case tag) tag

-- A round takes a byte at least, so the length of the input bounds the rounds.
unfoldable pub parse_loop : ℕ → Parse (Unit {0})
parse_loop zero = exhausted
parse_loop (suc fuel) = do
  tag ← wrapping reading_tag (reading read_varint)
  elim (tag == tag_eof) [ true ↦ pure tt | false ↦ do parse_record tag; parse_loop fuel ]

unfoldable pub check_header : List ℕ → Parse (Unit {0})
check_header header = if bytes_eq header magic then pure tt else raise (invalid_header header)

unfoldable pub parse : Parse (Unit {0})
parse p =
    (do
      header ← wrapping reading_header (reading (read_full 16))
      check_header header
      λ q. parse_loop (suc (length q.r)) q)
      p

-- The two results of Parse: the dump comes with the error of an unknown tag, and with no other.
pub data Answer : Type 0 where
  parsed : HeapDump → Answer
  partial : HeapDump → Error → Answer
  failed : Error → Answer
  panics runs_on : Answer

abbrev pub answer : Outcome Error Parser (Unit {0}) → Answer
answer (ok u p) = parsed p.dump
answer (err (unknown_tag tag) p) = partial p.dump (unknown_tag tag)
answer (err e p) = failed e
answer panic = panics
answer stuck = runs_on

unfoldable pub parse_heap : List ℕ → Answer
parse_heap input = answer (parse (new_parser input))
