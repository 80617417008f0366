-- ===== src/GoHeap/Parser/Loop.antt =====
-- heapdump/goheap/parser.go: CanParse, Parse and the loop over the records of a dump.
use heaplens.Base.{ℕ, zero, suc, ◌+◌, List, [], ◌∷◌, Bool, true, false, ◌&&◌, ◌||◌}
use heaplens.Base.{Option, none, some, leb, ◌==◌, if◌then◌else◌, length, take}
use heaplens.Run.{Outcome, ok, err, panic, stuck, pure, raise, exhausted, ◌>>=◌, ◌>>◌}
use heaplens.GoHeap.Wire.{Error, eof, unknown_tag, invalid_header, wrap, Reader}
use heaplens.GoHeap.Wire.{reading_header, reading_tag, parsing_params, parsing_type, parsing_object}
use heaplens.GoHeap.Wire.{parsing_root, parsing_goroutine, parsing_stack_frame, parsing_memstats}
use heaplens.GoHeap.Wire.{skipping_itab, skipping_finalizer, skipping_data_segment}
use heaplens.GoHeap.Wire.{skipping_defer_panic, skipping_os_thread, skipping_mem_prof}
use heaplens.GoHeap.Wire.{parsing_heap_dump, read_varint, read_full}
use heaplens.GoHeap.Parser.{Parser, Parse, Stats, new_parser, reading, modify, wrapping}
use heaplens.GoHeap.Parser.Objects.{parse_params, parse_type, parse_object, parse_other_root}
use heaplens.GoHeap.Parser.Skip.{skip_goroutine, parse_stack_frame, parse_mem_stats, skip_itab}
use heaplens.GoHeap.Parser.Skip.{skip_finalizer, skip_data_segment, skip_defer_panic}
use heaplens.GoHeap.Parser.Skip.{skip_os_thread, skip_mem_prof}
use heaplens.Graph.{MemGraph, set_roots}

-- The record tags of the constant block, in its order.
abbrev pub tag_eof : ℕ
tag_eof = 0

abbrev pub tag_object : ℕ
tag_object = 1

abbrev pub tag_other_root : ℕ
tag_other_root = 2

abbrev pub tag_type : ℕ
tag_type = 3

abbrev pub tag_goroutine : ℕ
tag_goroutine = 4

abbrev pub tag_stack_frame : ℕ
tag_stack_frame = 5

abbrev pub tag_params : ℕ
tag_params = 6

abbrev pub tag_finalizer : ℕ
tag_finalizer = 7

abbrev pub tag_itab : ℕ
tag_itab = 8

abbrev pub tag_os_thread : ℕ
tag_os_thread = 9

abbrev pub tag_mem_stats : ℕ
tag_mem_stats = 10

abbrev pub tag_queued_finalizer : ℕ
tag_queued_finalizer = 11

abbrev pub tag_data : ℕ
tag_data = 12

abbrev pub tag_bss : ℕ
tag_bss = 13

abbrev pub tag_defer : ℕ
tag_defer = 14

abbrev pub tag_panic : ℕ
tag_panic = 15

abbrev pub tag_mem_prof : ℕ
tag_mem_prof = 16

abbrev pub tag_alloc_sample : ℕ
tag_alloc_sample = 17

-- "go1.7 heap dump\n"
abbrev pub magic : List ℕ
magic =
    b'g' ∷ b'o' ∷ b'1' ∷ b'.' ∷ b'7' ∷ 32 ∷ b'h' ∷ b'e' ∷ b'a' ∷ b'p' ∷ 32 ∷ b'd' ∷ b'u' ∷ b'm'
    ∷ b'p' ∷ 10 ∷ []

unfoldable pub bytes_eq : List ℕ → List ℕ → Bool
bytes_eq [] [] = true
bytes_eq [] (y ∷ ys) = false
bytes_eq (x ∷ xs) [] = false
bytes_eq (x ∷ xs) (y ∷ ys) = x == y && bytes_eq xs ys

-- One Read of 16 bytes from a reader over bytes in memory, which returns all that it has up to 16.
unfoldable pub can_parse : List ℕ → Bool
can_parse input = leb 16 (length input) && bytes_eq (take 16 input) magic

abbrev pub count_goroutine : Stats → Stats
count_goroutine s = record s { goroutines = s.goroutines + 1 }

unfoldable pub parse_goroutine : Parse (Unit {0})
parse_goroutine = do
  reading skip_goroutine
  modify (λ p. record p { stats = count_goroutine p.stats })

unfoldable pub finalize : Parse (Unit {0})
finalize = modify (λ p. record p { g = set_roots (record { ids = p.roots }) p.g })

-- The cases of the switch on the tag, below tagEOF.
pub data RecordCase : Type 0 where
  params typ object other_root goroutine stack_frame mem_stats itab : RecordCase
  finalizer data_segment defer_panic os_thread mem_prof unknown : RecordCase

unfoldable pub record_case : ℕ → RecordCase
record_case tag =
    if tag == tag_params
    then params
    else if tag == tag_type
    then typ
    else if tag == tag_object
    then object
    else if tag == tag_other_root
    then other_root
    else if tag == tag_goroutine
    then goroutine
    else if tag == tag_stack_frame
    then stack_frame
    else if tag == tag_mem_stats
    then mem_stats
    else if tag == tag_itab
    then itab
    else if tag == tag_finalizer || tag == tag_queued_finalizer
    then finalizer
    else if tag == tag_data || tag == tag_bss
    then data_segment
    else if tag == tag_defer || tag == tag_panic
    then defer_panic
    else if tag == tag_os_thread
    then os_thread
    else if tag == tag_mem_prof || tag == tag_alloc_sample
    then mem_prof
    else unknown

unfoldable pub parse_case : RecordCase → ℕ → Parse (Unit {0})
unfolding ◌>>=◌
parse_case params tag = wrapping parsing_params parse_params
parse_case typ tag = wrapping parsing_type parse_type
parse_case object tag = wrapping parsing_object parse_object
parse_case other_root tag = wrapping parsing_root parse_other_root
parse_case goroutine tag = wrapping parsing_goroutine parse_goroutine
parse_case stack_frame tag = wrapping parsing_stack_frame (reading parse_stack_frame)
parse_case mem_stats tag = wrapping parsing_memstats (reading parse_mem_stats)
parse_case itab tag = wrapping skipping_itab (reading skip_itab)
parse_case finalizer tag = wrapping skipping_finalizer (reading skip_finalizer)
parse_case data_segment tag = wrapping skipping_data_segment (reading skip_data_segment)
parse_case defer_panic tag = wrapping skipping_defer_panic (reading skip_defer_panic)
parse_case os_thread tag = wrapping skipping_os_thread (reading skip_os_thread)
parse_case mem_prof tag = wrapping skipping_mem_prof (reading skip_mem_prof)
parse_case unknown tag = raise (unknown_tag tag)

unfoldable pub parse_record : ℕ → Parse (Unit {0})
parse_record tag = parse_case (record_case tag) tag

-- The tag of the next record, `none` at the end of the file.
abbrev pub tag_or_end : Outcome Error (List ℕ) ℕ → Outcome Error (List ℕ) (Option ℕ)
tag_or_end (ok tag r) = ok (some tag) r
tag_or_end (err eof r) = ok none r
tag_or_end (err e r) = err (wrap reading_tag e) r
tag_or_end panic = panic
tag_or_end stuck = stuck

unfoldable pub read_tag : Reader (Option ℕ)
read_tag r = tag_or_end (read_varint r)

-- A round takes a byte at least, so the length of the input bounds the rounds.
unfoldable pub parse_loop : ℕ → Parse (Unit {0})
parse_loop zero = exhausted
parse_loop (suc fuel) = do
  next ← reading read_tag
  elim next [
    | none ↦ finalize
    | some tag ↦ elim (tag == tag_eof) [
      | true ↦ finalize
      | false ↦ do parse_record tag; parse_loop fuel
    ]
  ]

unfoldable pub check_header : List ℕ → Parse (Unit {0})
check_header header = if bytes_eq header magic then pure tt else raise (invalid_header header)

-- (*parser).parse
unfoldable pub parse : Parse (Unit {0})
parse p =
    (do
      header ← reading (λ r. wrapping reading_header (read_full 16) r)
      check_header header
      λ q. parse_loop (suc (length q.r)) q)
      p

abbrev pub parsed : Outcome Error Parser (Unit {0}) → Outcome Error (List ℕ) MemGraph
parsed (ok u p) = ok p.g p.r
parsed (err e p) = err (wrap parsing_heap_dump e) p.r
parsed panic = panic
parsed stuck = stuck

-- (*GoHeapParser).Parse: the graph that the parser has built when it ends without an error.
unfoldable pub parse_dump : Reader MemGraph
parse_dump input = parsed (parse (new_parser input))
