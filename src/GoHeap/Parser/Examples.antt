-- ===== src/GoHeap/Parser/Examples.antt =====
-- heapdump/goheap/parser.go: runs on a dump of two objects, and the theorems at concrete inputs.
use heaplens.Base.{ℕ, ◌^◌, ◌≡◌, ◌≢◌, ◌<◌, refl, arith, List, [], ◌∷◌, ◌++◌}
use heaplens.Base.{false, none, some, All, map}
use heaplens.Base.Dict.{lookup, insert}
use heaplens.Run.{ok, panic, stuck, ◌>>=◌}
use heaplens.GoHeap.Wire.{read_varint, read_uvarint_loop, read_full, read_string, read_bytes}
use heaplens.GoHeap.Wire.{int_le, slice, pointer_value, little_endian}
use heaplens.GoHeap.Pointers.{field_pointers}
use heaplens.GoHeap.Records.Parsers.{parse_mem_prof_full, parse_itab_full, parse_finalizer_full}
use heaplens.GoHeap.Records.Parsers.{parse_os_thread_full, parse_data_segment_full, make_frames}
use heaplens.GoHeap.Records.Parsers.{parse_stack_frame_full, read_frames}
use heaplens.GoHeap.Parser.{new_parser, reading, modify, wrapping}
use heaplens.GoHeap.Parser.Objects.{parse_params, parse_type, read_type, parse_object, read_object}
use heaplens.GoHeap.Parser.Objects.{read_pointers, read_pointers_loop, type_address, type_name}
use heaplens.GoHeap.Parser.Objects.{add_type, add_heap_object, add_root, parse_other_root}
use heaplens.GoHeap.Parser.Loop.{
  parse_dump, parse, parse_loop, parse_record, parse_case, record_case,
}
use heaplens.GoHeap.Parser.Loop.{check_header, bytes_eq, read_tag, finalize, magic}
use heaplens.GoHeap.Parser.Skip.{skip_itab, skip_finalizer, skip_os_thread, skip_data_segment}
use heaplens.GoHeap.Parser.Skip.{parse_stack_frame, skip_mem_prof}
use heaplens.GoHeap.Parser.Agree.{forget, skips_agree, skip_mem_prof_agrees}
use heaplens.GoHeap.Parser.Objects
use heaplens.GoHeap.Pointers.{extract_pointers, extract_pointers_loop}
use heaplens.GoHeap.Parser.Items.{DumpRecord, common, os_thread, put_records, put_dump}
use heaplens.GoHeap.Parser.Known.{Known, nothing, keep_all, graph_of}
use heaplens.GoHeap.Parser.Written.{parse_dump-put_dump}
use heaplens.GoHeap.Stream.Items
use heaplens.GoHeap.Stream.{StreamingParser, new_streaming_parser}
use heaplens.GoHeap.Stream.Loop.{parse_stream}
use heaplens.GoHeap.Both.{size_recorder, parsers_agree}
use heaplens.Graph.{Object, values}
use heaplens.GoHeap.Parser.Termination.{parse_dump-ne-stuck}
use heaplens.GoHeap.Parser.Built.{IsBare, iota}
use heaplens.GoHeap.Parser.Built.Dump.{parse_dump-IsBare, parse_dump_roots, parse_dump_ids}
use heaplens.Graph.{MemGraph, keys, num_objects, get_object, new_mem_graph, add_object}
use heaplens.Graph.{set_roots}

-- Parameters (little endian, words of 8 bytes), a type at address 7, an object at 16 whose first word
-- is that address and whose second points at 32, an object at 32, and a root at 32.
abbrev pub sample_dump : List ℕ
sample_dump =
    magic
    ++ (6 ∷ 0 ∷ 8 ∷ 0 ∷ 0 ∷ 0 ∷ 0 ∷ 1 ∷ [])
    ++ (3 ∷ 7 ∷ 16 ∷ 1 ∷ b'T' ∷ 0 ∷ [])
    ++ (1 ∷ 16 ∷ 16 ∷ [])
    ++ (7 ∷ 0 ∷ 0 ∷ 0 ∷ 0 ∷ 0 ∷ 0 ∷ 0 ∷ [])
    ++ (32 ∷ 0 ∷ 0 ∷ 0 ∷ 0 ∷ 0 ∷ 0 ∷ 0 ∷ 1 ∷ 8 ∷ 0 ∷ [])
    ++ (1 ∷ 32 ∷ 0 ∷ 0 ∷ [])
    ++ (2 ∷ 0 ∷ 32 ∷ 0 ∷ 99 ∷ [])

abbrev pub sample_graph : MemGraph
sample_graph = record {
  objects =
      (0, record { id = 0; typ = b'T' ∷ []; size = 16; ptrs = some [] })
      ∷ (
        1,
        record {
          id = 1;
          typ = b'u' ∷ b'n' ∷ b'k' ∷ b'n' ∷ b'o' ∷ b'w' ∷ b'n' ∷ [];
          size = 0;
          ptrs = some [];
        },
      )
      ∷ [];
  roots = record { ids = 1 ∷ [] };
}

-- The pointer from the object at 16 to the one at 32 is read and dropped.
pub parse_dump-sample : parse_dump sample_dump ≡ ok sample_graph (99 ∷ [])
unfolding parse_dump parse ◌>>=◌ reading wrapping modify check_header bytes_eq parse_loop read_tag
    read_varint read_uvarint_loop read_full read_string read_bytes parse_record parse_case
    record_case parse_params parse_type read_type add_type parse_object read_object read_pointers
    read_pointers_loop field_pointers int_le slice pointer_value little_endian type_address
    type_name add_heap_object lookup insert add_object parse_other_root add_root finalize set_roots
    new_parser new_mem_graph
parse_dump-sample = refl

parse_dump-IsBare_example : All IsBare sample_graph.objects
parse_dump-IsBare_example = parse_dump-IsBare sample_dump sample_graph (99 ∷ []) parse_dump-sample

parse_dump_roots_example : All (λ id. get_object sample_graph id ≢ none) sample_graph.roots.ids
parse_dump_roots_example = parse_dump_roots sample_dump sample_graph (99 ∷ []) parse_dump-sample

pub sample_size : num_objects sample_graph < 2 ^ 64
unfolding num_objects
sample_size = omega arith

parse_dump_ids_example : keys sample_graph.objects ≡ iota 0 (num_objects sample_graph)
parse_dump_ids_example =
    parse_dump_ids sample_dump sample_graph (99 ∷ []) sample_size parse_dump-sample

parse_dump-ne-stuck_example : parse_dump (magic ++ 1 ∷ 255 ∷ []) ≢ stuck
parse_dump-ne-stuck_example = parse_dump-ne-stuck (magic ++ 1 ∷ 255 ∷ [])

abbrev cut_record : List ℕ
cut_record = 1 ∷ 2 ∷ 0 ∷ 3 ∷ 128 ∷ []

skips_agree_example :
    (skip_itab cut_record ≡ forget (parse_itab_full cut_record))
    × (skip_finalizer cut_record ≡ forget (parse_finalizer_full cut_record))
    × (skip_os_thread cut_record ≡ forget (parse_os_thread_full cut_record))
    × (skip_data_segment cut_record ≡ forget (parse_data_segment_full cut_record))
    × (parse_stack_frame cut_record ≡ forget (parse_stack_frame_full cut_record))
skips_agree_example = skips_agree cut_record

abbrev shallow : List ℕ
shallow = 1 ∷ 2 ∷ 1 ∷ 0 ∷ 0 ∷ 12 ∷ 3 ∷ 4 ∷ 99 ∷ []

shallow_safe : parse_mem_prof_full shallow ≢ panic
unfolding parse_mem_prof_full ◌>>=◌ read_varint read_uvarint_loop read_string read_full make_frames
    read_frames
shallow_safe e = cc

skip_mem_prof_agrees_example : skip_mem_prof shallow ≡ forget (parse_mem_prof_full shallow)
skip_mem_prof_agrees_example = skip_mem_prof_agrees shallow shallow_safe

-- Words of 8 bytes, a type at 7, an object at 16 whose first word is that address, with a pointer field
-- at its second word, another object at 16, a root there and one that is no object.
abbrev handed : List Items.Item
handed =
    Items.params (record {
      big_endian = false;
      pointer_size = 8;
      heap_start = 0;
      heap_end = 0;
      arch = [];
      go_version = [];
      num_cpus = 1;
    })
    ∷ Items.typ (record { address = 7; size = 16; name = b'T' ∷ []; indirect = false })
    ∷ Items.object 16 (7 ∷ 0 ∷ 0 ∷ 0 ∷ 0 ∷ 0 ∷ 0 ∷ 0 ∷ 32 ∷ 0 ∷ 0 ∷ 0 ∷ 0 ∷ 0 ∷ 0 ∷ 0 ∷ [])
        (record { kind = 1; offset = 8 } ∷ [])
    ∷ Items.object 16 [] []
    ∷ Items.root [] 16
    ∷ Items.root [] 64
    ∷ []

-- The same and a thread.
abbrev written : List DumpRecord
written = map common handed ++ os_thread (record { id = 1; os_thread_id = 2; go_id = 3 }) ∷ []

abbrev written_known : Known
written_known = record {
  params = record {
    big_endian = false;
    pointer_size = 8;
    heap_start = 0;
    heap_end = 0;
    arch = [];
    go_version = [];
    num_cpus = 1;
  };
  types = (7, record { address = 7; size = 16; name = b'T' ∷ []; indirect = false }) ∷ [];
  type_count = 1;
  ids = (16, 1) ∷ [];
  shapes = record { typ = b'T' ∷ []; size = 16 } ∷ record { typ = Objects.unknown; size = 0 } ∷ [];
  roots = 1 ∷ [];
  root_count = 2;
}

keep_all-written : keep_all written nothing ≡ some written_known
unfolding keep_all insert lookup type_address type_name extract_pointers extract_pointers_loop
    field_pointers int_le slice pointer_value little_endian
keep_all-written = refl

parse_dump-put_dump_example :
    (parse_dump (put_dump written ++ 9 ∷ []) ≡ ok (graph_of written_known) (9 ∷ []))
    × (parse_dump (magic ++ put_records written) ≡ ok (graph_of written_known) [])
parse_dump-put_dump_example =
    parse_dump-put_dump written written_known (9 ∷ []) (omega arith) (omega arith) keep_all-written

keep_all-handed : keep_all (map common handed) nothing ≡ some written_known
unfolding keep_all insert lookup type_address type_name extract_pointers extract_pointers_loop
    field_pointers int_le slice pointer_value little_endian
keep_all-handed = refl

parsers_agree_example :
    (q : StreamingParser (List ℕ)) × (parse_stream size_recorder
        (new_streaming_parser (Items.put_dump handed ++ 9 ∷ []) [])
      ≡ ok tt q)
    × (parse_dump (Items.put_dump handed ++ 9 ∷ []) ≡ ok (graph_of written_known) (9 ∷ []))
    × (q.user ≡ map (λ (o : Object). o.size) (values (graph_of written_known).objects))
parsers_agree_example =
    parsers_agree handed written_known (9 ∷ []) (omega arith) (omega arith) keep_all-handed
