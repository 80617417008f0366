-- ===== src/Spikes/HeapParser/Examples.antt =====
-- spikes/goformat/heap_parser.go: the theorems at concrete dumps.
use heaplens.Base.{◌≡◌, ◌≢◌, arith, List, [], ◌∷◌, ◌++◌, true, false}
use heaplens.GoHeap.Wire.{wrap, reading_tag, eof, unknown_tag}
use heaplens.GoHeap.Wire.Encode.{put_varint}
use heaplens.GoHeap.Parser.Loop.{magic}
use heaplens.GoHeap.Stream.Items
use heaplens.Spikes.HeapParser.{empty_dump}
use heaplens.Spikes.HeapParser.Loop.{parsed, partial, failed, panics, runs_on, parse_heap}
use heaplens.GoHeap.Parser.Items.{common, frame, itab, finalizer, data_segment}
use heaplens.Spikes.HeapParser.Items.{Item, plain, stats, put_records, put_dump, keep_all}
use heaplens.Spikes.HeapParser.Whole.{parse_heap-put_dump, parse_heap_stops, parse_heap_ends}
use heaplens.Spikes.HeapParser.Keyed.{ReturnsKeyed, parse_heap-ReturnsKeyed}

-- A record of nearly every kind, and two objects at one address.
abbrev records : List Item
records =
    plain (
      common (
        Items.params (record {
          big_endian = true;
          pointer_size = 8;
          heap_start = 4096;
          heap_end = 8192;
          arch = b'a' ∷ [];
          go_version = b'g' ∷ [];
          num_cpus = 4;
        })))
    ∷ plain
        (common (Items.typ (record { address = 7; size = 16; name = b'T' ∷ []; indirect = true })))
    ∷ plain (common (Items.object 300 (1 ∷ 2 ∷ []) (record { kind = 1; offset = 8 } ∷ [])))
    ∷ plain (common (Items.object 300 [] []))
    ∷ plain (common (Items.root (b'r' ∷ []) 300))
    ∷ plain (
        common (
          Items.goroutine (record {
            address = 4096;
            stack_top = 8192;
            id = 1;
            status = 4;
            is_system = false;
            is_background = true;
            wait_since = 0;
            wait_reason = b'z' ∷ [];
            ctxt_addr = 0;
            m_addr = 0;
            defer_addr = 0;
            panic_addr = 0;
          })))
    ∷ plain (
        frame (record {
          sp = 1000;
          depth = 0;
          child_sp = 0;
          bytes = 1 ∷ [];
          entry_pc = 4096;
          pc = 4100;
          cont_pc = 4104;
          name = b'f' ∷ [];
          pointers = record { kind = 1; offset = 0 } ∷ [];
        }))
    ∷ stats (record {
      alloc = 1000;
      total_alloc = 2000;
      sys = 3;
      n_lookup = 4;
      n_malloc = 5;
      n_free = 6;
      heap_alloc = 7;
      heap_sys = 8;
    })
    ∷ plain (itab (record { interface = 1; typ = 2 }))
    ∷ plain
        (finalizer (record { object = 1; function = 2; func_val = 3; func_type = 4; obj_type = 5 }))
    ∷ plain (data_segment (record { address = 1; bytes = 9 ∷ []; pointers = [] }))
    ∷ []

parse_heap-put_dump_example :
    parse_heap (put_dump records ++ 9 ∷ []) ≡ parsed (keep_all records empty_dump)
parse_heap-put_dump_example = parse_heap-put_dump records (9 ∷ []) (omega arith)

parse_heap_stops_example :
    (parse_heap (magic ++ put_records records) ≡ failed (wrap reading_tag eof))
    × (parse_heap (magic ++ (put_records records ++ (put_varint 99 ++ 9 ∷ [])))
        ≡ partial (keep_all records empty_dump) (unknown_tag 99))
parse_heap_stops_example =
    parse_heap_stops records 99 (9 ∷ []) (omega arith) (omega arith) (omega arith)

parse_heap_ends_example :
    (parse_heap (magic ++ 1 ∷ 16 ∷ 200 ∷ []) ≢ panics)
    × (parse_heap (magic ++ 1 ∷ 16 ∷ 200 ∷ []) ≢ runs_on)
parse_heap_ends_example = parse_heap_ends (magic ++ 1 ∷ 16 ∷ 200 ∷ [])

parse_heap-ReturnsKeyed_example : ReturnsKeyed (parse_heap (put_dump records))
parse_heap-ReturnsKeyed_example = parse_heap-ReturnsKeyed (put_dump records)
