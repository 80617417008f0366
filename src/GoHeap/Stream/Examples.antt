-- ===== src/GoHeap/Stream/Examples.antt =====
-- heapdump/goheap/streaming.go: runs with callbacks that keep what they are given, and the theorems at
-- concrete inputs.
use heaplens.Base.{◌+◌, ℕ, ◌≡◌, ◌≢◌, refl, arith, List, [], ◌∷◌, ◌++◌, true, false, none, some, All}
use heaplens.Run.{ok, stuck}
use heaplens.GoHeap.Parser.Objects
use heaplens.GoHeap.Parser.Loop.{magic}
use heaplens.GoHeap.Pointers.{field_pointers, extract_pointers, extract_pointers_loop}
use heaplens.GoHeap.Parser.Objects.{type_address}
use heaplens.GoHeap.Wire.{int_le, slice, pointer_value, little_endian}
use heaplens.GoHeap.Stream.{
  Input, StreamCallbacks, StreamingParser, new_streaming_parser, no_params,
}
use heaplens.GoHeap.Stream.Seek.{seek_to_next_record}
use heaplens.GoHeap.Stream.Seek.Found.{seek_to_next_record_lem}
use heaplens.GoHeap.Stream.Records.{read_type, read_object}
use heaplens.GoHeap.Stream.Loop.{parse_stream}
use heaplens.GoHeap.Stream.Termination.{parse_stream-ne-stuck}
use heaplens.GoHeap.Stream.Quiet.{CountsErrors}
use heaplens.GoHeap.Stream.Budget.{Budgeted, parse_stream-Budgeted}
use heaplens.GoHeap.Stream.Items.{
  Item, params, typ, object, root, put_dump, IsItem, hand, hand_item,
}
use heaplens.GoHeap.Stream.Items.{hand_items}
use heaplens.GoHeap.Stream.Whole.{parse_stream-put_dump}
use heaplens.GoHeap.Stream.Agree.{plain, results, kept_by_stream, kept_by_parser, streams_agree}

-- Callbacks that append the addresses they see, with those of pointers.
abbrev recorder : StreamCallbacks (List ℕ)
recorder = record {
  on_params = none;
  on_type = some (λ addr size name indirect seen. (none, seen ++ addr ∷ []));
  on_object = some (λ addr type_addr bytes ptrs seen. (none, seen ++ (addr ∷ type_addr ∷ ptrs)));
  on_root = some (λ desc ptr seen. (none, seen ++ ptr ∷ []));
  on_goroutine = none;
  on_progress = none;
  on_error = none;
}

parse_stream-ne-stuck_example :
    parse_stream recorder (new_streaming_parser (magic ++ 1 ∷ 255 ∷ []) []) ≢ stuck
parse_stream-ne-stuck_example =
    parse_stream-ne-stuck recorder (new_streaming_parser (magic ++ 1 ∷ 255 ∷ []) [])

-- Two unknown tags, from which the parse recovers.
abbrev broken_input : StreamingParser ℕ
broken_input = record {
  input = record { left = magic ++ 99 ∷ 1 ∷ 98 ∷ 1 ∷ 0 ∷ []; progress = 0 };
  record_count = 0;
  max_errors = 5;
  error_count = 0;
  skip_on_error = true;
  params = no_params;
  user = 7;
}

-- Callbacks that count the errors, and do nothing else.
abbrev error_counter : StreamCallbacks ℕ
error_counter = record {
  on_params = none;
  on_type = none;
  on_object = none;
  on_root = none;
  on_goroutine = none;
  on_progress = none;
  on_error = some (λ e skip seen. (none, seen + 1));
}

error_counter-CountsErrors : CountsErrors (λ seen. seen) error_counter
error_counter-CountsErrors = record {
  on_params = λ q. tt;
  on_type = λ addr size name indirect. tt;
  on_object = λ addr type_addr bytes ptrs. tt;
  on_root = λ desc ptr. tt;
  on_goroutine = λ id status wait_reason. tt;
  on_progress = tt;
  on_error = λ e skip seen. refl;
}

parse_stream-Budgeted_example :
    Budgeted (λ seen. seen) 7 5 true (parse_stream error_counter broken_input)
parse_stream-Budgeted_example =
    parse_stream-Budgeted (λ seen. seen) error_counter broken_input error_counter-CountsErrors refl

seek_to_next_record_lem_example : seek_to_next_record (200 ∷ 99 ∷ 3 ∷ 7 ∷ 1 ∷ []) ≡ 7 ∷ 1 ∷ []
seek_to_next_record_lem_example =
    seek_to_next_record_lem (200 ∷ 99 ∷ []) 3 7 (1 ∷ []) (omega arith) (omega arith) (omega arith)

abbrev items : List Item
items =
    params (record {
      big_endian = false;
      pointer_size = 8;
      heap_start = 0;
      heap_end = 0;
      arch = b'a' ∷ [];
      go_version = [];
      num_cpus = 1;
    })
    ∷ typ (record { address = 7; size = 16; name = b'T' ∷ []; indirect = true })
    ∷ object 300 (7 ∷ 0 ∷ 0 ∷ 0 ∷ 0 ∷ 0 ∷ 0 ∷ 0 ∷ 32 ∷ 0 ∷ 0 ∷ 0 ∷ 0 ∷ 0 ∷ 0 ∷ 0 ∷ [])
        (record { kind = 1; offset = 8 } ∷ [])
    ∷ root (b'r' ∷ []) 300
    ∷ []

nonzero : ◌≢◌ {A = ℕ} 1 0
nonzero e = cc

items-IsItem : All IsItem items
items-IsItem = (
  record {
    pointer_size = omega arith;
    heap_start = omega arith;
    heap_end = omega arith;
    arch = omega arith;
    go_version = omega arith;
    num_cpus = omega arith;
  },
  (
    record { address = omega arith; size = omega arith; name = omega arith },
    (
      (
        omega arith,
        omega arith,
        (record { nonzero = nonzero; kind = omega arith; offset = omega arith }, tt),
      ),
      ((omega arith, omega arith), tt),
    ),
  ),
)

items_handed : hand_items recorder no_params items [] ≡ some (7 ∷ 300 ∷ 7 ∷ 32 ∷ 300 ∷ [])
unfolding hand_items hand_item hand type_address extract_pointers extract_pointers_loop
    field_pointers int_le slice pointer_value little_endian
items_handed = refl

parse_stream-put_dump_example :
    (q : StreamingParser (List ℕ)) × (parse_stream recorder
        (new_streaming_parser (put_dump items ++ 5 ∷ []) [])
      ≡ ok tt q)
    × (q.user ≡ 7 ∷ 300 ∷ 7 ∷ 32 ∷ 300 ∷ [])
    × (q.input.left ≡ 5 ∷ [])
    × (q.error_count ≡ 0)
    × (q.record_count ≡ 5)
parse_stream-put_dump_example =
    parse_stream-put_dump recorder items (5 ∷ []) [] (7 ∷ 300 ∷ 7 ∷ 32 ∷ 300 ∷ []) items-IsItem refl
      items_handed

abbrev cut : Input
cut = record { left = 300 ∷ 2 ∷ 1 ∷ []; progress = 16 }

streams_agree_example :
    (plain (read_type cut) ≡ Objects.read_type cut.left)
    × (results kept_by_stream (plain (read_object 8 false cut))
        ≡ results kept_by_parser (Objects.read_object 8 false cut.left))
streams_agree_example = streams_agree 8 false cut (omega arith)
