-- ===== src/GoHeap/Examples.antt =====
-- heapdump/goheap: runs on concrete dumps, and the theorems at concrete inputs.
use heaplens.Base.{ℕ, ◌≡◌, ◌↔◌, inr, refl, arith, List, [], ◌∷◌, ◌++◌, true, false}
use heaplens.Base.{none, some}
use heaplens.Run.{ok}
use heaplens.GoHeap.Wire.{read_varint}
use heaplens.GoHeap.Wire.{int_le, slice}
use heaplens.GoHeap.Wire.Encode.{put_varint}
use heaplens.GoHeap.Wire.RoundTrip.{read_varint-put_varint}
use heaplens.GoHeap.Records.{Finalizer, Itab, PointerField, StackFrame, OsThread}
use heaplens.GoHeap.Records.{MemProfRecord, DataSegment, DeferRecord, PanicRecord, GoroutineFull}
use heaplens.GoHeap.Records.{MemStatsFull, AllocSample}
use heaplens.GoHeap.Records.Full
use heaplens.GoHeap.Wire.Encode.{put_big}
use heaplens.GoHeap.Pointers.{field_pointers, extract_pointers_loop, extract_pointers}
use heaplens.GoHeap.Pointers.Words.{AreWords, put_word, extract_pointers_words}
use heaplens.GoHeap.Pointers.Faults.{HasFault, extract_pointers-panics}

read_varint-put_varint_example : read_varint (put_varint 300 ++ 9 ∷ []) ≡ ok 300 (9 ∷ [])
read_varint-put_varint_example = read_varint-put_varint 300 (9 ∷ []) (omega arith)

abbrev two_fields : List PointerField
two_fields = record { kind = 1; offset = 8 } ∷ record { kind = 2; offset = 300 } ∷ []

abbrev frame : StackFrame
frame = record {
  sp = 1000;
  depth = 0;
  child_sp = 0;
  bytes = 1 ∷ 2 ∷ 3 ∷ [];
  entry_pc = 4096;
  pc = 4100;
  cont_pc = 4104;
  name = b'f' ∷ [];
  pointers = two_fields;
}

abbrev segment : DataSegment
segment = record { address = 500; bytes = 9 ∷ []; pointers = two_fields }

abbrev profile : MemProfRecord
profile = record {
  bucket_id = 1;
  size = 64;
  allocs = 3;
  frees = 2;
  stack = record { function = b'f' ∷ []; file = b'a' ∷ []; line = 12 } ∷ [];
}

abbrev sleeper : GoroutineFull
sleeper = record {
  address = 4096;
  stack_top = 8192;
  id = 1;
  status = 4;
  is_system = false;
  is_background = true;
  wait_since = 0;
  wait_reason = b'z' ∷ [];
  ctxt_addr = 0;
  m_addr = 0;
  defer_addr = 0;
  panic_addr = 0;
}

abbrev zeros : ℕ → List ℕ
zeros Prim.Native.Nat.zero = []
zeros (Prim.Native.Nat.suc n) = 0 ∷ zeros n

abbrev statistics : MemStatsFull
statistics = record {
  alloc = 1000;
  total_alloc = 2000;
  sys = 0;
  lookups = 0;
  mallocs = 40;
  frees = 20;
  heap_alloc = 0;
  heap_sys = 0;
  heap_idle = 0;
  heap_inuse = 0;
  heap_released = 0;
  heap_objects = 20;
}

abbrev finalizer : Finalizer
finalizer = record { object = 16; function = 2; func_val = 3; func_type = 4; obj_type = 500 }

abbrev itab : Itab
itab = record { interface = 300; typ = 5 }

abbrev thread : OsThread
thread = record { id = 1; os_thread_id = 2; go_id = 3 }

abbrev deferred : DeferRecord
deferred = record { address = 1; gp = 2; argp = 3; pc = 4; fn = 5; fn_entry = 6; link = 700 }

abbrev panicking : PanicRecord
panicking = record { address = 1; gp = 2; typ = 3; bytes = 4; defer = 5; link = 600 }

abbrev sample : AllocSample
sample = record { address = 1; profile = 2; size = 300; num_alloc = 4; num_free = 5 }

full-ReadsBack_example :
    Full.ReadsBack (Full.stack_frame frame) (7 ∷ [])
    × Full.ReadsBack (Full.data_segment segment) (7 ∷ [])
    × Full.ReadsBack (Full.mem_prof profile) (7 ∷ [])
    × Full.ReadsBack (Full.goroutine sleeper) (7 ∷ [])
    × Full.ReadsBack (Full.mem_stats statistics (zeros 49)) (7 ∷ [])
    × Full.ReadsBack (Full.finalizer finalizer) (7 ∷ [])
    × Full.ReadsBack (Full.itab itab) (7 ∷ [])
    × Full.ReadsBack (Full.os_thread thread) (7 ∷ [])
    × Full.ReadsBack (Full.deferred deferred) (7 ∷ [])
    × Full.ReadsBack (Full.panicking panicking) (7 ∷ [])
    × Full.ReadsBack (Full.alloc_sample sample) (7 ∷ [])
full-ReadsBack_example = (
  Full.full-ReadsBack (Full.stack_frame frame) (7 ∷ []) (omega arith),
  Full.full-ReadsBack (Full.data_segment segment) (7 ∷ []) (omega arith),
  Full.full-ReadsBack (Full.mem_prof profile) (7 ∷ []) (omega arith),
  Full.full-ReadsBack (Full.goroutine sleeper) (7 ∷ []) (omega arith),
  Full.full-ReadsBack (Full.mem_stats statistics (zeros 49)) (7 ∷ []) (omega arith),
  Full.full-ReadsBack (Full.finalizer finalizer) (7 ∷ []) (omega arith),
  Full.full-ReadsBack (Full.itab itab) (7 ∷ []) (omega arith),
  Full.full-ReadsBack (Full.os_thread thread) (7 ∷ []) (omega arith),
  Full.full-ReadsBack (Full.deferred deferred) (7 ∷ []) (omega arith),
  Full.full-ReadsBack (Full.panicking panicking) (7 ∷ []) (omega arith),
  Full.full-ReadsBack (Full.alloc_sample sample) (7 ∷ []) (omega arith),
)

-- Contents of 16 bytes with two words, the second null, and a field of another kind.
abbrev contents : List ℕ
contents = 0 ∷ 0 ∷ 0 ∷ 0 ∷ 0 ∷ 0 ∷ 1 ∷ 44 ∷ 0 ∷ 0 ∷ 0 ∷ 0 ∷ 0 ∷ 0 ∷ 0 ∷ 0 ∷ []

abbrev two_pointers : List PointerField
two_pointers = record { kind = 1; offset = 0 } ∷ record { kind = 1; offset = 8 } ∷ []

two_words : AreWords contents 8 true two_pointers (300 ∷ 0 ∷ [])
unfolding put_word put_big
two_words = (
  record {
    kind = refl;
    range = omega arith;
    front = [];
    back = 0 ∷ 0 ∷ 0 ∷ 0 ∷ 0 ∷ 0 ∷ 0 ∷ 0 ∷ [];
    offset = refl;
    layout = refl;
  },
  (
    record {
      kind = refl;
      range = omega arith;
      front = 0 ∷ 0 ∷ 0 ∷ 0 ∷ 0 ∷ 0 ∷ 1 ∷ 44 ∷ [];
      back = [];
      offset = refl;
      layout = refl;
    },
    tt,
  ),
)

extract_pointers_words_example : extract_pointers contents two_pointers 8 true ≡ some (300 ∷ [])
extract_pointers_words_example =
    extract_pointers_words contents two_pointers 8 true (300 ∷ 0 ∷ []) (inr refl) (omega arith)
      two_words

-- An offset just below 2^64, whose word seems to end inside the contents.
abbrev far_field : List PointerField
far_field = record { kind = 1; offset = 0xffff_ffff_ffff_fffc } ∷ []

extract_pointers-panics_example :
    (extract_pointers contents far_field 8 true ≡ none) ↔ HasFault 16 8 far_field
extract_pointers-panics_example =
    extract_pointers-panics contents far_field 8 true (omega arith) (omega arith) (omega arith)
      (omega arith)

extract_pointers-far : extract_pointers contents far_field 8 true ≡ none
unfolding extract_pointers extract_pointers_loop field_pointers int_le slice
extract_pointers-far = refl
