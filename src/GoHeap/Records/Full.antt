-- ===== src/GoHeap/Records/Full.antt =====
-- heapdump/goheap/records.go: a complete record of any kind, written and read back.
use heaplens.Base.{ℕ, ◌≡◌, List, ◌++◌}
use heaplens.Run.{ok}
use heaplens.GoHeap.Records.{Finalizer, Itab, StackFrame, OsThread, MemProfRecord, DataSegment}
use heaplens.GoHeap.Records.{DeferRecord, PanicRecord, GoroutineFull, MemStatsFull, AllocSample}
use heaplens.GoHeap.Records.Parsers.{parse_stack_frame_full, parse_data_segment_full}
use heaplens.GoHeap.Records.Parsers.{parse_mem_prof_full, parse_goroutine_full}
use heaplens.GoHeap.Records.Parsers.{parse_mem_stats_full, parse_finalizer_full, parse_itab_full}
use heaplens.GoHeap.Records.Parsers.{parse_os_thread_full, parse_defer_full, parse_panic_full}
use heaplens.GoHeap.Records.Parsers.{parse_alloc_sample_full}
use heaplens.GoHeap.Records.Encode.{put_stack_frame, put_data_segment, put_mem_prof, put_goroutine}
use heaplens.GoHeap.Records.Encode.{put_mem_stats, put_finalizer, put_itab, put_os_thread}
use heaplens.GoHeap.Records.Encode.{put_defer, put_panic, put_alloc_sample}
use heaplens.GoHeap.Records.Encode.{IsStackFrame, IsDataSegment, IsMemProfRecord, IsGoroutine}
use heaplens.GoHeap.Records.Encode.{IsMemStats, IsFinalizer, IsItab, IsOsThread, IsDeferRecord}
use heaplens.GoHeap.Records.Encode.{IsPanicRecord, IsAllocSample}
use heaplens.GoHeap.Records.RoundTrip

-- Memory statistics come with the 49 numbers that the reader skips.
pub data FullRecord : Type 0 where
  finalizer : Finalizer → FullRecord
  itab : Itab → FullRecord
  stack_frame : StackFrame → FullRecord
  os_thread : OsThread → FullRecord
  mem_prof : MemProfRecord → FullRecord
  data_segment : DataSegment → FullRecord
  deferred : DeferRecord → FullRecord
  panicking : PanicRecord → FullRecord
  goroutine : GoroutineFull → FullRecord
  mem_stats : MemStatsFull → List ℕ → FullRecord
  alloc_sample : AllocSample → FullRecord

-- Numbers fit their words, texts and contents are within the reader's limits, and a list of pointer
-- fields has no field of the kind that ends it.
abbrev pub IsWritable : FullRecord → Type 0
IsWritable (finalizer f) = IsFinalizer f
IsWritable (itab i) = IsItab i
IsWritable (stack_frame f) = IsStackFrame f
IsWritable (os_thread t) = IsOsThread t
IsWritable (mem_prof m) = IsMemProfRecord m
IsWritable (data_segment d) = IsDataSegment d
IsWritable (deferred d) = IsDeferRecord d
IsWritable (panicking p) = IsPanicRecord p
IsWritable (goroutine g) = IsGoroutine g
IsWritable (mem_stats m others) = IsMemStats m others
IsWritable (alloc_sample a) = IsAllocSample a

-- The parser of its kind reads the record back, and leaves `rest`.
abbrev pub ReadsBack : FullRecord → List ℕ → Type 0
ReadsBack (finalizer f) rest = parse_finalizer_full (put_finalizer f ++ rest) ≡ ok f rest
ReadsBack (itab i) rest = parse_itab_full (put_itab i ++ rest) ≡ ok i rest
ReadsBack (stack_frame f) rest = parse_stack_frame_full (put_stack_frame f ++ rest) ≡ ok f rest
ReadsBack (os_thread t) rest = parse_os_thread_full (put_os_thread t ++ rest) ≡ ok t rest
ReadsBack (mem_prof m) rest = parse_mem_prof_full (put_mem_prof m ++ rest) ≡ ok m rest
ReadsBack (data_segment d) rest = parse_data_segment_full (put_data_segment d ++ rest) ≡ ok d rest
ReadsBack (deferred d) rest = parse_defer_full (put_defer d ++ rest) ≡ ok d rest
ReadsBack (panicking p) rest = parse_panic_full (put_panic p ++ rest) ≡ ok p rest
ReadsBack (goroutine g) rest = parse_goroutine_full (put_goroutine g ++ rest) ≡ ok g rest
ReadsBack (mem_stats m others) rest =
    parse_mem_stats_full (put_mem_stats m others ++ rest) ≡ ok m rest
ReadsBack (alloc_sample a) rest = parse_alloc_sample_full (put_alloc_sample a ++ rest) ≡ ok a rest

-- A record of any of the eleven kinds that was written, field by field as records.go lays it out and
-- within its limits, is read back whole by the parser of its kind, its flags, texts, contents, pointer
-- fields and stack included, and the parser stops where the record ends, whatever follows. Memory
-- statistics are the 61 numbers that records.go takes them to be, not the 281 of the format document:
-- the twelve fields that are kept are read back, and the 49 numbers behind them are skipped, whatever
-- they are.
pub full-ReadsBack : (r : FullRecord) (rest : List ℕ) → IsWritable r → ReadsBack r rest
full-ReadsBack (finalizer f) rest h = (RoundTrip.Reads-finalizer f h).at rest
full-ReadsBack (itab i) rest h = (RoundTrip.Reads-itab i h).at rest
full-ReadsBack (stack_frame f) rest h = (RoundTrip.Reads-stack_frame f h).at rest
full-ReadsBack (os_thread t) rest h = (RoundTrip.Reads-os_thread t h).at rest
full-ReadsBack (mem_prof m) rest h = (RoundTrip.Reads-mem_prof m h).at rest
full-ReadsBack (data_segment d) rest h = (RoundTrip.Reads-data_segment d h).at rest
full-ReadsBack (deferred d) rest h = (RoundTrip.Reads-defer d h).at rest
full-ReadsBack (panicking p) rest h = (RoundTrip.Reads-panic p h).at rest
full-ReadsBack (goroutine g) rest h = (RoundTrip.Reads-goroutine g h).at rest
full-ReadsBack (mem_stats m others) rest h = (RoundTrip.Reads-mem_stats m others h).at rest
full-ReadsBack (alloc_sample a) rest h = (RoundTrip.Reads-alloc_sample a h).at rest
