-- ===== src/GoHeap/Parser/Items.antt =====
-- A dump as a list of records: the bytes that it is written as.
use heaplens.Base.{ℕ, ◌≤◌, ◌<◌, arith, List, [], ◌∷◌, ◌++◌, length, length-append}
use heaplens.GoHeap.Records.RoundTrip.{length-put_varint}
use heaplens.GoHeap.Wire.Encode.{put_varint}
use heaplens.GoHeap.Records.{Finalizer, Itab, StackFrame, OsThread, MemProfRecord, DataSegment}
use heaplens.GoHeap.Records.Encode.{put_finalizer, put_itab, put_stack_frame, put_os_thread}
use heaplens.GoHeap.Records.Encode.{put_mem_prof, put_data_segment, IsFinalizer, IsItab}
use heaplens.GoHeap.Records.Encode.{IsStackFrame, IsOsThread, IsMemProfRecord, IsDataSegment}
use heaplens.GoHeap.Parser.Loop.{magic, tag_eof, tag_stack_frame, tag_finalizer, tag_itab}
use heaplens.GoHeap.Parser.Loop.{tag_os_thread, tag_queued_finalizer, tag_data, tag_bss}
use heaplens.GoHeap.Parser.Loop.{tag_mem_prof}
use heaplens.GoHeap.Stream.Items

-- The records that the streaming parser hands to callbacks, then others.
pub data DumpRecord : Type 0 where
  common : Items.Item → DumpRecord
  frame : StackFrame → DumpRecord
  itab : Itab → DumpRecord
  finalizer queued_finalizer : Finalizer → DumpRecord
  data_segment bss_segment : DataSegment → DumpRecord
  os_thread : OsThread → DumpRecord
  mem_prof : MemProfRecord → DumpRecord

abbrev pub tag_of : DumpRecord → ℕ
tag_of (common i) = Items.item_tag i
tag_of (frame f) = tag_stack_frame
tag_of (itab i) = tag_itab
tag_of (finalizer f) = tag_finalizer
tag_of (queued_finalizer f) = tag_queued_finalizer
tag_of (data_segment d) = tag_data
tag_of (bss_segment d) = tag_bss
tag_of (os_thread t) = tag_os_thread
tag_of (mem_prof m) = tag_mem_prof

abbrev pub put_record : DumpRecord → List ℕ
put_record (common i) = Items.put_body i
put_record (frame f) = put_stack_frame f
put_record (itab i) = put_itab i
put_record (finalizer f) = put_finalizer f
put_record (queued_finalizer f) = put_finalizer f
put_record (data_segment d) = put_data_segment d
put_record (bss_segment d) = put_data_segment d
put_record (os_thread t) = put_os_thread t
put_record (mem_prof m) = put_mem_prof m

abbrev pub IsRecord : DumpRecord → Type 0
IsRecord (common i) = Items.IsItem i
IsRecord (frame f) = IsStackFrame f
IsRecord (itab i) = IsItab i
IsRecord (finalizer f) = IsFinalizer f
IsRecord (queued_finalizer f) = IsFinalizer f
IsRecord (data_segment d) = IsDataSegment d
IsRecord (bss_segment d) = IsDataSegment d
IsRecord (os_thread t) = IsOsThread t
IsRecord (mem_prof m) = IsMemProfRecord m

unfoldable pub put_records : List DumpRecord → List ℕ
put_records [] = []
put_records (r ∷ rs) = put_varint (tag_of r) ++ (put_record r ++ put_records rs)

unfoldable pub put_dump : List DumpRecord → List ℕ
put_dump rs = magic ++ (put_records rs ++ put_varint tag_eof)

common_range : (i : Items.Item) → (1 ≤ Items.item_tag i) × (Items.item_tag i < 18)
common_range (Items.params q) = omega arith
common_range (Items.typ t) = omega arith
common_range (Items.object addr bytes fields) = omega arith
common_range (Items.root desc ptr) = omega arith
common_range (Items.goroutine g) = omega arith

-- The tag of a record is a small number other than that of the end.
pub tag_of_range : (r : DumpRecord) → (1 ≤ tag_of r) × (tag_of r < 18)
tag_of_range (common i) = common_range i
tag_of_range (frame f) = omega arith
tag_of_range (itab i) = omega arith
tag_of_range (finalizer f) = omega arith
tag_of_range (queued_finalizer f) = omega arith
tag_of_range (data_segment d) = omega arith
tag_of_range (bss_segment d) = omega arith
tag_of_range (os_thread t) = omega arith
tag_of_range (mem_prof m) = omega arith

pub length-put_records : (rs : List DumpRecord) → length rs ≤ length (put_records rs)
unfolding put_records
length-put_records [] = omega arith
length-put_records (r ∷ rs) =
    rw (length-append, length-append)
      (omega (arith, length-put_varint (tag_of r), length-put_records rs))
