-- ===== src/Spikes/HeapParser/Items.antt =====
-- spikes/goformat/heap_parser.go: a dump as a list of records, the bytes that it is written as, and what
-- the prototype is to keep of it.
use heaplens.Base.{ℕ, List, [], ◌∷◌, ◌++◌, some, length}
use heaplens.Base.Dict.{insert}
use heaplens.GoHeap.Wire.{IsU64}
use heaplens.GoHeap.Wire.Encode.{put_varint}
use heaplens.GoHeap.Records.Encode.{put_chunks}
use heaplens.GoHeap.Parser.Loop.{magic, tag_eof, tag_mem_stats}
use heaplens.GoHeap.Parser.Items.{DumpRecord, common, frame, itab, finalizer, queued_finalizer}
use heaplens.GoHeap.Parser.Items.{data_segment, bss_segment, os_thread, mem_prof, tag_of}
use heaplens.GoHeap.Parser.Items.{put_record, IsRecord}
use heaplens.GoHeap.Stream.Items
use heaplens.Spikes.HeapParser.{HeapDump, MemStats}

-- A record, or memory statistics of eight numbers.
pub data Item : Type 0 where
  plain : DumpRecord → Item
  stats : MemStats → Item

abbrev pub item_tag : Item → ℕ
item_tag (plain r) = tag_of r
item_tag (stats m) = tag_mem_stats

-- Eight numbers, as many as the prototype reads.
unfoldable pub put_stats : MemStats → List ℕ
put_stats m = put_chunks (
    put_varint m.alloc
    ∷ put_varint m.total_alloc
    ∷ put_varint m.sys
    ∷ put_varint m.n_lookup
    ∷ put_varint m.n_malloc
    ∷ put_varint m.n_free
    ∷ put_varint m.heap_alloc
    ∷ put_varint m.heap_sys
    ∷ [])

pub record IsStats (m : MemStats) : Type 0 where
  pub alloc : IsU64 m.alloc
  pub total_alloc : IsU64 m.total_alloc
  pub sys : IsU64 m.sys
  pub n_lookup : IsU64 m.n_lookup
  pub n_malloc : IsU64 m.n_malloc
  pub n_free : IsU64 m.n_free
  pub heap_alloc : IsU64 m.heap_alloc
  pub heap_sys : IsU64 m.heap_sys

abbrev pub put_body : Item → List ℕ
put_body (plain r) = put_record r
put_body (stats m) = put_stats m

unfoldable pub put_records : List Item → List ℕ
put_records [] = []
put_records (item ∷ items) = put_varint (item_tag item) ++ (put_body item ++ put_records items)

unfoldable pub put_dump : List Item → List ℕ
put_dump items = magic ++ (put_records items ++ put_varint tag_eof)

abbrev pub IsItem : Item → Type 0
IsItem (plain r) = IsRecord r
IsItem (stats m) = IsStats m

-- Parameters are replaced, a type or an object takes the place of one at its address, and the rest is
-- added at the end of its list.
abbrev pub keep_common : Items.Item → HeapDump → HeapDump
keep_common (Items.params q) d = record d {
  big_endian = q.big_endian;
  pointer_size = q.pointer_size;
  heap_start = q.heap_start;
  heap_end = q.heap_end;
  architecture = q.arch;
  go_version = q.go_version;
  num_cpus = q.num_cpus;
}
keep_common (Items.typ t) d = record d { types = insert t.address t d.types }
keep_common (Items.object addr bytes fields) d = record d {
  objects =
      insert addr
        (record {
          address = addr;
          size = length bytes;
          type_addr = 0;
          bytes = bytes;
          fields = fields;
        })
        d.objects;
}
keep_common (Items.root desc ptr) d = record d {
  roots = d.roots ++ record { description = desc; pointer = ptr } ∷ [];
}
keep_common (Items.goroutine g) d = record d {
  goroutines =
      d.goroutines
      ++ record {
        address = g.address;
        stack_pointer = g.stack_top;
        id = g.id;
        status = g.status;
        is_system = g.is_system;
        is_background = g.is_background;
        wait_since = g.wait_since;
        wait_reason = g.wait_reason;
      }
        ∷ [];
}

-- Interface tables, finalizers, segments, threads and profiles leave
-- no trace, nor do the pointer fields of a frame.
abbrev pub keep_record : DumpRecord → HeapDump → HeapDump
keep_record (common i) d = keep_common i d
keep_record (frame f) d = record d {
  stack_frames =
      d.stack_frames
      ++ record {
        sp = f.sp;
        depth = f.depth;
        child_sp = f.child_sp;
        bytes = f.bytes;
        entry_pc = f.entry_pc;
        pc = f.pc;
        cont_pc = f.cont_pc;
        name = f.name;
      }
        ∷ [];
}
keep_record (itab i) d = d
keep_record (finalizer f) d = d
keep_record (queued_finalizer f) d = d
keep_record (data_segment s) d = d
keep_record (bss_segment s) d = d
keep_record (os_thread t) d = d
keep_record (mem_prof m) d = d

-- The last memory statistics count.
abbrev pub keep : Item → HeapDump → HeapDump
keep (plain r) d = keep_record r d
keep (stats m) d = record d { mem_stats = some m }

unfoldable pub keep_all : List Item → HeapDump → HeapDump
keep_all [] d = d
keep_all (item ∷ items) d = keep_all items (keep item d)
