-- ===== src/Spikes/HeapParser/Runs.antt =====
-- spikes/goformat/heap_parser.go: the methods of the parser on a record that was written.
use heaplens.Base.{ℕ, ◌<◌, ◌≡◌, ◌≤◌, refl, arith, List, ◌++◌, append_assoc, append-nil}
use heaplens.Base.{not, ◌==◌}
use heaplens.Run.{ok, ◌>>=◌, ◌>>◌}
use mathlib.Core.Path.{subst}
use heaplens.GoHeap.Wire.{Context, Reader}
use heaplens.GoHeap.Wire.RoundTrip.{Reads, Reads-varint, Reads-string}
use heaplens.GoHeap.Records.RoundTrip.{bool_word, word_IsU64, word}
use heaplens.GoHeap.Parser.{wrapping}
use heaplens.GoHeap.Parser.Loop.{record_case}
use heaplens.GoHeap.Stream.{DumpParams}
use heaplens.GoHeap.Stream.Items.{IsParams, put_params}
use heaplens.GoHeap.Stream.Items
use heaplens.Spikes.HeapParser.{HeapDump, Parse, reading, edit}
use heaplens.Spikes.HeapParser.Records.{parse_params, parse_type, parse_object, parse_other_root}
use heaplens.Spikes.HeapParser.Records.{parse_goroutine, parse_stack_frame, parse_mem_stats}
use heaplens.Spikes.HeapParser.Records.{add_type, add_object, add_root, add_goroutine, add_frame}
use heaplens.Spikes.HeapParser.Records.{set_mem_stats}
use heaplens.Spikes.HeapParser.Loop.{parse_case, parse_record}
use heaplens.Spikes.HeapParser.Items.{Item, plain, stats, item_tag, put_body, IsItem}
use heaplens.Spikes.HeapParser.Items.{keep_common, keep_record, keep}
use heaplens.GoHeap.Parser.Items.{DumpRecord, common, frame, itab, finalizer, queued_finalizer}
use heaplens.GoHeap.Parser.Items.{data_segment, bss_segment, os_thread, mem_prof, tag_of}
use heaplens.GoHeap.Parser.Items.{put_record, IsRecord, tag_of_range}
use heaplens.Spikes.HeapParser.Reads

-- From the dump `d`, `m` takes `bytes` off the front of any input that begins with them, and leaves the
-- dump as `d'`.
pub record Runs (d : HeapDump) (bytes : List ℕ) (m : Parse (Unit {0})) (d' : HeapDump)
    : Type 0 where
  pub at :
      (rest : List ℕ)
      → m (record { r = bytes ++ rest; dump = d }) ≡ ok tt (record { r = rest; dump = d' })

module _ {B : Type 0} {m : Reader B} {bytes : List ℕ} {b : B} where
  -- A value that is read and then kept in the dump.
  Runs-kept :
      (d : HeapDump) (f : B → HeapDump → HeapDump)
      → Reads m bytes b
      → Runs d bytes (reading m >>= λ b. edit (f b)) (f b d)
  unfolding ◌>>=◌ reading edit
  Runs-kept d f h = record { at = λ rest. rw (h.at rest) refl }

  Runs-field :
      {ys : List ℕ} {d d' : HeapDump} (f : B → HeapDump → HeapDump) (k : Parse (Unit {0}))
      → Reads m bytes b
      → Runs (f b d) ys k d'
      → Runs d (bytes ++ ys) (reading m >>= λ b. edit (f b) >> k) d'
  unfolding ◌>>=◌ reading edit
  Runs-field {ys} f k h hk = record {
    at = λ rest. rw (append_assoc bytes ys rest, h.at (ys ++ rest)) (hk.at rest);
  }

Runs-skipped :
    (d : HeapDump) (m : Reader (Unit {0})) (bytes : List ℕ)
    → Reads m bytes tt
    → Runs d bytes (reading m) d
unfolding reading
Runs-skipped d m bytes h = record { at = λ rest. rw (h.at rest) refl }

Runs-wrapping :
    (c : Context) (d d' : HeapDump) (bytes : List ℕ) (m : Parse (Unit {0}))
    → Runs d bytes m d'
    → Runs d bytes (wrapping c m) d'
unfolding wrapping
Runs-wrapping c d d' bytes m h = record { at = λ rest. rw (h.at rest) refl }

Runs-decoded_params :
    (d : HeapDump) (q : DumpParams)
    → IsParams q
    → Runs d
        (put_params q)
        parse_params
        (keep_common (Items.params (record q { big_endian = not (word q.big_endian == 0) })) d)
unfolding parse_params put_params
Runs-decoded_params d q h = Runs-field _ _ (Reads-varint _ (word_IsU64 q.big_endian)) (
    Runs-field _ _ (Reads-varint _ h.pointer_size) (
      Runs-field _ _ (Reads-varint _ h.heap_start) (
        Runs-field _ _ (Reads-varint _ h.heap_end) (
          Runs-field _ _ (Reads-string _ h.arch) (
            Runs-field _ _ (Reads-string _ h.go_version)
              (rw append-nil (Runs-kept _ _ (Reads-varint _ h.num_cpus))))))))

Runs-params :
    (d : HeapDump) (q : DumpParams)
    → IsParams q
    → Runs d (put_params q) parse_params (keep_common (Items.params q) d)
Runs-params d q h =
    subst
      (λ b.
        Runs d (put_params q) parse_params
          (keep_common (Items.params (record q { big_endian = b })) d))
      (bool_word q.big_endian) (Runs-decoded_params d q h)

Runs-common :
    (d : HeapDump) (i : Items.Item)
    → Items.IsItem i
    → Runs d (Items.put_body i) (parse_record (Items.item_tag i)) (keep_common i d)
unfolding parse_record record_case parse_case parse_type parse_object parse_other_root
    parse_goroutine add_type add_object add_root add_goroutine
Runs-common d (Items.params q) h = Runs-wrapping _ _ _ _ _ (Runs-params d q h)
Runs-common d (Items.typ t) h = Runs-wrapping _ _ _ _ _ (Runs-kept d _ (Reads.Reads-type t h))
Runs-common d (Items.object addr bytes fields) (ha, hb, hf) =
    Runs-wrapping _ _ _ _ _ (Runs-kept d _ (Reads.Reads-object addr bytes fields ha hb hf))
Runs-common d (Items.root desc ptr) (hd, hp) =
    Runs-wrapping _ _ _ _ _ (Runs-kept d _ (Reads.Reads-root desc ptr hd hp))
Runs-common d (Items.goroutine g) h =
    Runs-wrapping _ _ _ _ _ (Runs-kept d _ (Reads.Reads-goroutine g h))

Runs-record :
    (d : HeapDump) (r : DumpRecord)
    → IsRecord r
    → Runs d (put_record r) (parse_record (tag_of r)) (keep_record r d)
unfolding parse_record record_case parse_case parse_stack_frame add_frame
Runs-record d (common i) h = Runs-common d i h
Runs-record d (frame f) h = Runs-wrapping _ _ _ _ _ (Runs-kept d _ (Reads.Reads-frame f h))
Runs-record d (itab i) h = Runs-wrapping _ _ _ _ _ (Runs-skipped d _ _ (Reads.Reads-itab i h))
Runs-record d (finalizer f) h =
    Runs-wrapping _ _ _ _ _ (Runs-skipped d _ _ (Reads.Reads-finalizer f h))
Runs-record d (queued_finalizer f) h =
    Runs-wrapping _ _ _ _ _ (Runs-skipped d _ _ (Reads.Reads-finalizer f h))
Runs-record d (data_segment s) h =
    Runs-wrapping _ _ _ _ _ (Runs-skipped d _ _ (Reads.Reads-data_segment s h))
Runs-record d (bss_segment s) h =
    Runs-wrapping _ _ _ _ _ (Runs-skipped d _ _ (Reads.Reads-data_segment s h))
Runs-record d (os_thread t) h =
    Runs-wrapping _ _ _ _ _ (Runs-skipped d _ _ (Reads.Reads-os_thread t h))
Runs-record d (mem_prof m) h =
    Runs-wrapping _ _ _ _ _ (Runs-skipped d _ _ (Reads.Reads-mem_prof m h))

pub Runs-item :
    (d : HeapDump) (item : Item)
    → IsItem item
    → Runs d (put_body item) (parse_record (item_tag item)) (keep item d)
Runs-item d (plain r) h = Runs-record d r h
Runs-item d (stats m) h =
    unfold parse_record record_case parse_case parse_mem_stats set_mem_stats in
    Runs-wrapping _ _ _ _ _ (Runs-kept d _ (Reads.Reads-stats m h))

pub small_tag : (item : Item) → (1 ≤ item_tag item) × (item_tag item < 18)
small_tag (plain r) = tag_of_range r
small_tag (stats m) = omega arith
