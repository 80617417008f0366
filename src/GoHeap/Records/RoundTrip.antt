-- ===== src/GoHeap/Records/RoundTrip.antt =====
-- Each parser of a complete record gives back the record that was written, and takes no byte of
-- what follows it.
use heaplens.Base.{ℕ, zero, suc, ◌≤◌, ◌<◌, ◌≡◌, refl, arith, List, [], ◌∷◌, ◌++◌, All, length}
use heaplens.Base.{length-append, append_assoc, append-nil}
use heaplens.Base.{Bool, true, false, not, if◌then◌else◌, ◌==◌, ==-false, ltb}
use heaplens.GoHeap.Wire.{IsU64, skip_varints}
use mathlib.Core.Path.{subst}
use heaplens.GoHeap.Wire.RoundTrip.{Reads, Reads-pure, Reads-bind, Reads-varint, Reads-string}
use heaplens.GoHeap.Wire.RoundTrip.{Reads-bytes, Reads-skip}
use heaplens.GoHeap.Wire.Encode.{put_varint, put_varints, put_groups}
use heaplens.GoHeap.Records.{Finalizer, Itab, PointerField, StackFrame, OsThread, MemProfFrame}
use heaplens.GoHeap.Records.{MemProfRecord, DataSegment, DeferRecord, PanicRecord, GoroutineFull}
use heaplens.GoHeap.Records.{MemStatsFull, AllocSample}
use heaplens.GoHeap.Records.Parsers.{parse_finalizer_full, parse_itab_full, parse_stack_frame_full}
use heaplens.GoHeap.Records.Parsers.{parse_os_thread_full, parse_mem_prof_full, parse_panic_full}
use heaplens.GoHeap.Records.Parsers.{parse_data_segment_full, parse_defer_full}
use heaplens.GoHeap.Records.Parsers.{parse_goroutine_full, parse_mem_stats_full}
use heaplens.GoHeap.Records.Parsers.{parse_alloc_sample_full, read_pointer_fields_loop}
use heaplens.GoHeap.Records.Parsers.{read_pointer_fields, read_frames, make_frames, max_frames}
use heaplens.GoHeap.Records.Encode.{put_finalizer, IsFinalizer, put_itab, IsItab}
use heaplens.GoHeap.Records.Encode.{put_pointer_fields, IsPointerField, put_stack_frame}
use heaplens.GoHeap.Records.Encode.{IsStackFrame, put_os_thread, IsOsThread, put_frames}
use heaplens.GoHeap.Records.Encode.{IsMemProfFrame, put_mem_prof, IsMemProfRecord}
use heaplens.GoHeap.Records.Encode.{put_data_segment, IsDataSegment, put_defer, IsDeferRecord}
use heaplens.GoHeap.Records.Encode.{put_panic, IsPanicRecord, put_goroutine, IsGoroutine}
use heaplens.GoHeap.Records.Encode.{put_mem_stats, IsMemStats, put_alloc_sample, IsAllocSample}

length-put_groups : (k v : ℕ) → 1 ≤ length (put_groups k v)
unfolding put_groups
length-put_groups zero v = omega arith
length-put_groups (suc k) v = ground arith

pub length-put_varint : (v : ℕ) → 1 ≤ length (put_varint v)
unfolding put_varint
length-put_varint v = length-put_groups 9 v

-- The list of fields is longer in bytes than in fields, so the rounds suffice.
pub lt-length-put_pointer_fields :
    (ps : List PointerField) → length ps < length (put_pointer_fields ps)
unfolding put_pointer_fields
lt-length-put_pointer_fields [] = rw append-nil (length-put_varint 0)
lt-length-put_pointer_fields (p ∷ ps) =
    rw (length-append, length-append)
      (omega (arith, length-put_varint p.kind, lt-length-put_pointer_fields ps))

Reads-pointer_fields_loop :
    (ps acc : List PointerField) (fuel : ℕ)
    → length ps < fuel
    → All IsPointerField ps
    → Reads (read_pointer_fields_loop fuel acc) (put_pointer_fields ps) (acc ++ ps)
unfolding read_pointer_fields_loop put_pointer_fields
Reads-pointer_fields_loop ps acc zero h all = absurd (omega arith)
Reads-pointer_fields_loop [] acc (suc fuel) h all =
    Reads-bind _ (Reads-varint 0 (omega arith)) (rw append-nil (Reads-pure acc))
Reads-pointer_fields_loop (p ∷ ps) acc (suc fuel) h (hp, hps) =
    Reads-bind _ (Reads-varint p.kind hp.kind) (
      rw (==-false p.kind 0 hp.nonzero) (
        Reads-bind _ (Reads-varint p.offset hp.offset) (
          rw (← append_assoc acc (p ∷ []) ps)
            (Reads-pointer_fields_loop ps (acc ++ p ∷ []) fuel (omega arith) hps))))

pub Reads-pointer_fields :
    (ps : List PointerField)
    → All IsPointerField ps
    → Reads read_pointer_fields (put_pointer_fields ps) ps
unfolding read_pointer_fields
Reads-pointer_fields ps h = record {
  at = λ rest.
      let enough : length ps < suc (length (put_pointer_fields ps ++ rest)) =
        rw length-append (omega (arith, lt-length-put_pointer_fields ps)) in
      (Reads-pointer_fields_loop ps [] _ enough h).at rest;
}

Reads-frames :
    (fs acc : List MemProfFrame)
    → All IsMemProfFrame fs
    → Reads (read_frames (length fs) acc) (put_frames fs) (acc ++ fs)
unfolding read_frames put_frames
Reads-frames [] acc h = rw append-nil (Reads-pure acc)
Reads-frames (f ∷ fs) acc (hf, hfs) = Reads-bind _ (Reads-string f.function hf.function) (
    Reads-bind _ (Reads-string f.file hf.file) (
      Reads-bind _ (Reads-varint f.line hf.line)
        (rw (← append_assoc acc (f ∷ []) fs) (Reads-frames fs (acc ++ f ∷ []) hfs))))

Reads-make_frames : (n : ℕ) → n ≤ max_frames → Reads (make_frames n) [] tt
unfolding make_frames
Reads-make_frames n h =
    let fits : ltb max_frames n ≡ false = ground arith in rw fits (Reads-pure tt)

ruleset reads = (
  Reads-bind, Reads-pure, Reads-varint, Reads-string, Reads-bytes, Reads-pointer_fields,
  Reads-make_frames,
)

pub Reads-finalizer :
    (f : Finalizer) → IsFinalizer f → Reads parse_finalizer_full (put_finalizer f) f
unfolding parse_finalizer_full put_finalizer
Reads-finalizer f h = search reads depth 20

pub Reads-itab : (i : Itab) → IsItab i → Reads parse_itab_full (put_itab i) i
unfolding parse_itab_full put_itab
Reads-itab i h = search reads depth 20

pub Reads-stack_frame :
    (f : StackFrame) → IsStackFrame f → Reads parse_stack_frame_full (put_stack_frame f) f
unfolding parse_stack_frame_full put_stack_frame
Reads-stack_frame f h = search reads depth 20

pub Reads-os_thread : (t : OsThread) → IsOsThread t → Reads parse_os_thread_full (put_os_thread t) t
unfolding parse_os_thread_full put_os_thread
Reads-os_thread t h = search reads depth 20

pub Reads-mem_prof :
    (m : MemProfRecord) → IsMemProfRecord m → Reads parse_mem_prof_full (put_mem_prof m) m
unfolding parse_mem_prof_full put_mem_prof
Reads-mem_prof m h = Reads-bind _ (Reads-varint m.bucket_id h.bucket_id) (
    Reads-bind _ (Reads-varint m.size h.size) (
      Reads-bind _ (Reads-varint (length m.stack) (omega (arith, h.depth))) (
        Reads-bind _ (Reads-make_frames (length m.stack) h.depth) (
          Reads-bind _ (Reads-frames m.stack [] h.stack) (
            Reads-bind _ (Reads-varint m.allocs h.allocs)
              (Reads-bind _ (Reads-varint m.frees h.frees) (Reads-pure m)))))))

pub Reads-data_segment :
    (d : DataSegment) → IsDataSegment d → Reads parse_data_segment_full (put_data_segment d) d
unfolding parse_data_segment_full put_data_segment
Reads-data_segment d h = search reads depth 20

pub Reads-defer : (d : DeferRecord) → IsDeferRecord d → Reads parse_defer_full (put_defer d) d
unfolding parse_defer_full put_defer
Reads-defer d h = search reads depth 20

pub Reads-panic : (p : PanicRecord) → IsPanicRecord p → Reads parse_panic_full (put_panic p) p
unfolding parse_panic_full put_panic
Reads-panic p h = search reads depth 20

pub Reads-alloc_sample :
    (a : AllocSample) → IsAllocSample a → Reads parse_alloc_sample_full (put_alloc_sample a) a
unfolding parse_alloc_sample_full put_alloc_sample
Reads-alloc_sample a h = search reads depth 20

pub bool_word : (b : Bool) → not ((if b then 1 else 0) == 0) ≡ b
bool_word true = refl
bool_word false = refl

pub word_IsU64 : (b : Bool) → IsU64 (if b then 1 else 0)
word_IsU64 true = omega arith
word_IsU64 false = omega arith

abbrev pub word : Bool → ℕ
word b = if b then 1 else 0

abbrev decoded : GoroutineFull → GoroutineFull
decoded g = record g {
  is_system = not (word g.is_system == 0);
  is_background = not (word g.is_background == 0);
}

decoded_lem : (g : GoroutineFull) → decoded g ≡ g
decoded_lem g = λ i. record g {
  is_system = bool_word g.is_system i;
  is_background = bool_word g.is_background i;
}

Reads-decoded :
    (g : GoroutineFull) → IsGoroutine g → Reads parse_goroutine_full (put_goroutine g) (decoded g)
unfolding parse_goroutine_full put_goroutine
Reads-decoded g h = Reads-bind _ (Reads-varint _ h.address) (
    Reads-bind _ (Reads-varint _ h.stack_top) (
      Reads-bind _ (Reads-varint _ h.id) (
        Reads-bind _ (Reads-varint _ h.status) (
          Reads-bind _ (Reads-varint _ (word_IsU64 g.is_system)) (
            Reads-bind _ (Reads-varint _ (word_IsU64 g.is_background)) (
              Reads-bind _ (Reads-varint _ h.wait_since) (
                Reads-bind _ (Reads-string _ h.wait_reason) (
                  Reads-bind _ (Reads-varint _ h.ctxt_addr) (
                    Reads-bind _ (Reads-varint _ h.m_addr) (
                      Reads-bind _ (Reads-varint _ h.defer_addr) (
                        Reads-bind _ (Reads-varint _ h.panic_addr)
                          (Reads-pure (decoded g)))))))))))))

pub Reads-goroutine :
    (g : GoroutineFull) → IsGoroutine g → Reads parse_goroutine_full (put_goroutine g) g
Reads-goroutine g h =
    subst (Reads parse_goroutine_full (put_goroutine g)) (decoded_lem g) (Reads-decoded g h)

Reads-others :
    (vs : List ℕ) → All IsU64 vs → length vs ≡ 49 → Reads (skip_varints 49) (put_varints vs) tt
Reads-others vs h e = rw e at (Reads-skip vs h)

pub Reads-mem_stats :
    (m : MemStatsFull) (others : List ℕ)
    → IsMemStats m others
    → Reads parse_mem_stats_full (put_mem_stats m others) m
unfolding parse_mem_stats_full put_mem_stats
Reads-mem_stats m others h = Reads-bind _ (Reads-varint _ h.alloc) (
    Reads-bind _ (Reads-varint _ h.total_alloc) (
      Reads-bind _ (Reads-varint _ h.sys) (
        Reads-bind _ (Reads-varint _ h.lookups) (
          Reads-bind _ (Reads-varint _ h.mallocs) (
            Reads-bind _ (Reads-varint _ h.frees) (
              Reads-bind _ (Reads-varint _ h.heap_alloc) (
                Reads-bind _ (Reads-varint _ h.heap_sys) (
                  Reads-bind _ (Reads-varint _ h.heap_idle) (
                    Reads-bind _ (Reads-varint _ h.heap_inuse) (
                      Reads-bind _ (Reads-varint _ h.heap_released) (
                        Reads-bind _ (Reads-varint _ h.heap_objects) (
                          Reads-bind _ (Reads-others others h.skipped h.count)
                            (Reads-pure m)))))))))))))
