-- ===== src/Spikes/HeapParser/Reads.antt =====
-- spikes/goformat/heap_parser.go: the reads of a record that was written.
use heaplens.Base.{
  ℕ, zero, suc, ◌<◌, arith, List, [], ◌∷◌, ◌++◌, append-nil, Bool, not, ◌==◌, ==-false,
}
use heaplens.Base.{length, length-append, All}
use mathlib.Core.Path.{subst}
use heaplens.GoHeap.Wire.{IsU64, skip_varints}
use heaplens.GoHeap.Wire.Encode.{put_varint}
use heaplens.GoHeap.Wire.RoundTrip.{Reads, Reads-pure, Reads-bind, Reads-bind_last, Reads-varint}
use heaplens.GoHeap.Wire.RoundTrip.{Reads-string, Reads-bytes}
use heaplens.GoHeap.Records.{PointerField, MemProfFrame, GoroutineFull, StackFrame, Finalizer, Itab}
use heaplens.GoHeap.Records.{OsThread, MemProfRecord, DataSegment}
use heaplens.GoHeap.Records.Encode.{put_chunks, put_pointer_fields, IsPointerField, put_frames}
use heaplens.GoHeap.Records.Encode.{IsMemProfFrame, IsString, IsBytes, put_goroutine, IsGoroutine}
use heaplens.GoHeap.Records.Encode.{put_finalizer, put_itab, put_stack_frame, put_os_thread}
use heaplens.GoHeap.Records.Encode.{put_mem_prof, put_data_segment, IsFinalizer, IsItab}
use heaplens.GoHeap.Records.Encode.{IsStackFrame, IsOsThread, IsMemProfRecord, IsDataSegment}
use heaplens.GoHeap.Records.RoundTrip.{lt-length-put_pointer_fields, Reads-pointer_fields}
use heaplens.GoHeap.Records.RoundTrip.{bool_word, word_IsU64, word}
use heaplens.GoHeap.Parser.{TypeInfo}
use heaplens.GoHeap.Parser.Skip.{skip_fields_loop, skip_fields}
use heaplens.GoHeap.Stream.Items.{put_type, IsTypeInfo, put_object, put_root}
use heaplens.Spikes.HeapParser.{Goroutine, MemStats}
use heaplens.Spikes.HeapParser.Records.{
  read_type, read_object, read_root, read_goroutine, read_frame,
}
use heaplens.Spikes.HeapParser.Records.{read_mem_stats, skip_itab, skip_finalizer}
use heaplens.Spikes.HeapParser.Records.{
  skip_data_segment, skip_os_thread, skip_stack, skip_mem_prof,
}
use heaplens.Spikes.HeapParser.Items.{put_stats, IsStats}

Reads-fields_loop :
    (ps : List PointerField) (fuel : ℕ)
    → length ps < fuel
    → All IsPointerField ps
    → Reads (skip_fields_loop fuel) (put_pointer_fields ps) tt
unfolding skip_fields_loop put_pointer_fields
Reads-fields_loop ps zero h all = absurd (omega arith)
Reads-fields_loop [] (suc fuel) h all = Reads-bind _ (Reads-varint 0 (omega arith)) (Reads-pure tt)
Reads-fields_loop (p ∷ ps) (suc fuel) h (hp, hps) = Reads-bind _ (Reads-varint p.kind hp.kind) (
    rw (==-false p.kind 0 hp.nonzero) (
      Reads-bind _ (Reads-varint p.offset hp.offset) (Reads-fields_loop ps fuel (omega arith) hps)))

Reads-fields :
    (ps : List PointerField) → All IsPointerField ps → Reads skip_fields (put_pointer_fields ps) tt
unfolding skip_fields
Reads-fields ps h = record {
  at = λ rest.
      let enough : length ps < suc (length (put_pointer_fields ps ++ rest)) =
        rw length-append (omega (arith, lt-length-put_pointer_fields ps)) in
      (Reads-fields_loop ps _ enough h).at rest;
}

Reads-stack :
    (fs : List MemProfFrame)
    → All IsMemProfFrame fs
    → Reads (skip_stack (length fs)) (put_frames fs) tt
unfolding skip_stack put_frames
Reads-stack [] h = Reads-pure tt
Reads-stack (f ∷ fs) (hf, hfs) = Reads-bind _ (Reads-string f.function hf.function) (
    Reads-bind _ (Reads-string f.file hf.file)
      (Reads-bind _ (Reads-varint f.line hf.line) (Reads-stack fs hfs)))

ruleset reads = (
  Reads-bind, Reads-pure, Reads-varint, Reads-string, Reads-bytes, Reads-pointer_fields,
  Reads-fields,
)

Reads-decoded_type :
    (t : TypeInfo)
    → IsTypeInfo t
    → Reads read_type (put_type t) (record t { indirect = not (word t.indirect == 0) })
unfolding read_type put_type
Reads-decoded_type t h = Reads-bind _ (Reads-varint _ h.address) (
    Reads-bind _ (Reads-varint _ h.size) (
      Reads-bind _ (Reads-string _ h.name)
        (Reads-bind _ (Reads-varint _ (word_IsU64 t.indirect)) (Reads-pure _))))

pub Reads-type : (t : TypeInfo) → IsTypeInfo t → Reads read_type (put_type t) t
Reads-type t h =
    subst (λ b. Reads read_type (put_type t) (record t { indirect = b })) (bool_word t.indirect)
      (Reads-decoded_type t h)

pub Reads-object :
    (addr : ℕ) (bytes : List ℕ) (fields : List PointerField)
    → IsU64 addr
    → IsBytes bytes
    → All IsPointerField fields
    → Reads read_object (put_object addr bytes fields) (record {
      address = addr;
      size = length bytes;
      type_addr = 0;
      bytes = bytes;
      fields = fields;
    })
unfolding read_object put_object
Reads-object addr bytes fields ha hb hf = search reads depth 20

pub Reads-root :
    (desc : List ℕ) (ptr : ℕ)
    → IsString desc
    → IsU64 ptr
    → Reads read_root (put_root desc ptr) (record { description = desc; pointer = ptr })
unfolding read_root put_root
Reads-root desc ptr hd hp = search reads depth 20

Reads-skip_four :
    (a b c d : ℕ)
    → IsU64 a
    → IsU64 b
    → IsU64 c
    → IsU64 d
    → Reads
        (skip_varints 4)
        (put_chunks (put_varint a ∷ put_varint b ∷ put_varint c ∷ put_varint d ∷ []))
        tt
unfolding skip_varints
Reads-skip_four a b c d ha hb hc hd = search reads depth 20

-- What the prototype keeps of a goroutine, given its two flags.
abbrev pub kept_goroutine : GoroutineFull → Bool → Bool → Goroutine
kept_goroutine g is_system is_background = record {
  address = g.address;
  stack_pointer = g.stack_top;
  id = g.id;
  status = g.status;
  is_system = is_system;
  is_background = is_background;
  wait_since = g.wait_since;
  wait_reason = g.wait_reason;
}

Reads-decoded_goroutine :
    (g : GoroutineFull)
    → IsGoroutine g
    → Reads read_goroutine
        (put_goroutine g)
        (kept_goroutine g (not (word g.is_system == 0)) (not (word g.is_background == 0)))
unfolding read_goroutine put_goroutine
Reads-decoded_goroutine g h = Reads-bind _ (Reads-varint _ h.address) (
    Reads-bind _ (Reads-varint _ h.stack_top) (
      Reads-bind _ (Reads-varint _ h.id) (
        Reads-bind _ (Reads-varint _ h.status) (
          Reads-bind _ (Reads-varint _ (word_IsU64 g.is_system)) (
            Reads-bind _ (Reads-varint _ (word_IsU64 g.is_background)) (
              Reads-bind _ (Reads-varint _ h.wait_since) (
                Reads-bind _ (Reads-string _ h.wait_reason) (
                  Reads-bind_last _
                    (Reads-skip_four g.ctxt_addr g.m_addr g.defer_addr g.panic_addr h.ctxt_addr
                      h.m_addr h.defer_addr h.panic_addr)
                    (Reads-pure _)))))))))

pub Reads-goroutine :
    (g : GoroutineFull)
    → IsGoroutine g
    → Reads read_goroutine (put_goroutine g) (kept_goroutine g g.is_system g.is_background)
Reads-goroutine g h =
    subst (λ b. Reads read_goroutine (put_goroutine g) (kept_goroutine g g.is_system b))
      (bool_word g.is_background)
      (subst
        (λ b.
          Reads read_goroutine (put_goroutine g)
            (kept_goroutine g b (not (word g.is_background == 0))))
        (bool_word g.is_system) (Reads-decoded_goroutine g h))

pub Reads-frame :
    (f : StackFrame)
    → IsStackFrame f
    → Reads read_frame (put_stack_frame f) (record {
      sp = f.sp;
      depth = f.depth;
      child_sp = f.child_sp;
      bytes = f.bytes;
      entry_pc = f.entry_pc;
      pc = f.pc;
      cont_pc = f.cont_pc;
      name = f.name;
    })
unfolding read_frame put_stack_frame
Reads-frame f h = Reads-bind _ (Reads-varint _ h.sp) (
    Reads-bind _ (Reads-varint _ h.depth) (
      Reads-bind _ (Reads-varint _ h.child_sp) (
        Reads-bind _ (Reads-bytes _ h.bytes) (
          Reads-bind _ (Reads-varint _ h.entry_pc) (
            Reads-bind _ (Reads-varint _ h.pc) (
              Reads-bind _ (Reads-varint _ h.cont_pc) (
                Reads-bind _ (Reads-string _ h.name)
                  (Reads-bind _ (Reads-fields _ h.pointers) (Reads-pure _)))))))))

pub Reads-stats : (m : MemStats) → IsStats m → Reads read_mem_stats (put_stats m) m
unfolding read_mem_stats put_stats
Reads-stats m h = search reads depth 30

pub Reads-itab : (i : Itab) → IsItab i → Reads skip_itab (put_itab i) tt
unfolding skip_itab put_itab
Reads-itab i h = search reads depth 20

pub Reads-finalizer : (f : Finalizer) → IsFinalizer f → Reads skip_finalizer (put_finalizer f) tt
unfolding skip_finalizer put_finalizer skip_varints
Reads-finalizer f h = search reads depth 20

pub Reads-os_thread : (t : OsThread) → IsOsThread t → Reads skip_os_thread (put_os_thread t) tt
unfolding skip_os_thread put_os_thread skip_varints
Reads-os_thread t h = search reads depth 20

pub Reads-data_segment :
    (d : DataSegment) → IsDataSegment d → Reads skip_data_segment (put_data_segment d) tt
unfolding skip_data_segment put_data_segment
Reads-data_segment d h =
    Reads-bind _ (Reads-varint _ h.address)
      (Reads-bind _ (Reads-bytes _ h.bytes) (rw append-nil (Reads-fields d.pointers h.pointers)))

pub Reads-mem_prof :
    (m : MemProfRecord) → IsMemProfRecord m → Reads skip_mem_prof (put_mem_prof m) tt
unfolding skip_mem_prof put_mem_prof
Reads-mem_prof m h = Reads-bind _ (Reads-varint _ h.bucket_id) (
    Reads-bind _ (Reads-varint _ h.size) (
      Reads-bind _ (Reads-varint _ (omega (arith, h.depth))) (
        Reads-bind _ (Reads-stack m.stack h.stack) (
          Reads-bind _ (Reads-varint _ h.allocs)
            (Reads-bind _ (Reads-varint _ h.frees) (Reads-pure tt))))))
