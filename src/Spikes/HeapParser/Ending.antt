-- ===== src/Spikes/HeapParser/Ending.antt =====
-- spikes/goformat/heap_parser.go: parsing comes to an end on every input.
use heaplens.Base.{ℕ, zero, suc, ◌<◌, arith, List, length, ◌==◌}
use heaplens.Run.{Outcome, ok, err, panic, stuck, pure, ◌>>=◌, ◌>>◌}
use heaplens.Run.Ends.{EndsAt, TakesAt, Ends, Ends-pure, Ends-raise, Ends-if, Ends-bind}
use heaplens.Run.Ends.{EndsAt-bool, EndsAt-continue, TakesAt-continue, EndsAt-of_TakesAt}
use heaplens.GoHeap.Wire.{Error, Context, Reader, read_varint}
use heaplens.GoHeap.Wire.Totality.{
  Takes-varint, Ends-varint, Ends-string, Ends-bytes, Ends-skip, Ends-full,
}
use heaplens.GoHeap.Records.{PointerField}
use heaplens.GoHeap.Records.Parsers.{read_pointer_fields_loop, read_pointer_fields, field_kind_eol}
use heaplens.GoHeap.Parser.{wrapping, in_context}
use heaplens.GoHeap.Parser.Loop.{tag_eof, record_case, RecordCase, params, typ, object}
use heaplens.GoHeap.Parser.Loop.{other_root, goroutine, stack_frame, mem_stats, itab, finalizer}
use heaplens.GoHeap.Parser.Loop.{data_segment, defer_panic, os_thread, mem_prof, unknown}
use heaplens.GoHeap.Parser.Totality.{Ends-skip_fields, round-Ends}
use heaplens.GoHeap.Parser.Termination.{Ends-wrapping}
use heaplens.Spikes.HeapParser.{HeapDump, Parser, reading, resume, edit}
use heaplens.Spikes.HeapParser.Records.{parse_params, parse_type, parse_object, parse_other_root}
use heaplens.Spikes.HeapParser.Records.{parse_goroutine, parse_stack_frame, parse_mem_stats}
use heaplens.Spikes.HeapParser.Records.{
  read_type, read_object, read_root, read_goroutine, read_frame,
}
use heaplens.Spikes.HeapParser.Records.{read_mem_stats, skip_itab, skip_finalizer}
use heaplens.Spikes.HeapParser.Records.{skip_data_segment, skip_defer_panic, skip_os_thread}
use heaplens.Spikes.HeapParser.Records.{skip_stack, skip_mem_prof}
use heaplens.Spikes.HeapParser.Loop.{parse_case, parse_record, parse_loop, check_header, parse}

abbrev left : Parser → ℕ
left p = length p.r

pointer_fields_ends :
    (fuel : ℕ) (fields : List PointerField) (s : List ℕ)
    → length s < fuel
    → EndsAt length (length s) (read_pointer_fields_loop fuel fields s)
unfolding read_pointer_fields_loop ◌>>=◌
pointer_fields_ends zero fields s h = absurd (omega arith)
pointer_fields_ends (suc fuel) fields s h = EndsAt-of_TakesAt length (length s) _ (
    TakesAt-continue length (length s) (read_varint s) _ (Takes-varint.at s) (λ kind t lt.
      round-Ends (length s) (pure fields) _ (Ends-pure length fields)
        (λ u lu.
          EndsAt-continue length (length u) (read_varint u) _ (Ends-varint.at u)
            (λ offset v le. pointer_fields_ends fuel _ v (omega arith)))
        (kind == field_kind_eol) t lt))

Ends-pointer_fields : Ends length read_pointer_fields
unfolding read_pointer_fields
Ends-pointer_fields = record { at = λ s. pointer_fields_ends (suc (length s)) _ s (omega arith) }

Ends-stack : (n : ℕ) → Ends length (skip_stack n)
unfolding skip_stack
Ends-stack zero = Ends-pure length tt
Ends-stack (suc n) = Ends-bind length _ _ Ends-string (λ _.
    Ends-bind length _ _ Ends-string (λ _. Ends-bind length _ _ Ends-varint (λ _. Ends-stack n)))

ruleset ends = (
  Ends-bind, Ends-pure, Ends-varint, Ends-string, Ends-bytes, Ends-skip, Ends-skip_fields,
  Ends-pointer_fields, Ends-stack,
)

Ends-type : Ends length read_type
unfolding read_type
Ends-type = search ends depth 20

Ends-object : Ends length read_object
unfolding read_object
Ends-object = search ends depth 20

Ends-root : Ends length read_root
unfolding read_root
Ends-root = search ends depth 20

Ends-goroutine : Ends length read_goroutine
unfolding read_goroutine
Ends-goroutine = search ends depth 30

Ends-frame : Ends length read_frame
unfolding read_frame
Ends-frame = search ends depth 30

Ends-mem_stats : Ends length read_mem_stats
unfolding read_mem_stats
Ends-mem_stats = search ends depth 30

Ends-itab : Ends length skip_itab
unfolding skip_itab
Ends-itab = search ends depth 20

Ends-finalizer : Ends length skip_finalizer
unfolding skip_finalizer
Ends-finalizer = search ends depth 20

Ends-data_segment : Ends length skip_data_segment
unfolding skip_data_segment
Ends-data_segment = search ends depth 20

Ends-defer_panic : Ends length skip_defer_panic
unfolding skip_defer_panic
Ends-defer_panic = search ends depth 20

Ends-os_thread : Ends length skip_os_thread
unfolding skip_os_thread
Ends-os_thread = search ends depth 20

Ends-mem_prof : Ends length skip_mem_prof
unfolding skip_mem_prof
Ends-mem_prof = search ends depth 20

resume_ends :
    {A : Type 0} (d : HeapDump) (o : Outcome Error (List ℕ) A) (n : ℕ)
    → EndsAt length n o
    → EndsAt left n (resume d o)
resume_ends d (ok a r) n h = h
resume_ends d (err e r) n h = h
resume_ends d panic n h = h
resume_ends d stuck n h = h

resume_takes :
    {A : Type 0} (d : HeapDump) (o : Outcome Error (List ℕ) A) (n : ℕ)
    → TakesAt length n o
    → TakesAt left n (resume d o)
resume_takes d (ok a r) n h = h
resume_takes d (err e r) n h = h
resume_takes d panic n h = h
resume_takes d stuck n h = h

Ends-reading : {A : Type 0} (m : Reader A) → Ends length m → Ends left (reading m)
unfolding reading
Ends-reading m h = record { at = λ p. resume_ends p.dump (m p.r) (length p.r) (h.at p.r) }

Ends-edit : (f : HeapDump → HeapDump) → Ends left (edit f)
unfolding edit
Ends-edit f = record { at = λ p. omega arith }

-- A value that is read and then kept in the dump.
Ends-kept :
    {B : Type 0} (m : Reader B) (f : B → HeapDump → HeapDump)
    → Ends length m
    → Ends left (reading m >>= λ b. edit (f b))
Ends-kept m f hm = Ends-bind left _ _ (Ends-reading m hm) (λ b. Ends-edit (f b))

ruleset parsing = (Ends-bind, Ends-reading, Ends-edit, Ends-varint, Ends-string)

Ends-params : Ends left parse_params
unfolding parse_params
Ends-params = search parsing depth 40

Ends-skipped :
    (c : Context) (m : Reader (Unit {0})) → Ends length m → Ends left (wrapping c (reading m))
Ends-skipped c m h = Ends-wrapping left c _ (Ends-reading m h)

Ends-case : (c : RecordCase) (tag : ℕ) → Ends left (parse_case c tag)
unfolding parse_case parse_type parse_object parse_other_root parse_goroutine parse_stack_frame
    parse_mem_stats
Ends-case params tag = Ends-wrapping left _ _ Ends-params
Ends-case typ tag = Ends-wrapping left _ _ (Ends-kept _ _ Ends-type)
Ends-case object tag = Ends-wrapping left _ _ (Ends-kept _ _ Ends-object)
Ends-case other_root tag = Ends-wrapping left _ _ (Ends-kept _ _ Ends-root)
Ends-case goroutine tag = Ends-wrapping left _ _ (Ends-kept _ _ Ends-goroutine)
Ends-case stack_frame tag = Ends-wrapping left _ _ (Ends-kept _ _ Ends-frame)
Ends-case mem_stats tag = Ends-wrapping left _ _ (Ends-kept _ _ Ends-mem_stats)
Ends-case itab tag = Ends-skipped _ _ Ends-itab
Ends-case finalizer tag = Ends-skipped _ _ Ends-finalizer
Ends-case data_segment tag = Ends-skipped _ _ Ends-data_segment
Ends-case defer_panic tag = Ends-skipped _ _ Ends-defer_panic
Ends-case os_thread tag = Ends-skipped _ _ Ends-os_thread
Ends-case mem_prof tag = Ends-skipped _ _ Ends-mem_prof
Ends-case unknown tag = Ends-raise left _

Ends-record : (tag : ℕ) → Ends left (parse_record tag)
unfolding parse_record
Ends-record tag = Ends-case (record_case tag) tag

context_takes :
    {A : Type 0} (c : Context) (o : Outcome Error Parser A) (n : ℕ)
    → TakesAt left n o
    → TakesAt left n (in_context c o)
context_takes c (ok a t) n h = h
context_takes c (err e t) n h = h
context_takes c panic n h = h
context_takes c stuck n h = h

loop_ends : (fuel : ℕ) (p : Parser) → left p < fuel → EndsAt left (left p) (parse_loop fuel p)
unfolding parse_loop ◌>>=◌ reading wrapping
loop_ends zero p h = absurd (omega arith)
loop_ends (suc fuel) p h = EndsAt-of_TakesAt left (left p) _ (
    TakesAt-continue left (left p) _ _
      (context_takes _ _ (left p)
        (resume_takes p.dump (read_varint p.r) (left p) (Takes-varint.at p.r)))
      (λ tag q lt.
        EndsAt-bool left (left q) (pure tt) (parse_record tag >> parse_loop fuel) (tag == tag_eof) q
          (omega arith)
          (EndsAt-continue left (left q) (parse_record tag q) _ ((Ends-record tag).at q)
            (λ _ u le. loop_ends fuel u (omega arith)))))

Ends-header : (header : List ℕ) → Ends left (check_header header)
unfolding check_header
Ends-header header = Ends-if left _ _ _ (Ends-pure left tt) (Ends-raise left _)

pub Ends-parse : Ends left parse
unfolding parse
Ends-parse = record {
  at = λ p.
      (Ends-bind left _ _ (Ends-wrapping left _ _ (Ends-reading _ (Ends-full 16))) (λ header.
          Ends-bind left _ _ (Ends-header header)
            (λ _. record { at = λ q. loop_ends (suc (left q)) q (omega arith) }))).at
        p;
}
