-- ===== src/Spikes/HeapParser/Calm.antt =====
-- spikes/goformat/heap_parser.go: nothing that Parse does panics.
use heaplens.Base.{
  ℕ, zero, suc, List, [], ◌∷◌, length, Bool, true, false, ◌==◌, ◌&&◌, ltb, leb, if◌then◌else◌,
}
use heaplens.Run.{Outcome, ok, err, panic, stuck}
use heaplens.Run.Panics.{IsCalmAt, IsCalm, IsCalm-pure, IsCalm-raise, IsCalm-exhausted, IsCalm-bind}
use heaplens.Run.Panics.{IsCalm-if, IsCalm-bool}
use heaplens.GoHeap.Wire.{Error, Context, Reader, read_uvarint_loop, read_varint, read_full}
use heaplens.GoHeap.Wire.{read_string, read_bytes, skip_varints}
use heaplens.GoHeap.Records.{PointerField}
use heaplens.GoHeap.Records.Parsers.{read_pointer_fields_loop, read_pointer_fields}
use heaplens.GoHeap.Parser.{wrapping, in_context}
use heaplens.GoHeap.Parser.Skip.{skip_fields_loop, skip_fields}
use heaplens.GoHeap.Parser.Loop.{record_case, RecordCase, params, typ, object}
use heaplens.GoHeap.Parser.Loop.{other_root, goroutine, stack_frame, mem_stats, itab, finalizer}
use heaplens.GoHeap.Parser.Loop.{data_segment, defer_panic, os_thread, mem_prof, unknown}
use heaplens.Spikes.HeapParser.{HeapDump, Parser, Parse, reading, resume, edit}
use heaplens.Spikes.HeapParser.Records.{parse_params, parse_type, parse_object, parse_other_root}
use heaplens.Spikes.HeapParser.Records.{parse_goroutine, parse_stack_frame, parse_mem_stats}
use heaplens.Spikes.HeapParser.Records.{
  read_type, read_object, read_root, read_goroutine, read_frame,
}
use heaplens.Spikes.HeapParser.Records.{read_mem_stats, skip_itab, skip_finalizer}
use heaplens.Spikes.HeapParser.Records.{skip_data_segment, skip_defer_panic, skip_os_thread}
use heaplens.Spikes.HeapParser.Records.{skip_stack, skip_mem_prof}
use heaplens.Spikes.HeapParser.Loop.{parse_case, parse_record, parse_loop, check_header, parse}

calm_if :
    {A : Type 0} (b : Bool) (o p : Outcome Error (List ℕ) A)
    → IsCalmAt o
    → IsCalmAt p
    → IsCalmAt (if b then o else p)
calm_if true o p ho hp = ho
calm_if false o p ho hp = hp

uvarint_calm : (left x s : ℕ) (bs : List ℕ) → IsCalmAt (read_uvarint_loop left x s bs)
unfolding read_uvarint_loop
uvarint_calm zero x s bs = tt
uvarint_calm (suc left) x s [] = tt
uvarint_calm (suc left) x s (b ∷ bs) =
    calm_if (ltb b 128) _ _ (calm_if (left == 0 && ltb 1 b) _ _ tt tt) (uvarint_calm left _ _ bs)

IsCalm-varint : IsCalm read_varint
unfolding read_varint
IsCalm-varint = record { at = λ s. uvarint_calm 10 0 0 s }

IsCalm-full : (n : ℕ) → IsCalm (read_full n)
unfolding read_full
IsCalm-full n = record { at = λ s. calm_if (leb n (length s)) _ _ tt tt }

ruleset calm = (IsCalm-bind, IsCalm-pure, IsCalm-raise, IsCalm-if, IsCalm-varint, IsCalm-full)

IsCalm-string : IsCalm read_string
unfolding read_string
IsCalm-string = search calm depth 10

IsCalm-bytes : IsCalm read_bytes
unfolding read_bytes
IsCalm-bytes = search calm depth 10

IsCalm-skip : (n : ℕ) → IsCalm (skip_varints n)
unfolding skip_varints
IsCalm-skip zero = IsCalm-pure tt
IsCalm-skip (suc n) = IsCalm-bind _ _ IsCalm-varint (λ _. IsCalm-skip n)

IsCalm-stack : (n : ℕ) → IsCalm (skip_stack n)
unfolding skip_stack
IsCalm-stack zero = IsCalm-pure tt
IsCalm-stack (suc n) =
    IsCalm-bind _ _ IsCalm-string (λ _.
      IsCalm-bind _ _ IsCalm-string (λ _. IsCalm-bind _ _ IsCalm-varint (λ _. IsCalm-stack n)))

IsCalm-fields_loop : (fuel : ℕ) → IsCalm (skip_fields_loop fuel)
unfolding skip_fields_loop
IsCalm-fields_loop zero = IsCalm-exhausted
IsCalm-fields_loop (suc fuel) = IsCalm-bind _ _ IsCalm-varint (λ kind.
    IsCalm-bool _ _ _ (IsCalm-pure tt)
      (IsCalm-bind _ _ IsCalm-varint (λ _. IsCalm-fields_loop fuel)))

IsCalm-fields : IsCalm skip_fields
unfolding skip_fields
IsCalm-fields = record { at = λ s. (IsCalm-fields_loop (suc (length s))).at s }

IsCalm-pointers_loop :
    (fuel : ℕ) (fields : List PointerField) → IsCalm (read_pointer_fields_loop fuel fields)
unfolding read_pointer_fields_loop
IsCalm-pointers_loop zero fields = IsCalm-exhausted
IsCalm-pointers_loop (suc fuel) fields = IsCalm-bind _ _ IsCalm-varint (λ kind.
    IsCalm-bool _ _ _ (IsCalm-pure fields)
      (IsCalm-bind _ _ IsCalm-varint (λ offset. IsCalm-pointers_loop fuel _)))

IsCalm-pointers : IsCalm read_pointer_fields
unfolding read_pointer_fields
IsCalm-pointers = record { at = λ s. (IsCalm-pointers_loop (suc (length s)) []).at s }

resume_calm :
    {A : Type 0} (d : HeapDump) (o : Outcome Error (List ℕ) A) → IsCalmAt o → IsCalmAt (resume d o)
resume_calm d (ok a r) h = tt
resume_calm d (err e r) h = tt
resume_calm d panic h = h
resume_calm d stuck h = tt

IsCalm-reading : {A : Type 0} (m : Reader A) → IsCalm m → IsCalm (reading m)
unfolding reading
IsCalm-reading m h = record { at = λ p. resume_calm p.dump (m p.r) (h.at p.r) }

IsCalm-edit : (f : HeapDump → HeapDump) → IsCalm (edit f)
unfolding edit
IsCalm-edit f = record { at = λ p. tt }

context_calm :
    {A : Type 0} (c : Context) (o : Outcome Error Parser A) → IsCalmAt o → IsCalmAt (in_context c o)
context_calm c (ok a p) h = tt
context_calm c (err e p) h = tt
context_calm c panic h = h
context_calm c stuck h = tt

IsCalm-wrapping : {A : Type 0} (c : Context) (m : Parse A) → IsCalm m → IsCalm (wrapping c m)
unfolding wrapping
IsCalm-wrapping c m h = record { at = λ p. context_calm c (m p) (h.at p) }

ruleset calm_parsing = (
  IsCalm-bind, IsCalm-pure, IsCalm-varint, IsCalm-string, IsCalm-bytes, IsCalm-skip, IsCalm-stack,
  IsCalm-fields, IsCalm-pointers, IsCalm-reading, IsCalm-edit, IsCalm-wrapping, IsCalm-raise,
)

IsCalm-case : (c : RecordCase) (tag : ℕ) → IsCalm (parse_case c tag)
unfolding parse_case parse_params parse_type parse_object parse_other_root parse_goroutine
    parse_stack_frame parse_mem_stats read_type read_object read_root read_goroutine read_frame
    read_mem_stats skip_itab skip_finalizer skip_data_segment skip_defer_panic skip_os_thread
    skip_mem_prof
IsCalm-case params tag = search calm_parsing depth 40
IsCalm-case typ tag = search calm_parsing depth 40
IsCalm-case object tag = search calm_parsing depth 40
IsCalm-case other_root tag = search calm_parsing depth 40
IsCalm-case goroutine tag = search calm_parsing depth 40
IsCalm-case stack_frame tag = search calm_parsing depth 40
IsCalm-case mem_stats tag = search calm_parsing depth 40
IsCalm-case itab tag = search calm_parsing depth 40
IsCalm-case finalizer tag = search calm_parsing depth 40
IsCalm-case data_segment tag = search calm_parsing depth 40
IsCalm-case defer_panic tag = search calm_parsing depth 40
IsCalm-case os_thread tag = search calm_parsing depth 40
IsCalm-case mem_prof tag = search calm_parsing depth 40
IsCalm-case unknown tag = search calm_parsing depth 40

IsCalm-loop : (fuel : ℕ) → IsCalm (parse_loop fuel)
unfolding parse_loop parse_record
IsCalm-loop zero = IsCalm-exhausted
IsCalm-loop (suc fuel) =
    IsCalm-bind _ _ (IsCalm-wrapping _ _ (IsCalm-reading _ IsCalm-varint)) (λ tag.
      IsCalm-bool _ _ _ (IsCalm-pure tt)
        (IsCalm-bind _ _ (IsCalm-case (record_case tag) tag) (λ _. IsCalm-loop fuel)))

pub IsCalm-parse : IsCalm parse
unfolding parse check_header
IsCalm-parse = record {
  at = λ p.
      (IsCalm-bind _ _ (IsCalm-wrapping _ _ (IsCalm-reading _ (IsCalm-full 16))) (λ header.
          IsCalm-bind _ _ (IsCalm-if _ _ _ (IsCalm-pure tt) (IsCalm-raise _))
            (λ _. record { at = λ q. (IsCalm-loop (suc (length q.r))).at q }))).at
        p;
}
