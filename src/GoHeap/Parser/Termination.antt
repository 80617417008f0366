-- ===== src/GoHeap/Parser/Termination.antt =====
-- The loop over the records ends on every input.
use heaplens.Base.{ℕ, zero, suc, ◌≤◌, ◌<◌, ◌≡◌, ◌≢◌, refl, arith, List, length}
use heaplens.Base.{◌==◌, Option, none, some}
use heaplens.Run.{Outcome, ok, err, panic, stuck, Run, continue, ◌>>=◌, ◌>>◌}
use heaplens.Run.Ends.{EndsAt, TakesAt, Ends, Ends-pure, Ends-raise}
use heaplens.Run.Ends.{Ends-if, Ends-bind, EndsAt-bool, EndsAt-continue, EndsAt-mono}
use heaplens.GoHeap.Wire.{
  Error, eof, unexpected_eof, varint_overflow, string_too_long, Context, Reader, read_varint,
}
use heaplens.GoHeap.Wire.Totality.{Takes-varint, Ends-varint, Ends-string, Ends-full}
use heaplens.GoHeap.Parser.{
  Parser, Parse, new_parser, reading, resume, modify, wrapping, in_context,
}
use heaplens.GoHeap.Parser.Objects.{parse_params, parse_type, parse_object, parse_other_root}
use mathlib.Core.Path.{subst}
use heaplens.GoHeap.Parser.Objects.{add_heap_object, add_type, add_root}
use heaplens.GoHeap.Parser.Loop.{parse_goroutine, finalize, parse_record, read_tag, tag_or_end}
use heaplens.GoHeap.Parser.Loop.{parse_loop, check_header, parse, parsed, parse_dump, tag_eof}
use heaplens.GoHeap.Parser.Loop.{RecordCase, params, typ, object, other_root, goroutine}
use heaplens.GoHeap.Parser.Loop.{stack_frame, mem_stats, itab, finalizer, data_segment}
use heaplens.GoHeap.Parser.Loop.{defer_panic, os_thread, mem_prof, unknown, record_case, parse_case}
use heaplens.GoHeap.Parser.Totality.{Ends-goroutine, Ends-stack_frame, Ends-mem_stats, Ends-itab}
use heaplens.GoHeap.Parser.Totality.{Ends-finalizer, Ends-data_segment, Ends-defer_panic}
use heaplens.GoHeap.Parser.Totality.{Ends-os_thread, Ends-mem_prof, Ends-type, Ends-object}

abbrev left : Parser → ℕ
left p = length p.r

resume_ends :
    {A : Type 0} (p : Parser) (o : Outcome Error (List ℕ) A) (n : ℕ)
    → EndsAt length n o
    → EndsAt left n (resume p o)
resume_ends p (ok a r) n h = h
resume_ends p (err e r) n h = h
resume_ends p panic n h = h
resume_ends p stuck n h = h

Ends-reading : {A : Type 0} (m : Reader A) → Ends length m → Ends left (reading m)
unfolding reading
Ends-reading m h = record { at = λ p. resume_ends p (m p.r) (length p.r) (h.at p.r) }

-- A change of the fields that leaves the input alone.
Ends-modify : (f : Parser → Parser) → ((p : Parser) → (f p).r ≡ p.r) → Ends left (modify f)
unfolding modify
Ends-modify f h = record { at = λ p. rw (h p) (omega arith) }

context_ends :
    {A S : Type 0} (size : S → ℕ) (c : Context) (o : Outcome Error S A) (n : ℕ)
    → EndsAt size n o
    → EndsAt size n (in_context c o)
context_ends size c (ok a t) n h = h
context_ends size c (err e t) n h = h
context_ends size c panic n h = h
context_ends size c stuck n h = h

pub Ends-wrapping :
    {A S : Type 0} (size : S → ℕ) (c : Context) (m : Run Error S A)
    → Ends size m
    → Ends size (wrapping c m)
unfolding wrapping
Ends-wrapping size c m h = record { at = λ s. context_ends size c (m s) (size s) (h.at s) }

Ends-reading_varint : Ends left (reading read_varint)
Ends-reading_varint = Ends-reading read_varint Ends-varint

-- A value that is read and then kept by a change of the fields.
Ends-kept :
    {B : Type 0} (m : Reader B) (f : B → Parser → Parser)
    → Ends length m
    → ((b : B) (p : Parser) → (f b p).r ≡ p.r)
    → Ends left (reading m >>= λ b. modify (f b))
Ends-kept m f hm hf = Ends-bind left _ _ (Ends-reading m hm) (λ b. Ends-modify (f b) (hf b))

Ends-field :
    {A B : Type 0} (m : Reader B) (f : B → Parser → Parser) (k : Parse A)
    → Ends length m
    → ((b : B) (p : Parser) → (f b p).r ≡ p.r)
    → Ends left k
    → Ends left (reading m >>= λ b. modify (f b) >> k)
Ends-field m f k hm hf hk =
    Ends-bind left _ _ (Ends-reading m hm)
      (λ b. Ends-bind left _ _ (Ends-modify (f b) (hf b)) (λ _. hk))

Ends-params : Ends left parse_params
unfolding parse_params
Ends-params =
    Ends-field _ _ _ Ends-varint (λ b p. refl)
      (Ends-field _ _ _ Ends-varint (λ b p. refl)
        (Ends-field _ _ _ Ends-varint (λ b p. refl)
          (Ends-field _ _ _ Ends-varint (λ b p. refl)
            (Ends-field _ _ _ Ends-string (λ b p. refl)
              (Ends-field _ _ _ Ends-string (λ b p. refl)
                (Ends-kept _ _ Ends-varint (λ b p. refl)))))))

Ends-parse_type : Ends left parse_type
unfolding parse_type add_type
Ends-parse_type = Ends-kept _ _ Ends-type (λ b p. refl)

Ends-parse_object : Ends left parse_object
unfolding parse_object add_heap_object
Ends-parse_object = record {
  at = λ p. (Ends-kept _ _ (Ends-object p.pointer_size p.big_endian) (λ b q. refl)).at p;
}

Ends-other_root : Ends left parse_other_root
unfolding parse_other_root add_root
Ends-other_root =
    Ends-bind left _ _ (Ends-reading _ Ends-string) (λ _. Ends-kept _ _ Ends-varint (λ b p. refl))

Ends-parse_goroutine : Ends left parse_goroutine
unfolding parse_goroutine
Ends-parse_goroutine = Ends-kept _ _ Ends-goroutine (λ b p. refl)

Ends-skipped :
    (c : Context) (m : Reader (Unit {0})) → Ends length m → Ends left (wrapping c (reading m))
Ends-skipped c m h = Ends-wrapping left c _ (Ends-reading m h)

Ends-case : (c : RecordCase) (tag : ℕ) → Ends left (parse_case c tag)
unfolding parse_case
Ends-case params tag = Ends-wrapping left _ _ Ends-params
Ends-case typ tag = Ends-wrapping left _ _ Ends-parse_type
Ends-case object tag = Ends-wrapping left _ _ Ends-parse_object
Ends-case other_root tag = Ends-wrapping left _ _ Ends-other_root
Ends-case goroutine tag = Ends-wrapping left _ _ Ends-parse_goroutine
Ends-case stack_frame tag = Ends-skipped _ _ Ends-stack_frame
Ends-case mem_stats tag = Ends-skipped _ _ Ends-mem_stats
Ends-case itab tag = Ends-skipped _ _ Ends-itab
Ends-case finalizer tag = Ends-skipped _ _ Ends-finalizer
Ends-case data_segment tag = Ends-skipped _ _ Ends-data_segment
Ends-case defer_panic tag = Ends-skipped _ _ Ends-defer_panic
Ends-case os_thread tag = Ends-skipped _ _ Ends-os_thread
Ends-case mem_prof tag = Ends-skipped _ _ Ends-mem_prof
Ends-case unknown tag = Ends-raise left _

Ends-record : (tag : ℕ) → Ends left (parse_record tag)
unfolding parse_record
Ends-record tag = Ends-case (record_case tag) tag

Ends-finalize : Ends left finalize
unfolding finalize
Ends-finalize = Ends-modify _ (λ p. refl)

-- What is left after the next tag, which the end of the file is not.
abbrev AfterTag : ℕ → Outcome Error Parser (Option ℕ) → Type 0
AfterTag n (ok none p) = left p ≤ n
AfterTag n (ok (some tag) p) = left p < n
AfterTag n (err e p) = left p ≤ n
AfterTag n panic = Unit {0}
AfterTag n stuck = ⊥

tag_left :
    (p : Parser) (n : ℕ) (o : Outcome Error (List ℕ) ℕ)
    → TakesAt length n o
    → AfterTag n (resume p (tag_or_end o))
tag_left p n (ok tag r) h = h
tag_left p n (err eof r) h = h
tag_left p n (err unexpected_eof r) h = h
tag_left p n (err varint_overflow r) h = h
tag_left p n (err (string_too_long k) r) h = h
tag_left p n (err e r) h = h
tag_left p n panic h = h
tag_left p n stuck h = h

-- One round of the loop, once the tag is read.
round-Ends :
    (n : ℕ) (next : Option ℕ → Parse (Unit {0}))
    → Ends left (next none)
    → ((tag : ℕ) (q : Parser) → left q < n → EndsAt left (left q) (next (some tag) q))
    → (o : Outcome Error Parser (Option ℕ)) → AfterTag n o
    → EndsAt left n (continue o next)
round-Ends n next hn hs (ok none p) h = EndsAt-mono left n (left p) _ (hn.at p) h
round-Ends n next hn hs (ok (some tag) p) h =
    EndsAt-mono left n (left p) _ (hs tag p h) (omega arith)
round-Ends n next hn hs (err e p) h = h
round-Ends n next hn hs panic h = h
round-Ends n next hn hs stuck h = h

loop_ends : (fuel : ℕ) (p : Parser) → left p < fuel → EndsAt left (left p) (parse_loop fuel p)
unfolding parse_loop ◌>>=◌ reading read_tag
loop_ends zero p h = absurd (omega arith)
loop_ends (suc fuel) p h =
    round-Ends (left p) _ Ends-finalize
      (λ tag q lt.
        EndsAt-bool left (left q) finalize (parse_record tag >> parse_loop fuel) (tag == tag_eof) q
          (Ends-finalize.at q)
          (EndsAt-continue left (left q) (parse_record tag q) _ ((Ends-record tag).at q)
            (λ _ u le. loop_ends fuel u (omega arith))))
      (resume p (tag_or_end (read_varint p.r))) (tag_left p (left p) _ (Takes-varint.at p.r))

Ends-header : (header : List ℕ) → Ends left (check_header header)
unfolding check_header
Ends-header header = Ends-if left _ _ _ (Ends-pure left tt) (Ends-raise left _)

Ends-parse : Ends left parse
unfolding parse
Ends-parse = record {
  at = λ p.
      (Ends-bind left _ _ (Ends-reading _ (Ends-wrapping length _ _ (Ends-full 16))) (λ header.
          Ends-bind left _ _ (Ends-header header)
            (λ _. record { at = λ q. loop_ends (suc (left q)) q (omega arith) }))).at
        p;
}

parsed_ends :
    (n : ℕ) (o : Outcome Error Parser (Unit {0})) → EndsAt left n o → EndsAt length n (parsed o)
parsed_ends n (ok u p) h = h
parsed_ends n (err e p) h = h
parsed_ends n panic h = h
parsed_ends n stuck h = h

-- On every input, of any bytes, parsing a dump comes to an end: with a graph, with an error or with
-- a run-time panic, and never for want of rounds.
pub parse_dump-ne-stuck : (input : List ℕ) → parse_dump input ≢ stuck
unfolding parse_dump new_parser
parse_dump-ne-stuck input e =
    subst (EndsAt length (length input)) e
      (parsed_ends (length input) (parse (new_parser input)) (Ends-parse.at (new_parser input)))
