-- ===== src/GoHeap/Parser/Totality.antt =====
-- The methods of parser.go that read a record end on every input: the loops over fields never run out
-- of the rounds that the input's length gives them.
use heaplens.Base.{ℕ, zero, suc, ◌<◌, arith, List, [], ◌++◌, length}
use heaplens.Base.{Bool, true, false, ◌==◌, Option, none, some}
use heaplens.Run.{pure, ◌>>=◌, ◌>>◌}
use heaplens.Run.Ends.{EndsAt, Ends, Ends-pure, Ends-crash}
use heaplens.Run.Ends.{Ends-bind, EndsAt-of_TakesAt, EndsAt-continue, TakesAt-continue}
use heaplens.GoHeap.Wire.{Reader, read_varint}
use heaplens.GoHeap.Wire.Totality.{Takes-varint, Ends-varint, Ends-string, Ends-bytes, Ends-skip}
use heaplens.GoHeap.Records.Parsers.{field_kind_eol}
use heaplens.GoHeap.Pointers.{field_pointers}
use heaplens.GoHeap.Parser.Skip.{skip_fields_loop, skip_fields, skip_goroutine, parse_stack_frame}
use heaplens.GoHeap.Parser.Skip.{parse_mem_stats, skip_itab, skip_finalizer, skip_data_segment}
use heaplens.GoHeap.Parser.Skip.{skip_defer_panic, skip_os_thread, skip_frames, skip_mem_prof}
use heaplens.GoHeap.Parser.Objects.{read_type, or_crash, read_object}
use heaplens.GoHeap.Parser.Objects.{read_pointers_loop, read_pointers}

-- A loop over fields: a kind, which ends it or is followed by a read and by the next round.
pub round-Ends :
    {A : Type 0} (n : ℕ) (done : Reader A) (next : Reader A)
    → Ends length done
    → ((t : List ℕ) → length t < n → EndsAt length (length t) (next t))
    → (b : Bool) (t : List ℕ) → length t < n
    → EndsAt length (length t) ((elim b as (λ _. Reader A) [ true ↦ done | false ↦ next ]) t)
round-Ends n done next hd hn true t h = hd.at t
round-Ends n done next hd hn false t h = hn t h

skip_fields_loop_ends :
    (fuel : ℕ) (s : List ℕ) → length s < fuel → EndsAt length (length s) (skip_fields_loop fuel s)
unfolding skip_fields_loop ◌>>=◌
skip_fields_loop_ends zero s h = absurd (omega arith)
skip_fields_loop_ends (suc fuel) s h = EndsAt-of_TakesAt length (length s) _ (
    TakesAt-continue length (length s) (read_varint s) _ (Takes-varint.at s) (λ kind t lt.
      round-Ends (length s) (pure tt) (read_varint >> skip_fields_loop fuel) (Ends-pure length tt)
        (λ u lu.
          EndsAt-continue length (length u) (read_varint u) _ (Ends-varint.at u)
            (λ offset v le. skip_fields_loop_ends fuel v (omega arith)))
        (kind == field_kind_eol) t lt))

pub Ends-skip_fields : Ends length skip_fields
unfolding skip_fields
Ends-skip_fields = record { at = λ s. skip_fields_loop_ends (suc (length s)) s (omega arith) }

pub Ends-or_crash : {A : Type 0} (o : Option A) → Ends length (or_crash o)
Ends-or_crash none = Ends-crash length
Ends-or_crash (some a) = Ends-pure length a

read_pointers_loop_ends :
    (fuel : ℕ) (bytes : List ℕ) (pointer_size : ℕ) (big_endian : Bool) (pointers s : List ℕ)
    → length s < fuel
    → EndsAt length (length s) (read_pointers_loop fuel bytes pointer_size big_endian pointers s)
unfolding read_pointers_loop ◌>>=◌
read_pointers_loop_ends zero bytes n be pointers s h = absurd (omega arith)
read_pointers_loop_ends (suc fuel) bytes n be pointers s h = EndsAt-of_TakesAt length (length s) _ (
    TakesAt-continue length (length s) (read_varint s) _ (Takes-varint.at s) (λ kind t lt.
      round-Ends (length s) (pure pointers) _ (Ends-pure length pointers)
        (λ u lu.
          EndsAt-continue length (length u) (read_varint u) _ (Ends-varint.at u) (λ offset v le.
            EndsAt-continue length (length v) _ _
              ((Ends-or_crash
                  (field_pointers bytes (record { kind = kind; offset = offset }) n be)).at
                v)
              (λ more w lw.
                read_pointers_loop_ends fuel bytes n be (pointers ++ more) w (omega arith))))
        (kind == field_kind_eol) t lt))

pub Ends-read_pointers :
    (bytes : List ℕ) (pointer_size : ℕ) (big_endian : Bool)
    → Ends length (read_pointers bytes pointer_size big_endian)
unfolding read_pointers
Ends-read_pointers bytes n be = record {
  at = λ s. read_pointers_loop_ends (suc (length s)) bytes n be [] s (omega arith);
}

pub Ends-frames : (n : ℕ) → Ends length (skip_frames n)
unfolding skip_frames
Ends-frames zero = Ends-pure length tt
Ends-frames (suc n) = Ends-bind length _ _ Ends-string (λ _.
    Ends-bind length _ _ Ends-string (λ _. Ends-bind length _ _ Ends-varint (λ _. Ends-frames n)))

ruleset ends = (
  Ends-bind, Ends-pure, Ends-varint, Ends-string, Ends-bytes, Ends-skip, Ends-skip_fields,
  Ends-frames, Ends-read_pointers, Ends-or_crash,
)

pub Ends-goroutine : Ends length skip_goroutine
unfolding skip_goroutine
Ends-goroutine = search ends depth 20

pub Ends-stack_frame : Ends length parse_stack_frame
unfolding parse_stack_frame
Ends-stack_frame = search ends depth 20

pub Ends-mem_stats : Ends length parse_mem_stats
unfolding parse_mem_stats
Ends-mem_stats = search ends depth 20

pub Ends-itab : Ends length skip_itab
unfolding skip_itab
Ends-itab = search ends depth 20

pub Ends-finalizer : Ends length skip_finalizer
unfolding skip_finalizer
Ends-finalizer = search ends depth 20

pub Ends-data_segment : Ends length skip_data_segment
unfolding skip_data_segment
Ends-data_segment = search ends depth 20

pub Ends-defer_panic : Ends length skip_defer_panic
unfolding skip_defer_panic
Ends-defer_panic = search ends depth 20

pub Ends-os_thread : Ends length skip_os_thread
unfolding skip_os_thread
Ends-os_thread = search ends depth 20

pub Ends-mem_prof : Ends length skip_mem_prof
unfolding skip_mem_prof
Ends-mem_prof = search ends depth 20

pub Ends-type : Ends length read_type
unfolding read_type
Ends-type = search ends depth 20

pub Ends-object : (n : ℕ) (be : Bool) → Ends length (read_object n be)
unfolding read_object
Ends-object n be = search ends depth 20
