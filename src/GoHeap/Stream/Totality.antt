-- ===== src/GoHeap/Stream/Totality.antt =====
-- heapdump/goheap/streaming.go: the reads of a record, on any input.
use heaplens.Base.{ℕ, zero, suc, ◌<◌, arith, List, [], ◌++◌, length}
use heaplens.Base.{Bool, true, false, ◌==◌, Option, none, some}
use heaplens.Run.{Outcome, ok, err, panic, stuck, pure, ◌>>=◌}
use heaplens.Run.Ends.{
  EndsAt, TakesAt, Ends, Takes, Ends-of_Takes, Ends-pure, Ends-raise, Ends-crash,
}
use heaplens.Run.Ends.{Ends-if, Ends-bind, EndsAt-of_TakesAt, EndsAt-continue, TakesAt-continue}
use heaplens.GoHeap.Wire
use heaplens.GoHeap.Wire.{Error}
use heaplens.GoHeap.Wire.Totality
use heaplens.GoHeap.Records.Parsers.{field_kind_eol}
use heaplens.GoHeap.Pointers.{field_pointers}
use heaplens.GoHeap.Stream.{Input, Counted, tally, read_varint, read_full, read_string, read_bytes}
use heaplens.GoHeap.Stream.Records.{or_crash, skip_varints, skip_unknown, read_type, read_object}
use heaplens.GoHeap.Stream.Records.{read_pointers_loop, read_pointers, read_root, read_goroutine}

abbrev pub input_left : Input → ℕ
input_left s = length s.left

tally_takes :
    {A : Type 0} (good bad : ℕ) (s : Input) (o : Outcome Error (List ℕ) A) (n : ℕ)
    → TakesAt length n o
    → TakesAt input_left n (tally good bad s o)
tally_takes good bad s (ok a left) n h = h
tally_takes good bad s (err e left) n h = h
tally_takes good bad s panic n h = h
tally_takes good bad s stuck n h = h

tally_ends :
    {A : Type 0} (good bad : ℕ) (s : Input) (o : Outcome Error (List ℕ) A) (n : ℕ)
    → EndsAt length n o
    → EndsAt input_left n (tally good bad s o)
tally_ends good bad s (ok a left) n h = h
tally_ends good bad s (err e left) n h = h
tally_ends good bad s panic n h = h
tally_ends good bad s stuck n h = h

pub Takes-varint : Takes input_left read_varint
unfolding read_varint
Takes-varint = record {
  at = λ s.
      tally_takes 1 0 s (Wire.read_varint s.left) (length s.left) (Totality.Takes-varint.at s.left);
}

pub Ends-varint : Ends input_left read_varint
Ends-varint = Ends-of_Takes input_left read_varint Takes-varint

pub Ends-full : (n : ℕ) → Ends input_left (read_full n)
unfolding read_full
Ends-full n = record {
  at = λ s.
      tally_ends n (length s.left) s (Wire.read_full n s.left) (length s.left)
        ((Totality.Ends-full n).at s.left);
}

pub Ends-string : Ends input_left read_string
unfolding read_string
Ends-string =
    Ends-bind input_left _ _ Ends-varint
      (λ n. Ends-if input_left _ _ _ (Ends-raise input_left _) (Ends-full n))

pub Ends-bytes : Ends input_left read_bytes
unfolding read_bytes
Ends-bytes =
    Ends-bind input_left _ _ Ends-varint
      (λ n. Ends-if input_left _ _ _ (Ends-raise input_left _) (Ends-full n))

pub Ends-skip : (n : ℕ) → Ends input_left (skip_varints n)
unfolding skip_varints
Ends-skip zero = Ends-pure input_left tt
Ends-skip (suc n) = Ends-bind input_left _ _ Ends-varint (λ _. Ends-skip n)

pub Ends-unknown : (tag : ℕ) → Ends input_left (skip_unknown tag)
unfolding skip_unknown
Ends-unknown tag = Ends-if input_left _ _ _ (Ends-skip 5) (Ends-raise input_left _)

Ends-or_crash : {A : Type 0} (o : Option A) → Ends input_left (or_crash o)
Ends-or_crash none = Ends-crash input_left
Ends-or_crash (some a) = Ends-pure input_left a

-- A round of a loop that stops or goes on.
choice-Ends :
    {A : Type 0} (n : ℕ) (done : Counted A) (next : Counted A)
    → Ends input_left done
    → ((t : Input) → input_left t < n → EndsAt input_left (input_left t) (next t))
    → (b : Bool) (t : Input) → input_left t < n
    → EndsAt input_left
        (input_left t)
        ((elim b as (λ _. Counted A) [ true ↦ done | false ↦ next ]) t)
choice-Ends n done next hd hn true t h = hd.at t
choice-Ends n done next hd hn false t h = hn t h

pointers_loop_ends :
    (fuel : ℕ) (bytes : List ℕ) (n : ℕ) (be : Bool) (pointers : List ℕ) (s : Input)
    → input_left s < fuel
    → EndsAt input_left (input_left s) (read_pointers_loop fuel bytes n be pointers s)
unfolding read_pointers_loop ◌>>=◌
pointers_loop_ends zero bytes n be pointers s h = absurd (omega arith)
pointers_loop_ends (suc fuel) bytes n be pointers s h =
    EndsAt-of_TakesAt input_left (input_left s) _ (
      TakesAt-continue input_left (input_left s) (read_varint s) _ (Takes-varint.at s) (λ kind t lt.
        choice-Ends (input_left s) (pure pointers) _ (Ends-pure input_left pointers)
          (λ u lu.
            EndsAt-continue input_left (input_left u) (read_varint u) _ (Ends-varint.at u)
              (λ offset v le.
                EndsAt-continue input_left (input_left v) _ _
                  ((Ends-or_crash
                      (field_pointers bytes (record { kind = kind; offset = offset }) n be)).at
                    v)
                  (λ more w lw.
                    pointers_loop_ends fuel bytes n be (pointers ++ more) w (omega arith))))
          (kind == field_kind_eol) t lt))

Ends-pointers : (bytes : List ℕ) (n : ℕ) (be : Bool) → Ends input_left (read_pointers bytes n be)
unfolding read_pointers
Ends-pointers bytes n be = record {
  at = λ s. pointers_loop_ends (suc (input_left s)) bytes n be [] s (omega arith);
}

ruleset ends = (
  Ends-bind, Ends-pure, Ends-varint, Ends-string, Ends-bytes, Ends-skip, Ends-pointers,
  Ends-or_crash,
)

pub Ends-type : Ends input_left read_type
unfolding read_type
Ends-type = search ends depth 20

pub Ends-object : (n : ℕ) (be : Bool) → Ends input_left (read_object n be)
unfolding read_object
Ends-object n be = search ends depth 20

pub Ends-root : Ends input_left read_root
unfolding read_root
Ends-root = search ends depth 20

pub Ends-goroutine : Ends input_left read_goroutine
unfolding read_goroutine
Ends-goroutine = search ends depth 20
