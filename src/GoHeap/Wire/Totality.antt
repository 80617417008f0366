-- ===== src/GoHeap/Wire/Totality.antt =====
-- Every read ends, and takes a byte at least where it returns a number.
use heaplens.Base.{ℕ, zero, suc, ◌+◌, ◌*◌, ◌%◌, ◌^◌, ◌&&◌, arith, List, [], ◌∷◌, length}
use heaplens.Base.{ltb, leb, ◌==◌, length-drop}
use heaplens.Run.Ends.{EndsAt, TakesAt, Ends, Takes, Ends-of_Takes, Ends-pure, Ends-raise}
use heaplens.Run.Ends.{Ends-if, Ends-bind, TakesAt-if, EndsAt-if, TakesAt-of_EndsAt}
use heaplens.Run.Ends.{EndsAt-of_TakesAt}
use heaplens.GoHeap.Wire.{Error, read_uvarint_loop, read_varint, read_full}
use heaplens.GoHeap.Wire.{read_string, read_bytes, skip_varints}

uvarint_takes :
    (left x s : ℕ) (bs : List ℕ)
    → TakesAt {E = Error} {S = List ℕ} length (length bs) (read_uvarint_loop left x s bs)
unfolding read_uvarint_loop
uvarint_takes zero x s bs = omega arith
uvarint_takes (suc left) x s [] = omega arith
uvarint_takes (suc left) x s (b ∷ bs) =
    let more = read_uvarint_loop left (x + b % 128 * 2 ^ s % 2 ^ 64) (s + 7) bs in
    TakesAt-if length _ (ltb b 128) _ more
      (TakesAt-if length _ (left == 0 && ltb 1 b) _ _ (omega arith) (omega arith))
      (TakesAt-of_EndsAt length _ (length bs) more
        (EndsAt-of_TakesAt length _ more (uvarint_takes left _ (s + 7) bs)) (omega arith))

pub Takes-varint : Takes length read_varint
unfolding read_varint
Takes-varint = record { at = λ s. uvarint_takes 10 0 0 s }

-- Where there is a byte it is taken, whatever the outcome.
pub varint_after :
    (b : ℕ) (bs : List ℕ)
    → EndsAt {E = Error} {S = List ℕ} length (length bs) (read_varint (b ∷ bs))
unfolding read_varint read_uvarint_loop
varint_after b bs =
    let more = read_uvarint_loop 9 (0 + b % 128 * 2 ^ 0 % 2 ^ 64) 7 bs in
    EndsAt-if length _ (ltb b 128) _ more (λ _. omega arith)
      (λ _. EndsAt-of_TakesAt length _ more (uvarint_takes 9 _ 7 bs))

pub Ends-varint : Ends length read_varint
Ends-varint = Ends-of_Takes length read_varint Takes-varint

pub Ends-full : (n : ℕ) → Ends length (read_full n)
unfolding read_full
Ends-full n = record {
  at = λ s.
      EndsAt-if length _ (leb n (length s)) _ _ (λ h. rw length-drop (omega arith))
        (λ h. omega arith);
}

pub Ends-string : Ends length read_string
unfolding read_string
Ends-string =
    Ends-bind length _ _ Ends-varint (λ n. Ends-if length _ _ _ (Ends-raise length _) (Ends-full n))

pub Ends-bytes : Ends length read_bytes
unfolding read_bytes
Ends-bytes =
    Ends-bind length _ _ Ends-varint (λ n. Ends-if length _ _ _ (Ends-raise length _) (Ends-full n))

pub Ends-skip : (n : ℕ) → Ends length (skip_varints n)
unfolding skip_varints
Ends-skip zero = Ends-pure length tt
Ends-skip (suc n) = Ends-bind length _ _ Ends-varint (λ _. Ends-skip n)
