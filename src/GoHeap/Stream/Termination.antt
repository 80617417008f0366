-- ===== src/GoHeap/Stream/Termination.antt =====
-- heapdump/goheap/streaming.go: the end of Parse.
use heaplens.Base.{ℕ, zero, suc, ◌≤◌, ◌<◌, ◌≡◌, ◌≢◌, refl, arith, List, [], ◌∷◌, length}
use heaplens.Base.{◌==◌, Option, none, some}
use heaplens.Run.{Outcome, ok, err, panic, stuck, pure, continue, ◌>>=◌, ◌>>◌}
use heaplens.Run.Ends.{EndsAt, Ends, Ends-bind}
use heaplens.Run.Ends.{EndsAt-bool, EndsAt-continue, EndsAt-mono, EndsAt-if}
use mathlib.Core.Path.{subst}
use heaplens.GoHeap.Wire
use heaplens.GoHeap.Wire.{
  Error, Context, wrap, reading_tag, eof, unexpected_eof, varint_overflow, string_too_long,
}
use heaplens.GoHeap.Wire.{parsing_params, parsing_type}
use heaplens.GoHeap.Wire.Totality.{Ends-full, varint_after}
use heaplens.GoHeap.Parser.Loop.{magic, bytes_eq, tag_eof}
use heaplens.GoHeap.Stream.{Input, tally, read_varint, StreamCallbacks, StreamingParser}
use heaplens.GoHeap.Stream.{Streaming, reading, resume}
use heaplens.GoHeap.Stream.Loop.{
  Next, finished, broken, tagged, next_of, read_next, read_header, header_outcome,
}
use heaplens.GoHeap.Stream.Loop.{stream_case}
use heaplens.GoHeap.Stream.Loop.{or_return, parse_case}
use heaplens.GoHeap.Stream.Loop.{
  report_progress, send_progress, count_record, parse_loop, parse_stream,
}
use heaplens.GoHeap.Stream.Totality.{input_left}
use heaplens.GoHeap.Stream.Ending.{left, Ends-reading, Ends-modify, Ends-or_return, Ends-case}

header_ends :
    (s : Input) (o : Outcome Error (List ℕ) (List ℕ)) (n : ℕ)
    → EndsAt length n o
    → EndsAt input_left n (header_outcome s o)
header_ends s (ok header r) n h =
    EndsAt-if input_left n (bytes_eq header magic) _ _ (λ _. h) (λ _. h)
header_ends s (err e r) n h = h
header_ends s panic n h = h
header_ends s stuck n h = h

Ends-header : Ends input_left read_header
unfolding read_header
Ends-header = record {
  at = λ s. header_ends s (Wire.read_full 16 s.left) (length s.left) ((Ends-full 16).at s.left);
}

-- What is left after the next tag, which the end of the file is not.
abbrev AfterNext : {U : Type 0} → ℕ → Outcome Error (StreamingParser U) Next → Type 0
AfterNext n (ok finished p) = left p ≤ n
AfterNext n (ok (broken e) p) = left p < n
AfterNext n (ok (tagged tag) p) = left p < n
AfterNext n (err e p) = left p ≤ n
AfterNext n panic = Unit {0}
AfterNext n stuck = ⊥

module _ {U : Type 0} where
  next_after :
      (p : StreamingParser U) (s : Input) (n : ℕ) (o : Outcome Error (List ℕ) ℕ)
      → EndsAt length n o
      → AfterNext (suc n) (resume p (next_of (tally 1 0 s o)))
  next_after p s n (ok tag r) h = omega arith
  next_after p s n (err eof r) h = omega arith
  next_after p s n (err unexpected_eof r) h = omega arith
  next_after p s n (err varint_overflow r) h = omega arith
  next_after p s n (err (string_too_long k) r) h = omega arith
  next_after p s n (err e r) h = omega arith
  next_after p s n panic h = h
  next_after p s n stuck h = h

  next_left :
      (p : StreamingParser U) (bytes : List ℕ) (progress : ℕ)
      → AfterNext
          (length bytes)
          (resume p (next_of (read_varint (record { left = bytes; progress = progress }))))
  unfolding read_varint Wire.read_varint Wire.read_uvarint_loop
  next_left p [] progress = omega arith
  next_left p (b ∷ bs) progress =
      next_after p (record { left = b ∷ bs; progress = progress }) (length bs)
        (Wire.read_varint (b ∷ bs)) (varint_after b bs)

  -- One round of the loop, once the tag is read.
  round-Ends :
      (n : ℕ) (next : Next → Streaming U (Unit {0}))
      → Ends left (next finished)
      → ((e : Error) (q : StreamingParser U)
          → left q < n
          → EndsAt left (left q) (next (broken e) q))
      → ((tag : ℕ) (q : StreamingParser U)
          → left q < n
          → EndsAt left (left q) (next (tagged tag) q))
      → (o : Outcome Error (StreamingParser U) Next) → AfterNext n o
      → EndsAt left n (continue o next)
  round-Ends n next hf hb ht (ok finished p) h = EndsAt-mono left n (left p) _ (hf.at p) h
  round-Ends n next hf hb ht (ok (broken e) p) h =
      EndsAt-mono left n (left p) _ (hb e p h) (omega arith)
  round-Ends n next hf hb ht (ok (tagged tag) p) h =
      EndsAt-mono left n (left p) _ (ht tag p h) (omega arith)
  round-Ends n next hf hb ht (err e p) h = h
  round-Ends n next hf hb ht panic h = h
  round-Ends n next hf hb ht stuck h = h

module _ {U : Type 0} (callbacks : StreamCallbacks U) where
  progress_input :
      (on_progress : Option (ℕ → ℕ → U → U)) (p : StreamingParser U)
      → (report_progress callbacks on_progress p).input ≡ p.input
  progress_input none p = refl
  progress_input (some on_progress) p = refl

  Ends-progress : Ends left (send_progress callbacks)
  unfolding send_progress
  Ends-progress = Ends-modify _ (progress_input callbacks.on_progress)

  Ends-count : Ends left (count_record callbacks)
  unfolding count_record
  Ends-count = Ends-modify _ (λ p. refl)

  loop_ends :
      (fuel : ℕ) (p : StreamingParser U)
      → left p < fuel
      → EndsAt left (left p) (parse_loop callbacks fuel p)
  unfolding parse_loop ◌>>=◌ reading read_next
  loop_ends zero p h = absurd (omega arith)
  loop_ends (suc fuel) p h =
      round-Ends (left p) _ (Ends-progress)
        (λ e q lt.
          EndsAt-continue left (left q) (or_return callbacks (wrap reading_tag e) e q) _
            ((Ends-or_return callbacks (wrap reading_tag e) e).at q)
            (λ _ u le. loop_ends fuel u (omega arith)))
        (λ tag q lt.
          EndsAt-continue left (left q) (count_record callbacks q) _ (Ends-count.at q) (λ _ u lu.
            EndsAt-bool left (left u) (pure tt)
              (parse_case callbacks (stream_case tag) tag >> parse_loop callbacks fuel)
              (tag == tag_eof) u (omega arith)
              (EndsAt-continue left (left u) (parse_case callbacks (stream_case tag) tag u) _
                ((Ends-case callbacks (stream_case tag) tag).at u)
                (λ _ v le. loop_ends fuel v (omega arith)))))
        (resume p (next_of (read_varint p.input))) (next_left p p.input.left p.input.progress)

  Ends-stream : Ends left (parse_stream callbacks)
  unfolding parse_stream
  Ends-stream = Ends-bind left _ _ (Ends-reading _ Ends-header) (λ _.
      Ends-bind left _ _ Ends-progress
        (λ _. record { at = λ p. loop_ends (suc (left p)) p (omega arith) }))

-- On every input, of any bytes, and whatever the callbacks answer, a streaming parse comes to an end.
pub parse_stream-ne-stuck :
    {U : Type 0} (callbacks : StreamCallbacks U) (p : StreamingParser U)
    → parse_stream callbacks p ≢ stuck
parse_stream-ne-stuck callbacks p e = subst (EndsAt left (left p)) e ((Ends-stream callbacks).at p)
