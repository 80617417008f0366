-- ===== src/GoHeap/Stream/Ending.antt =====
-- heapdump/goheap/streaming.go: the methods that read a record, and the handling of errors, on any
-- input.
use heaplens.Base.{ℕ, ◌≡◌, refl, arith, length}
use heaplens.Base.{Bool, true, false, Option, none, some, ltb, if◌then◌else◌}
use heaplens.Run.{Outcome, ok, err, panic, stuck, ◌>>=◌, ◌>>◌}
use heaplens.Run.Ends.{EndsAt, Ends, Ends-pure, Ends-raise, Ends-if, Ends-bind}
use heaplens.Run.Ends.{EndsAt-mono, EndsAt-if}
use heaplens.GoHeap.Wire.{Error, Context, wrap}
use heaplens.GoHeap.Parser.Termination.{Ends-wrapping}
use heaplens.GoHeap.Stream.{
  Input, Counted, read_varint, read_string, StreamCallbacks, StreamingParser,
}
use heaplens.GoHeap.Stream.{Streaming, Callback, reading, resume, modify, answer, call}
use heaplens.GoHeap.Stream.Seek.Found.{length-seek_to_next_record}
use heaplens.GoHeap.Stream.Records.{
  parse_params, parse_type, parse_object, parse_root, parse_goroutine,
}
use heaplens.GoHeap.Stream.Loop.{StreamCase, params, typ, object, other_root, goroutine, unknown}
use heaplens.GoHeap.Stream.Loop.{is_set, count_error, recover, recover_unless, report}
use heaplens.GoHeap.Stream.Loop.{handle_error, or_return, guard_outcome, guarded, parse_case}
use heaplens.GoHeap.Stream.Totality.{input_left, Ends-varint, Ends-string, Ends-type}
use heaplens.GoHeap.Stream.Totality.{Ends-object, Ends-root, Ends-goroutine, Ends-unknown}

abbrev pub left : {U : Type 0} → StreamingParser U → ℕ
left p = length p.input.left

module _ {U : Type 0} where
  resume_ends :
      {A : Type 0} (p : StreamingParser U) (o : Outcome Error Input A) (n : ℕ)
      → EndsAt input_left n o
      → EndsAt left n (resume p o)
  resume_ends p (ok a r) n h = h
  resume_ends p (err e r) n h = h
  resume_ends p panic n h = h
  resume_ends p stuck n h = h

  pub Ends-reading :
      {A : Type 0} (m : Counted A) → Ends input_left m → Ends left (reading {U = U} m)
  unfolding reading
  Ends-reading m h = record { at = λ p. resume_ends p (m p.input) (left p) (h.at p.input) }

  -- A change of the fields that leaves the input alone.
  pub Ends-modify :
      (f : StreamingParser U → StreamingParser U)
      → ((p : StreamingParser U) → (f p).input ≡ p.input)
      → Ends left (modify f)
  unfolding modify
  Ends-modify f h = record { at = λ p. rw (h p) (omega arith) }

  answer_ends : (reply : Option ℕ) (p : StreamingParser U) → EndsAt left (left p) (answer reply p)
  answer_ends none p = omega arith
  answer_ends (some code) p = omega arith

  Ends-call : (callback : Option (Callback U)) → Ends left (call callback)
  unfolding call
  Ends-call none = record { at = λ p. omega arith }
  Ends-call (some callback) = record {
    at = λ p. let (reply, user) = callback p.user in answer_ends reply (record p { user = user });
  }

  Ends-recover : Ends (left {U = U}) recover
  unfolding recover
  Ends-recover = record {
    at = λ p.
        EndsAt-if left _ (ltb p.max_errors p.error_count) _ _ (λ _. omega arith)
          (λ _.
            EndsAt-if left _ p.skip_on_error _ _ (λ _. length-seek_to_next_record p.input.left)
              (λ _. omega arith));
  }

  unless_ends :
      (reply : Option ℕ) (p : StreamingParser U) → EndsAt left (left p) (recover_unless reply p)
  unless_ends none p = Ends-recover.at p
  unless_ends (some code) p = omega arith

  report_ends :
      (on_error : Option (Error → Bool → Callback U)) (e : Error) (p : StreamingParser U)
      → EndsAt left (left p) (report on_error e p)
  report_ends none e p = Ends-recover.at p
  report_ends (some on_error) e p =
      let (reply, user) = on_error e p.skip_on_error p.user in
      unless_ends reply (record p { user = user })

-- A value that is read and then kept by a change of the fields.
Ends-field :
    {U A B : Type 0} (m : Streaming U B) (f : B → StreamingParser U → StreamingParser U)
    (k : Streaming U A)
    → Ends left m
    → ((b : B) (p : StreamingParser U) → (f b p).input ≡ p.input)
    → Ends left k
    → Ends left (m >>= λ b. modify (f b) >> k)
Ends-field m f k hm hf hk =
    Ends-bind left _ _ hm (λ b. Ends-bind left _ _ (Ends-modify (f b) (hf b)) (λ _. hk))

module _ {U : Type 0} (callbacks : StreamCallbacks U) where
  Ends-handle_error : (e : Error) → Ends left (handle_error callbacks e)
  unfolding handle_error
  Ends-handle_error e = record { at = λ p. report_ends callbacks.on_error e (count_error p) }

  pub Ends-or_return : (handled returned : Error) → Ends left (or_return callbacks handled returned)
  unfolding or_return
  Ends-or_return handled returned =
      Ends-bind left _ _ (Ends-handle_error handled)
        (λ b. Ends-if left b _ _ (Ends-pure left tt) (Ends-raise left returned))

  guard_ends :
      (c : Context) (wrapped : Bool) (o : Outcome Error (StreamingParser U) (Unit {0})) (n : ℕ)
      → EndsAt left n o
      → EndsAt left n (guard_outcome callbacks c wrapped o)
  guard_ends c wrapped (ok u p) n h = h
  guard_ends c wrapped (err e p) n h =
      EndsAt-mono left n (left p)
        (or_return callbacks (wrap c e) (if wrapped then wrap c e else e) p)
        ((Ends-or_return (wrap c e) (if wrapped then wrap c e else e)).at p) h
  guard_ends c wrapped panic n h = h
  guard_ends c wrapped stuck n h = h

  Ends-guarded :
      (c : Context) (wrapped : Bool) (m : Streaming U (Unit {0}))
      → Ends left m
      → Ends left (guarded callbacks c wrapped m)
  unfolding guarded
  Ends-guarded c wrapped m h = record { at = λ p. guard_ends c wrapped (m p) (left p) (h.at p) }

  Ends-params : Ends left (parse_params callbacks)
  unfolding parse_params
  Ends-params =
      let number = Ends-reading {U = U} read_varint Ends-varint in
      let text = λ (c : Context).
        Ends-wrapping {S = StreamingParser U} left c _ (Ends-reading read_string Ends-string) in
      Ends-field _ _ _ number (λ b p. refl)
        (Ends-field _ _ _ number (λ b p. refl)
          (Ends-field _ _ _ number (λ b p. refl)
            (Ends-field _ _ _ number (λ b p. refl)
              (Ends-field _ _ _ (text _) (λ b p. refl)
                (Ends-field _ _ _ (text _) (λ b p. refl)
                  (Ends-field _ _ _ number (λ b p. refl)
                    (record { at = λ p. (Ends-call _).at p })))))))

  -- A record that is read, and its callback.
  Ends-called :
      {B : Type 0} (m : Counted B) (f : B → Option (Callback U))
      → Ends input_left m
      → Ends left (reading m >>= λ b. call (f b))
  Ends-called m f h = Ends-bind left _ _ (Ends-reading m h) (λ b. Ends-call (f b))

  Ends-parse_type : Ends left (parse_type callbacks)
  unfolding parse_type
  Ends-parse_type = Ends-called _ _ Ends-type

  Ends-parse_object : Ends left (parse_object callbacks)
  unfolding parse_object
  Ends-parse_object = record {
    at = λ p. (Ends-called _ _ (Ends-object p.params.pointer_size p.params.big_endian)).at p;
  }

  Ends-parse_root : Ends left (parse_root callbacks)
  unfolding parse_root
  Ends-parse_root = Ends-called _ _ Ends-root

  Ends-parse_goroutine : Ends left (parse_goroutine callbacks)
  unfolding parse_goroutine
  Ends-parse_goroutine = Ends-called _ _ Ends-goroutine

  pub Ends-case : (c : StreamCase) (tag : ℕ) → Ends left (parse_case callbacks c tag)
  unfolding parse_case
  Ends-case params tag = Ends-wrapping left _ _ Ends-params
  Ends-case typ tag =
      Ends-if left (is_set callbacks.on_type) _ _ (Ends-wrapping left _ _ Ends-parse_type)
        (Ends-guarded _ true _ Ends-parse_type)
  Ends-case object tag = Ends-guarded _ false _ Ends-parse_object
  Ends-case other_root tag = Ends-guarded _ false _ Ends-parse_root
  Ends-case goroutine tag = Ends-guarded _ false _ Ends-parse_goroutine
  Ends-case unknown tag = Ends-guarded _ false _ (Ends-reading _ (Ends-unknown tag))
