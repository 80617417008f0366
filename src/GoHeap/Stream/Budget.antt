-- ===== src/GoHeap/Stream/Budget.antt =====
-- heapdump/goheap/streaming.go: how often Parse calls OnError.
use heaplens.Base.{ℕ, zero, suc, ◌+◌, ◌≤◌, ◌≡◌, refl, sym, ◌∙◌, arith, length}
use heaplens.Base.{
  Bool-cases, inl, inr, Bool, true, false, ◌==◌, Option, none, some, ltb, if◌then◌else◌,
}
use heaplens.Run.{Outcome, ok, err, panic, stuck, pure, raise, continue, ◌>>=◌, ◌>>◌}
use heaplens.GoHeap.Wire.{Error, Context, wrap, reading_tag}
use heaplens.GoHeap.Parser.Loop.{tag_eof}
use heaplens.GoHeap.Stream.{StreamCallbacks, StreamingParser, Streaming, Callback}
use heaplens.GoHeap.Stream.Records.{skip_unknown}
use heaplens.GoHeap.Stream.Loop.{Next, finished, broken, tagged, read_next, read_header}
use heaplens.GoHeap.Stream.Loop.{StreamCase, params, typ, object, other_root, goroutine, unknown}
use heaplens.GoHeap.Stream.Loop.{stream_case, is_set, count_error, recover, recover_unless, report}
use heaplens.GoHeap.Stream.Loop.{handle_error, or_return, guard_outcome, guarded, parse_case}
use heaplens.GoHeap.Stream.Loop.{report_progress, send_progress, count_record, parse_loop}
use heaplens.GoHeap.Stream.Loop.{parse_stream}
use heaplens.GoHeap.Stream.Quiet.{CountsErrors, IsCounter, IsSilentProgress}
use heaplens.GoHeap.Stream.Quiet.{Same, QuietAt, Quiet, Quiet-reading, Quiet-modify, Quiet-wrapping}
use heaplens.GoHeap.Stream.Quiet.{
  Quiet-params, Quiet-type, Quiet-object, Quiet-root, Quiet-goroutine,
}

-- The errors that a parse may recover from.
abbrev pub allowed : ℕ → Bool → ℕ
allowed max_errors skip_on_error = if skip_on_error then max_errors else 0

module _ {U : Type 0} (calls : U → ℕ) (start max_errors : ℕ) (skip_on_error : Bool) where
  -- Every error that was counted is a call of OnError since there were `start`.
  abbrev IsTallied : StreamingParser U → Type 0
  IsTallied p = calls p.user ≡ start + p.error_count

  -- The settings are these, and there were no more errors than they allow.
  abbrev Within : StreamingParser U → Type 0
  Within p =
      (p.max_errors ≡ max_errors)
      × (p.skip_on_error ≡ skip_on_error)
      × (p.error_count ≤ allowed max_errors skip_on_error)
      × IsTallied p

  -- The same with one error more, and whatever the settings.
  abbrev IsOver : StreamingParser U → Type 0
  IsOver q = (q.error_count ≤ allowed max_errors skip_on_error + 1) × IsTallied q

  -- A success is within the budget, and an error is at most one call of OnError over it.
  abbrev pub Budgeted : {A : Type 0} → Outcome Error (StreamingParser U) A → Type 0
  Budgeted (ok a q) = calls q.user ≤ start + allowed max_errors skip_on_error
  Budgeted (err e q) = calls q.user ≤ start + allowed max_errors skip_on_error + 1
  Budgeted panic = Unit {0}
  Budgeted stuck = Unit {0}

  abbrev After : {A : Type 0} → Outcome Error (StreamingParser U) A → Type 0
  After (ok a q) = Within q
  After (err e q) = IsOver q
  After panic = Unit {0}
  After stuck = Unit {0}

  record Keeps {A : Type 0} (m : Streaming U A) : Type 0 where
    at : (p : StreamingParser U) → Within p → After (m p)

  quiet-After :
      {A : Type 0} (p : StreamingParser U) (o : Outcome Error (StreamingParser U) A)
      → Within p
      → QuietAt calls p o
      → After o
  quiet-After p (ok a q) (w, v, u, c) (h, k, l, m) = (h ∙ w, k ∙ v, omega arith, omega arith)
  quiet-After p (err e q) (w, v, u, c) (h, k, l, m) = (omega arith, omega arith)
  quiet-After p panic w h = tt
  quiet-After p stuck w h = tt

  Keeps-Quiet : {A : Type 0} (m : Streaming U A) → Quiet calls m → Keeps m
  Keeps-Quiet m h = record { at = λ p w. quiet-After p (m p) w (h.at p) }

  Keeps-pure : {A : Type 0} (a : A) → Keeps (pure a)
  unfolding ◌>>=◌
  Keeps-pure a = record { at = λ p w. w }

  continue-After :
      {A B : Type 0} (o : Outcome Error (StreamingParser U) A) (f : A → Streaming U B)
      → After o
      → ((a : A) → Keeps (f a))
      → After (continue o f)
  continue-After (ok a q) f h k = (k a).at q h
  continue-After (err e q) f h k = h
  continue-After panic f h k = tt
  continue-After stuck f h k = tt

  Keeps-bind :
      {A B : Type 0} (m : Streaming U A) (f : A → Streaming U B)
      → Keeps m
      → ((a : A) → Keeps (f a))
      → Keeps (m >>= f)
  unfolding ◌>>=◌
  Keeps-bind m f h k = record { at = λ p w. continue-After (m p) f (h.at p w) k }

  -- handleError: to go on is within the budget, to give up is one error over at most.
  abbrev Handled : Outcome Error (StreamingParser U) Bool → Type 0
  Handled (ok true q) = Within q
  Handled (ok false q) = IsOver q
  Handled (err e q) = ⊥
  Handled panic = ⊥
  Handled stuck = ⊥

  recover-Handled :
      (p : StreamingParser U)
      → p.max_errors ≡ max_errors
      → p.skip_on_error ≡ skip_on_error
      → IsOver p
      → Handled (recover p)
  unfolding recover
  recover-Handled p h k (l, c) = elim (Bool-cases (ltb p.max_errors p.error_count)) [
    | inl over ↦ rw over (l, c)
    | inr under ↦ elim (Bool-cases p.skip_on_error) [
      | inl skip ↦
          let set : true ≡ skip_on_error = sym skip ∙ k in
          rw (under, skip) (h, set, ground arith, c)
      | inr stop ↦ rw (under, stop) (l, c)
    ]
  ]

  unless-Handled :
      (reply : Option ℕ) (p : StreamingParser U)
      → p.max_errors ≡ max_errors
      → p.skip_on_error ≡ skip_on_error
      → IsOver p
      → Handled (recover_unless reply p)
  unless-Handled none p h k l = recover-Handled p h k l
  unless-Handled (some code) p h k l = l

  report-Handled :
      (on_error : Option (Error → Bool → Callback U)) (e : Error) (p : StreamingParser U)
      → IsCounter calls on_error
      → Within p
      → Handled (report on_error e (count_error p))
  report-Handled none e p counts w = elim counts [ ]
  report-Handled (some on_error) e p counts (h, k, l, c) =
      let reported = on_error e p.skip_on_error p.user in
      let counted = counts e p.skip_on_error p.user in
      unless-Handled reported.0 (record (count_error p) { user = reported.1 }) h k
        (omega arith, omega arith)

  Handled-After :
      (returned : Error) (o : Outcome Error (StreamingParser U) Bool)
      → Handled o
      → After (continue o (λ b. if b then pure tt else raise returned))
  unfolding ◌>>=◌
  Handled-After returned (ok true q) h = h
  Handled-After returned (ok false q) h = h
  Handled-After returned (err e q) h = elim h [ ]
  Handled-After returned panic h = elim h [ ]
  Handled-After returned stuck h = elim h [ ]

  module _ (callbacks : StreamCallbacks U) (counts : CountsErrors calls callbacks) where
    Keeps-or_return : (handled returned : Error) → Keeps (or_return callbacks handled returned)
    unfolding or_return handle_error ◌>>=◌
    Keeps-or_return handled returned = record {
      at = λ p w.
          Handled-After returned _ (report-Handled callbacks.on_error handled p counts.on_error w);
    }

    guard-After :
        (c : Context) (wrapped : Bool) (p : StreamingParser U)
        (o : Outcome Error (StreamingParser U) (Unit {0}))
        → Within p
        → QuietAt calls p o
        → After (guard_outcome callbacks c wrapped o)
    guard-After c wrapped p (ok u q) w h = quiet-After p (ok u q) w h
    guard-After c wrapped p (err e q) (w, v, u, m) (h, k, l, n) =
        (Keeps-or_return (wrap c e) (if wrapped then wrap c e else e)).at q
          (h ∙ w, k ∙ v, omega arith, omega arith)
    guard-After c wrapped p panic w h = tt
    guard-After c wrapped p stuck w h = tt

    Keeps-guarded :
        (c : Context) (wrapped : Bool) (m : Streaming U (Unit {0}))
        → Quiet calls m
        → Keeps (guarded callbacks c wrapped m)
    unfolding guarded
    Keeps-guarded c wrapped m h = record { at = λ p w. guard-After c wrapped p (m p) w (h.at p) }

    Keeps-if :
        (b : Bool) (m k : Streaming U (Unit {0})) → Keeps m → Keeps k → Keeps (if b then m else k)
    Keeps-if true m k hm hk = hm
    Keeps-if false m k hm hk = hk

    Keeps-case : (c : StreamCase) (tag : ℕ) → Keeps (parse_case callbacks c tag)
    unfolding parse_case
    Keeps-case params tag =
        Keeps-Quiet _ (Quiet-wrapping calls _ _ (Quiet-params calls callbacks counts))
    Keeps-case typ tag =
        Keeps-if (is_set callbacks.on_type) _ _
          (Keeps-Quiet _ (Quiet-wrapping calls _ _ (Quiet-type calls callbacks counts)))
          (Keeps-guarded _ true _ (Quiet-type calls callbacks counts))
    Keeps-case object tag = Keeps-guarded _ false _ (Quiet-object calls callbacks counts)
    Keeps-case other_root tag = Keeps-guarded _ false _ (Quiet-root calls callbacks counts)
    Keeps-case goroutine tag = Keeps-guarded _ false _ (Quiet-goroutine calls callbacks counts)
    Keeps-case unknown tag = Keeps-guarded _ false _ (Quiet-reading calls (skip_unknown tag))

    progress-Same :
        (on_progress : Option (ℕ → ℕ → U → U)) (p : StreamingParser U)
        → IsSilentProgress calls on_progress
        → Same calls p (report_progress callbacks on_progress p)
    progress-Same none p silent = (refl, refl, refl, refl)
    progress-Same (some on_progress) p silent =
        (refl, refl, refl, silent p.input.progress p.record_count p.user)

    Keeps-progress : Keeps (send_progress callbacks)
    unfolding send_progress
    Keeps-progress =
        Keeps-Quiet _
          (Quiet-modify calls _ (λ p. progress-Same callbacks.on_progress p counts.on_progress))

    Keeps-count : Keeps (count_record callbacks)
    unfolding count_record
    Keeps-count = Keeps-Quiet _ (Quiet-modify calls _ (λ p. (refl, refl, refl, refl)))

    Keeps-choice :
        (b : Bool) (m k : Streaming U (Unit {0}))
        → Keeps m
        → Keeps k
        → Keeps (elim b as (λ _. Streaming U (Unit {0})) [ true ↦ m | false ↦ k ])
    Keeps-choice true m k hm hk = hm
    Keeps-choice false m k hm hk = hk

    Keeps-next :
        (next : Next) (m : Streaming U (Unit {0}))
        → Keeps m
        → Keeps (elim next as (λ _. Streaming U (Unit {0})) [
          | finished ↦ send_progress callbacks
          | broken e ↦ (or_return callbacks (wrap reading_tag e) e >> m)
          | tagged tag ↦
              (count_record callbacks >> (elim (tag == tag_eof) [
                | true ↦ pure tt
                | false ↦ (parse_case callbacks (stream_case tag) tag >> m)
              ]))
        ])
    Keeps-next finished m h = Keeps-progress
    Keeps-next (broken e) m h = Keeps-bind _ _ (Keeps-or_return _ _) (λ _. h)
    Keeps-next (tagged tag) m h = Keeps-bind _ _ Keeps-count (λ _.
        Keeps-choice (tag == tag_eof) (pure tt) _ (Keeps-pure tt)
          (Keeps-bind _ _ (Keeps-case (stream_case tag) tag) (λ _. h)))

    Keeps-loop : (fuel : ℕ) → Keeps (parse_loop callbacks fuel)
    unfolding parse_loop
    Keeps-loop zero = record { at = λ p w. unfold ◌>>=◌ in tt }
    Keeps-loop (suc fuel) =
        Keeps-bind _ _ (Keeps-Quiet _ (Quiet-reading calls read_next))
          (λ next. Keeps-next next (parse_loop callbacks fuel) (Keeps-loop fuel))

    Keeps-stream : Keeps (parse_stream callbacks)
    unfolding parse_stream
    Keeps-stream = Keeps-bind _ _ (Keeps-Quiet _ (Quiet-reading calls read_header)) (λ _.
        Keeps-bind _ _ Keeps-progress
          (λ _. record { at = λ p w. (Keeps-loop (suc (length p.input.left))).at p w }))

  budget_of_After : {A : Type 0} (o : Outcome Error (StreamingParser U) A) → After o → Budgeted o
  budget_of_After (ok a q) (w, v, u, c) = omega arith
  budget_of_After (err e q) (u, c) = omega arith
  budget_of_After panic h = tt
  budget_of_After stuck h = tt

-- A parse that returns nil has called OnError at most maxErrors times, and never where errors are not
-- to be skipped. One that returns an error has called it once more at most. OnError is set and counts
-- its calls, and the other callbacks leave that count as it is; no errors are counted at the start.
pub parse_stream-Budgeted :
    {U : Type 0} (calls : U → ℕ) (callbacks : StreamCallbacks U) (p : StreamingParser U)
    → CountsErrors calls callbacks
    → p.error_count ≡ 0
    → Budgeted calls (calls p.user) p.max_errors p.skip_on_error (parse_stream callbacks p)
parse_stream-Budgeted calls callbacks p counts none_yet =
    budget_of_After calls (calls p.user) p.max_errors p.skip_on_error (parse_stream callbacks p) (
      (Keeps-stream calls (calls p.user) p.max_errors p.skip_on_error callbacks counts).at p
        (refl, refl, omega arith, omega arith))
