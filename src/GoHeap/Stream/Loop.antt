-- ===== src/GoHeap/Stream/Loop.antt =====
-- heapdump/goheap/streaming.go: handleError and Parse.
use heaplens.Base.{ℕ, zero, suc, ◌+◌, List, Bool, true, false, Option, none, some}
use heaplens.Base.{ltb, ◌==◌, if◌then◌else◌, length}
use heaplens.Run.{Outcome, ok, err, panic, stuck, pure, raise, exhausted, ◌>>=◌, ◌>>◌}
use heaplens.GoHeap.Wire
use heaplens.GoHeap.Wire.{Error, eof, invalid_header, wrap, Context, reading_header, reading_tag}
use heaplens.GoHeap.Wire.{parsing_params, parsing_type, parsing_object, parsing_root}
use heaplens.GoHeap.Wire.{parsing_goroutine, skipping_unknown_tag}
use heaplens.GoHeap.Parser.{wrapping}
use heaplens.GoHeap.Parser.Loop.{magic, bytes_eq, tag_eof, tag_params, tag_type, tag_object}
use heaplens.GoHeap.Parser.Loop.{tag_other_root, tag_goroutine}
use heaplens.GoHeap.Stream.{Input, Counted, read_varint, advance, StreamCallbacks}
use heaplens.GoHeap.Stream.{StreamingParser, Streaming, Callback, reading}
use heaplens.GoHeap.Stream.{modify}
use heaplens.GoHeap.Stream.Seek.{seek_to_next_record}
use heaplens.GoHeap.Stream.Records.{skip_unknown, parse_params, parse_type, parse_object}
use heaplens.GoHeap.Stream.Records.{parse_root, parse_goroutine}

-- What the loop makes of the read of a tag.
pub data Next : Type 0 where
  finished : Next
  broken : Error → Next
  tagged : ℕ → Next

abbrev pub next_of : Outcome Error Input ℕ → Outcome Error Input Next
next_of (ok tag s) = ok (tagged tag) s
next_of (err eof s) = ok finished s
next_of (err e s) = ok (broken e) s
next_of panic = panic
next_of stuck = stuck

unfoldable pub read_next : Counted Next
read_next s = next_of (read_varint s)

-- io.ReadFull of the header, and its 16 bytes in the progress once it is right.
abbrev pub header_outcome : Input → Outcome Error (List ℕ) (List ℕ) → Outcome Error Input (Unit {0})
header_outcome s (ok header left) =
    if bytes_eq header magic
    then ok tt (advance 16 left s)
    else err (invalid_header header) (record s { left = left })
header_outcome s (err e left) = err (wrap reading_header e) (record s { left = left })
header_outcome s panic = panic
header_outcome s stuck = stuck

unfoldable pub read_header : Counted (Unit {0})
read_header s = header_outcome s (Wire.read_full 16 s.left)

-- The cases of the switch on the tag, below tagEOF.
pub data StreamCase : Type 0 where
  params typ object other_root goroutine unknown : StreamCase

unfoldable pub stream_case : ℕ → StreamCase
stream_case tag =
    if tag == tag_params
    then params
    else if tag == tag_type
    then typ
    else if tag == tag_object
    then object
    else if tag == tag_other_root
    then other_root
    else if tag == tag_goroutine
    then goroutine
    else unknown

abbrev pub is_set : {A : Type 0} → Option A → Bool
is_set none = false
is_set (some a) = true

module _ {U : Type 0} where
  abbrev pub count_error : StreamingParser U → StreamingParser U
  count_error p = record p { error_count = p.error_count + 1 }

  -- handleError after OnError has agreed.
  unfoldable pub recover : Streaming U Bool
  recover p =
      if ltb p.max_errors p.error_count
      then ok false p
      else if p.skip_on_error
      then ok true (record p { input = record p.input { left = seek_to_next_record p.input.left } })
      else ok false p

  abbrev pub recover_unless : Option ℕ → Streaming U Bool
  recover_unless none p = recover p
  recover_unless (some code) p = ok false p

  abbrev pub report : Option (Error → Bool → Callback U) → Error → Streaming U Bool
  report none e p = recover p
  report (some on_error) e p =
      let (reply, user) = on_error e p.skip_on_error p.user in
      recover_unless reply (record p { user = user })

module _ {U : Type 0} (callbacks : StreamCallbacks U) where
  unfoldable pub handle_error : Error → Streaming U Bool
  handle_error e p = report callbacks.on_error e (count_error p)

  -- `if !p.handleError(handled) { return returned }`
  unfoldable pub or_return : Error → Error → Streaming U (Unit {0})
  or_return handled returned = do
    recovered ← handle_error handled
    if recovered then pure tt else raise returned

  -- `if err := m(); err != nil { if !p.handleError(fmt.Errorf("c: %w", err)) { return … } }`, where the
  -- error that is returned is `wrapped` or not.
  abbrev pub guard_outcome :
      Context
      → Bool
      → Outcome Error (StreamingParser U) (Unit {0})
      → Outcome Error (StreamingParser U) (Unit {0})
  guard_outcome c wrapped (ok u p) = ok u p
  guard_outcome c wrapped (err e p) = or_return (wrap c e) (if wrapped then wrap c e else e) p
  guard_outcome c wrapped panic = panic
  guard_outcome c wrapped stuck = stuck

  unfoldable pub guarded : Context → Bool → Streaming U (Unit {0}) → Streaming U (Unit {0})
  guarded c wrapped m p = guard_outcome c wrapped (m p)

  unfoldable pub parse_case : StreamCase → ℕ → Streaming U (Unit {0})
  parse_case params tag = wrapping parsing_params (parse_params callbacks)
  parse_case typ tag =
      if is_set callbacks.on_type
      then wrapping parsing_type (parse_type callbacks)
      else guarded parsing_type true (parse_type callbacks)
  parse_case object tag = guarded parsing_object false (parse_object callbacks)
  parse_case other_root tag = guarded parsing_root false (parse_root callbacks)
  parse_case goroutine tag = guarded parsing_goroutine false (parse_goroutine callbacks)
  parse_case unknown tag = guarded (skipping_unknown_tag tag) false (reading (skip_unknown tag))

  abbrev pub report_progress : Option (ℕ → ℕ → U → U) → StreamingParser U → StreamingParser U
  report_progress none p = p
  report_progress (some on_progress) p = record p {
    user = on_progress p.input.progress p.record_count p.user;
  }

  unfoldable pub send_progress : Streaming U (Unit {0})
  send_progress = modify (report_progress callbacks.on_progress)

  -- p.recordCount.Add(1), on an int64 that counts up from 0.
  unfoldable pub count_record : Streaming U (Unit {0})
  count_record = modify (λ p. record p { record_count = p.record_count + 1 })

  -- A round takes a byte at least, so the length of the input bounds the rounds.
  unfoldable pub parse_loop : ℕ → Streaming U (Unit {0})
  parse_loop zero = exhausted
  parse_loop (suc fuel) = do
    next ← reading read_next
    elim next [
      | finished ↦ send_progress
      | broken e ↦ do or_return (wrap reading_tag e) e; parse_loop fuel
      | tagged tag ↦ do
        count_record
        elim (tag == tag_eof) [
          | true ↦ pure tt
          | false ↦ do parse_case (stream_case tag) tag; parse_loop fuel
        ]
    ]

  -- (*StreamingParser).Parse
  unfoldable pub parse_stream : Streaming U (Unit {0})
  parse_stream = do
    reading read_header
    send_progress
    λ p. parse_loop (suc (length p.input.left)) p
