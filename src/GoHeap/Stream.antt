-- ===== src/GoHeap/Stream.antt =====
-- heapdump/goheap/streaming.go: the state of StreamingParser, what it reads with, and its callbacks.
-- The goroutine that reports progress by the clock is left out, and so is the time that it passes on:
-- it changes nothing that Parse reads. A callback is a function of its arguments and of a state of its
-- owner, which it returns with its error; an error of a callback is a number.
pub mod Seek
pub mod Records
pub mod Loop
pub mod Totality
pub mod Ending
pub mod Termination
pub mod Quiet
pub mod Budget
pub mod Items
pub mod Reads
pub mod Agree
mod Examples
pub mod Runs
pub mod Delivery
pub mod Whole
use heaplens.Base.{ℕ, ◌+◌, ◌%◌, ◌^◌, List, [], Bool, true, false, Option, none, some}
use heaplens.Base.{leb, ltb, if◌then◌else◌, length}
use heaplens.Run.{Outcome, ok, err, panic, stuck, Run, raise, ◌>>=◌}
use heaplens.GoHeap.Wire
use heaplens.GoHeap.Wire.{Error, callback_failed, string_too_long, byte_slice_too_long}
use heaplens.GoHeap.Wire.{max_string, max_bytes}

-- What is left of the input, and the atomic counter `progress`.
pub record Input : Type 0 where
  pub left : List ℕ
  pub progress : ℕ

abbrev pub Counted : Type 0 → Type 0
Counted A = Run Error Input A

-- p.progress.Add
abbrev pub advance : ℕ → List ℕ → Input → Input
advance n left s = record { left = left; progress = (s.progress + n) % 2 ^ 64 }

-- The outcome of a read, with what it adds to the progress when it succeeds and when it fails.
abbrev pub tally : {A : Type 0} → ℕ → ℕ → Input → Outcome Error (List ℕ) A → Outcome Error Input A
tally good bad s (ok a left) = ok a (advance good left s)
tally good bad s (err e left) = err e (advance bad left s)
tally good bad s panic = panic
tally good bad s stuck = stuck

unfoldable pub read_varint : Counted ℕ
read_varint s = tally 1 0 s (Wire.read_varint s.left)

-- io.ReadFull into a slice of `n` bytes; the bytes that were there count on an error too.
unfoldable pub read_full : ℕ → Counted (List ℕ)
read_full n s = tally n (length s.left) s (Wire.read_full n s.left)

unfoldable pub read_string : Counted (List ℕ)
read_string = do
  length ← read_varint
  if ltb max_string length then raise (string_too_long length) else read_full length

unfoldable pub read_bytes : Counted (List ℕ)
read_bytes = do
  length ← read_varint
  if ltb max_bytes length then raise (byte_slice_too_long length) else read_full length

pub record DumpParams : Type 0 where
  pub big_endian : Bool
  pub pointer_size : ℕ
  pub heap_start : ℕ
  pub heap_end : ℕ
  pub arch : List ℕ
  pub go_version : List ℕ
  pub num_cpus : ℕ

abbrev pub no_params : DumpParams
no_params = record {
  big_endian = false;
  pointer_size = 0;
  heap_start = 0;
  heap_end = 0;
  arch = [];
  go_version = [];
  num_cpus = 0;
}

-- The owner's state after a call, with the error, if there is one.
abbrev pub Callback : Type 0 → Type 0
Callback U = U → Option ℕ × U

-- `none` where the field is nil.
pub record StreamCallbacks (U : Type 0) : Type 0 where
  pub on_params : Option (DumpParams → Callback U)
  pub on_type : Option (ℕ → ℕ → List ℕ → Bool → Callback U)
  pub on_object : Option (ℕ → ℕ → List ℕ → List ℕ → Callback U)
  pub on_root : Option (List ℕ → ℕ → Callback U)
  pub on_goroutine : Option (ℕ → ℕ → List ℕ → Callback U)
  pub on_progress : Option (ℕ → ℕ → U → U)
  pub on_error : Option (Error → Bool → Callback U)

-- A negative maxErrors acts as 0, so it is a natural number here.
pub record StreamingParser (U : Type 0) : Type 0 where
  pub input : Input
  pub record_count : ℕ
  pub max_errors : ℕ
  pub error_count : ℕ
  pub skip_on_error : Bool
  pub params : DumpParams
  pub user : U

unfoldable pub new_streaming_parser : {U : Type 0} → List ℕ → U → StreamingParser U
new_streaming_parser bytes user = record {
  input = record { left = bytes; progress = 0 };
  record_count = 0;
  max_errors = 100;
  error_count = 0;
  skip_on_error = true;
  params = no_params;
  user = user;
}

unfoldable set_error_recovery : {U : Type 0} → ℕ → Bool → StreamingParser U → StreamingParser U
set_error_recovery max_errors skip_on_error p = record p {
  max_errors = max_errors;
  skip_on_error = skip_on_error;
}

abbrev pub Streaming : Type 0 → Type 0 → Type 0
Streaming U A = Run Error (StreamingParser U) A

module _ {U : Type 0} where
  abbrev pub resume :
      {A : Type 0} → StreamingParser U → Outcome Error Input A → Outcome Error (StreamingParser U) A
  resume p (ok a s) = ok a (record p { input = s })
  resume p (err e s) = err e (record p { input = s })
  resume p panic = panic
  resume p stuck = stuck

  unfoldable pub reading : {A : Type 0} → Counted A → Streaming U A
  reading m p = resume p (m p.input)

  unfoldable pub modify : (StreamingParser U → StreamingParser U) → Streaming U (Unit {0})
  modify f p = ok tt (f p)

  abbrev pub answer : Option ℕ → StreamingParser U → Outcome Error (StreamingParser U) (Unit {0})
  answer none p = ok tt p
  answer (some code) p = err (callback_failed code) p

  -- `if callback != nil { return callback(…) }; return nil`
  unfoldable pub call : Option (Callback U) → Streaming U (Unit {0})
  call none p = ok tt p
  call (some callback) p =
      let (reply, user) = callback p.user in answer reply (record p { user = user })
