-- ===== src/GoHeap/Stream/Records.antt =====
-- heapdump/goheap/streaming.go: the methods that read one record and call its callback.
use heaplens.Base.{ℕ, zero, suc, List, [], ◌++◌, Bool, true, false, not, Option, none, some}
use heaplens.Base.{ltb, ◌==◌, if◌then◌else◌, length}
use heaplens.Run.{pure, raise, crash, exhausted, ◌>>=◌, ◌>>◌}
use heaplens.GoHeap.Wire.{unknown_tag, reading_arch, reading_go_version}
use heaplens.GoHeap.Records.Parsers.{field_kind_eol}
use heaplens.GoHeap.Pointers.{field_pointers}
use heaplens.GoHeap.Parser.{TypeInfo, wrapping}
use heaplens.GoHeap.Parser.Objects.{type_address}
use heaplens.GoHeap.Stream.{Counted, read_varint, read_string, read_bytes}
use heaplens.GoHeap.Stream.{DumpParams, StreamCallbacks, Streaming}
use heaplens.GoHeap.Stream.{reading, modify, call}
use mathlib.Core.Option

-- A step that may panic.
abbrev pub or_crash : {A : Type 0} → Option A → Counted A
or_crash none = crash
or_crash (some a) = pure a

unfoldable pub skip_varints : ℕ → Counted (Unit {0})
skip_varints zero = pure tt
skip_varints (suc n) = do _ ← read_varint; skip_varints n

unfoldable pub skip_unknown : ℕ → Counted (Unit {0})
skip_unknown tag = if ltb tag 20 then skip_varints 5 else raise (unknown_tag tag)

unfoldable pub read_type : Counted TypeInfo
read_type = do
  addr ← read_varint
  size ← read_varint
  name ← read_string
  indirect ← read_varint
  pure (record { address = addr; size = size; name = name; indirect = not (indirect == 0) })

pub record StreamObject : Type 0 where
  pub addr : ℕ
  pub type_addr : ℕ
  pub bytes : List ℕ
  pub pointers : List ℕ

-- The loop over the fields, with the pointer values appended to `pointers`.
unfoldable pub read_pointers_loop : ℕ → List ℕ → ℕ → Bool → List ℕ → Counted (List ℕ)
read_pointers_loop zero bytes pointer_size big_endian pointers = exhausted
read_pointers_loop (suc fuel) bytes pointer_size big_endian pointers = do
  kind ← read_varint
  elim (kind == field_kind_eol) [
    | true ↦ pure pointers
    | false ↦ do
      offset ← read_varint
      more ←
          or_crash
            (field_pointers bytes (record { kind = kind; offset = offset }) pointer_size big_endian)
      read_pointers_loop fuel bytes pointer_size big_endian (pointers ++ more)
  ]

unfoldable pub read_pointers : List ℕ → ℕ → Bool → Counted (List ℕ)
read_pointers bytes pointer_size big_endian s =
    read_pointers_loop (suc (length s.left)) bytes pointer_size big_endian [] s

-- `var typeAddr uint64` stays 0 where the contents are shorter than a word.
abbrev pub or_zero : Option ℕ → ℕ
or_zero none = 0
or_zero (some addr) = addr

unfoldable pub read_object : ℕ → Bool → Counted StreamObject
read_object pointer_size big_endian = do
  addr ← read_varint
  bytes ← read_bytes
  type_addr ← or_crash (type_address bytes pointer_size big_endian)
  pointers ← read_pointers bytes pointer_size big_endian
  pure (record { addr = addr; type_addr = or_zero type_addr; bytes = bytes; pointers = pointers })

pub record StreamRoot : Type 0 where
  pub desc : List ℕ
  pub ptr : ℕ

unfoldable pub read_root : Counted StreamRoot
read_root = do desc ← read_string; ptr ← read_varint; pure (record { desc = desc; ptr = ptr })

pub record StreamGoroutine : Type 0 where
  pub id : ℕ
  pub status : ℕ
  pub wait_reason : List ℕ

unfoldable pub read_goroutine : Counted StreamGoroutine
read_goroutine = do
  _ ← read_varint
  _ ← read_varint
  id ← read_varint
  status ← read_varint
  _ ← read_varint
  _ ← read_varint
  _ ← read_varint
  wait_reason ← read_string
  skip_varints 4
  pure (record { id = id; status = status; wait_reason = wait_reason })

module _ {U : Type 0} (callbacks : StreamCallbacks U) where
  abbrev set_params : (DumpParams → DumpParams) → Streaming U (Unit {0})
  set_params f = modify (λ p. record p { params = f p.params })

  -- What is read before an error stays in the parameters.
  unfoldable pub parse_params : Streaming U (Unit {0})
  parse_params = do
    big_endian ← reading read_varint
    set_params (λ q. record q { big_endian = not (big_endian == 0) })
    pointer_size ← reading read_varint
    set_params (λ q. record q { pointer_size = pointer_size })
    heap_start ← reading read_varint
    set_params (λ q. record q { heap_start = heap_start })
    heap_end ← reading read_varint
    set_params (λ q. record q { heap_end = heap_end })
    arch ← wrapping reading_arch (reading read_string)
    set_params (λ q. record q { arch = arch })
    go_version ← wrapping reading_go_version (reading read_string)
    set_params (λ q. record q { go_version = go_version })
    num_cpus ← reading read_varint
    set_params (λ q. record q { num_cpus = num_cpus })
    λ p. call (Option.map (λ f. f p.params) callbacks.on_params) p

  unfoldable pub parse_type : Streaming U (Unit {0})
  parse_type = do
    t ← reading read_type
    call (Option.map (λ f. f t.address t.size t.name t.indirect) callbacks.on_type)

  unfoldable pub parse_object : Streaming U (Unit {0})
  parse_object p =
      (do
        o ← reading (read_object p.params.pointer_size p.params.big_endian)
        call (Option.map (λ f. f o.addr o.type_addr o.bytes o.pointers) callbacks.on_object))
        p

  unfoldable pub parse_root : Streaming U (Unit {0})
  parse_root = do o ← reading read_root; call (Option.map (λ f. f o.desc o.ptr) callbacks.on_root)

  unfoldable pub parse_goroutine : Streaming U (Unit {0})
  parse_goroutine = do
    o ← reading read_goroutine
    call (Option.map (λ f. f o.id o.status o.wait_reason) callbacks.on_goroutine)
