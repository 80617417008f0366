-- ===== src/GoHeap/Parser/Objects.antt =====
-- heapdump/goheap/parser.go: the methods that keep what they read (parameters, types, objects, roots).
use heaplens.Base.{ℕ, zero, suc, ◌+◌, ◌%◌, ◌^◌, List, [], ◌∷◌, ◌++◌, Bool, true, false, not}
use heaplens.Base.{Option, none, some, ◌==◌, if◌then◌else◌, length}
use heaplens.Base.Dict.{Dict, lookup, insert}
use heaplens.Run.{pure, crash, exhausted, ◌>>=◌, ◌>>◌}
use heaplens.GoHeap.Wire.{Reader, read_varint, read_string, read_bytes}
use heaplens.GoHeap.Wire.{int_le, slice, pointer_value}
use heaplens.GoHeap.Records.Parsers.{field_kind_eol}
use heaplens.GoHeap.Pointers.{field_pointers}
use heaplens.GoHeap.Parser.{Parser, Parse, TypeInfo, Stats, reading, modify}
use heaplens.Graph.{ObjId, add_object}

unfoldable pub parse_params : Parse (Unit {0})
parse_params = do
  big_endian ← reading read_varint
  modify (λ p. record p { big_endian = not (big_endian == 0) })
  pointer_size ← reading read_varint
  modify (λ p. record p { pointer_size = pointer_size })
  heap_start ← reading read_varint
  modify (λ p. record p { heap_start = heap_start })
  heap_end ← reading read_varint
  modify (λ p. record p { heap_end = heap_end })
  arch ← reading read_string
  modify (λ p. record p { arch = arch })
  go_version ← reading read_string
  modify (λ p. record p { go_version = go_version })
  num_cpus ← reading read_varint
  modify (λ p. record p { num_cpus = num_cpus })

-- The four fields of a type record, as they are read.
unfoldable pub read_type : Reader TypeInfo
read_type = do
  addr ← read_varint
  size ← read_varint
  name ← read_string
  indirect ← read_varint
  pure (record { address = addr; size = size; name = name; indirect = not (indirect == 0) })

abbrev pub count_type : Stats → Stats
count_type s = record s { types = s.types + 1 }

unfoldable pub add_type : TypeInfo → Parser → Parser
add_type t p = record p { types = insert t.address t p.types; stats = count_type p.stats }

unfoldable pub parse_type : Parse (Unit {0})
parse_type = do t ← reading read_type; modify (add_type t)

-- A step that may panic.
abbrev pub or_crash : {A : Type 0} → Option A → Reader A
or_crash none = crash
or_crash (some a) = pure a

-- The loop of parseObject over the fields, with the pointer values appended to `pointers`.
unfoldable pub read_pointers_loop : ℕ → List ℕ → ℕ → Bool → List ℕ → Reader (List ℕ)
read_pointers_loop zero bytes pointer_size big_endian pointers = exhausted
read_pointers_loop (suc fuel) bytes pointer_size big_endian pointers = do
  kind ← read_varint
  elim (kind == field_kind_eol) [
    | true ↦ pure pointers
    | false ↦ do
      offset ← read_varint
      more ←
          or_crash
            (field_pointers bytes (record { kind = kind; offset = offset }) pointer_size big_endian)
      read_pointers_loop fuel bytes pointer_size big_endian (pointers ++ more)
  ]

unfoldable pub read_pointers : List ℕ → ℕ → Bool → Reader (List ℕ)
read_pointers bytes pointer_size big_endian r =
    read_pointers_loop (suc (length r)) bytes pointer_size big_endian [] r

-- The type address in the first word of the contents, `some none` where they are shorter than a
-- word. `none` is the panic of data[:pointerSize] at a size from 2^63 on.
abbrev pub first_word : ℕ → Bool → Option (List ℕ) → Option (Option ℕ)
first_word pointer_size big_endian none = none
first_word pointer_size big_endian (some word) =
    some (some (pointer_value pointer_size big_endian word))

unfoldable pub type_address : List ℕ → ℕ → Bool → Option (Option ℕ)
type_address bytes pointer_size big_endian =
    if int_le pointer_size (length bytes)
    then first_word pointer_size big_endian (slice bytes 0 pointer_size)
    else some none

-- "unknown"
abbrev pub unknown : List ℕ
unknown = b'u' ∷ b'n' ∷ b'k' ∷ b'n' ∷ b'o' ∷ b'w' ∷ b'n' ∷ []

abbrev pub name_of : Option TypeInfo → List ℕ
name_of none = unknown
name_of (some t) = t.name

unfoldable pub type_name : Dict TypeInfo → Option ℕ → List ℕ
type_name types none = unknown
type_name types (some addr) = name_of (lookup addr types)

abbrev pub count_object : Stats → Stats
count_object s = record s { objects = s.objects + 1 }

-- What parseObject does with an object once it is read: the ID, the address, the node of the graph,
-- whose pointers are an empty slice that is not nil, and the counter.
unfoldable pub add_heap_object : ℕ → List ℕ → List ℕ → Parser → Parser
add_heap_object addr bytes name p = record p {
  next_obj_id = (p.next_obj_id + 1) % 2 ^ 64;
  addr_to_obj_id = insert addr p.next_obj_id p.addr_to_obj_id;
  g =
      add_object (record { id = p.next_obj_id; typ = name; size = length bytes; ptrs = some [] })
        p.g;
  stats = count_object p.stats;
}

-- The address and contents, then the fields under the parameters of the dump, then the type address.
unfoldable pub read_object :
    ℕ → Bool → Reader (record { addr : ℕ; bytes : List ℕ; type_addr : Option ℕ })
read_object pointer_size big_endian = do
  addr ← read_varint
  bytes ← read_bytes
  _ ← read_pointers bytes pointer_size big_endian
  type_addr ← or_crash (type_address bytes pointer_size big_endian)
  pure (record { addr = addr; bytes = bytes; type_addr = type_addr })

unfoldable pub parse_object : Parse (Unit {0})
parse_object p =
    (do
      o ← reading (read_object p.pointer_size p.big_endian)
      modify (λ q. add_heap_object o.addr o.bytes (type_name q.types o.type_addr) q))
      p

abbrev pub count_root : Stats → Stats
count_root s = record s { roots = s.roots + 1 }

abbrev pub append_root : List ObjId → Option ObjId → List ObjId
append_root roots none = roots
append_root roots (some id) = roots ++ id ∷ []

unfoldable pub add_root : ℕ → Parser → Parser
add_root ptr p = record p {
  roots = append_root p.roots (lookup ptr p.addr_to_obj_id);
  stats = count_root p.stats;
}

-- The description is read and dropped.
unfoldable pub parse_other_root : Parse (Unit {0})
parse_other_root = do _ ← reading read_string; ptr ← reading read_varint; modify (add_root ptr)
