-- ===== src/GoHeap/Pointers.antt =====
-- heapdump/goheap: the pointer words in the contents of an object, as ExtractPointers (records.go)
-- and the two parseObject loops (parser.go, streaming.go) take them out.
pub mod Faults
pub mod Words
use heaplens.Base.{ℕ, ◌+◌, ◌%◌, ◌^◌, List, [], ◌∷◌, ◌++◌, Bool, ◌&&◌, Option, none, some}
use heaplens.Base.{◌==◌, if◌then◌else◌, length}
use heaplens.GoHeap.Wire.{int_le, slice, pointer_value}
use heaplens.GoHeap.Records.{PointerField}
use heaplens.GoHeap.Records.Parsers.{field_kind_ptr}

-- `if ptr != 0 { pointers = append(pointers, ptr) }`, as the list that is appended.
abbrev pub nonzero : ℕ → List ℕ
nonzero ptr = if ptr == 0 then [] else ptr ∷ []

abbrev pub word_at : ℕ → Bool → Option (List ℕ) → Option (List ℕ)
word_at pointer_size big_endian none = none
word_at pointer_size big_endian (some ptr_data) =
    some (nonzero (pointer_value pointer_size big_endian ptr_data))

-- What one field adds to the pointers. `none` is the run-time panic of the slice expression
-- data[offset : offset+pointerSize]; the sum wraps at 2^64 in the guard and in the slice.
unfoldable pub field_pointers : List ℕ → PointerField → ℕ → Bool → Option (List ℕ)
field_pointers bytes field pointer_size big_endian =
    let end = (field.offset + pointer_size) % 2 ^ 64 in
    if field.kind == field_kind_ptr && int_le end (length bytes)
    then word_at pointer_size big_endian (slice bytes field.offset end)
    else some []

-- The loop of ExtractPointers. `pointers` is what has been appended so far.
unfoldable pub extract_pointers_loop :
    List ℕ → List PointerField → ℕ → Bool → List ℕ → Option (List ℕ)
extract_pointers_loop bytes [] pointer_size big_endian pointers = some pointers
extract_pointers_loop bytes (field ∷ fields) pointer_size big_endian pointers =
    elim (field_pointers bytes field pointer_size big_endian) [
      | none ↦ none
      | some more ↦ extract_pointers_loop bytes fields pointer_size big_endian (pointers ++ more)
    ]

unfoldable pub extract_pointers : List ℕ → List PointerField → ℕ → Bool → Option (List ℕ)
extract_pointers bytes fields pointer_size big_endian =
    extract_pointers_loop bytes fields pointer_size big_endian []
