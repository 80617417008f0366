-- ===== src/GoHeap/Pointers/Faults.antt =====
-- When a pointer field makes the program panic.
use heaplens.Base.{ℕ, ◌+◌, ◌^◌, ◌≤◌, ◌<◌, ◌≡◌, ◌↔◌, ◌⊎◌, inl, inr, refl, arith}
use heaplens.Base.{List, [], ◌∷◌, ◌++◌, Bool, none, length, All}
use heaplens.Base.{Option-cases}
use mathlib.Core.Logic.{⊎_elim}
use heaplens.GoHeap.Wire.{int_le, slice, IsU64}
use heaplens.GoHeap.Records.{PointerField}
use heaplens.GoHeap.Records.Parsers.{field_kind_ptr}
use heaplens.GoHeap.Pointers.{field_pointers, extract_pointers_loop, extract_pointers}

-- The guard does not protect the slice: the end of the word, as an integer, is 2^63 or more, and
-- either it does not wrap, so that `int` makes it negative, or it wraps into the contents.
abbrev pub IsFault : ℕ → ℕ → PointerField → Type 0
IsFault len pointer_size field =
    (field.kind ≡ field_kind_ptr)
    × (2 ^ 63 ≤ field.offset + pointer_size)
    × ((field.offset + pointer_size < 2 ^ 64) ⊎ (field.offset + pointer_size ≤ len + 2 ^ 64))

-- The code panics on a field exactly when the field is at fault.
pub field_pointers-panics :
    (bytes : List ℕ) (field : PointerField) (pointer_size : ℕ) (big_endian : Bool)
    → IsU64 field.offset
    → 0 < pointer_size
    → pointer_size ≤ 8
    → length bytes < 2 ^ 62
    → (field_pointers bytes field pointer_size big_endian ≡ none)
      ↔ IsFault (length bytes) pointer_size field
unfolding field_pointers int_le slice
field_pointers-panics bytes field pointer_size big_endian ho hp h8 hl = ground arith

-- Some field is at fault.
abbrev pub HasFault : ℕ → ℕ → List PointerField → Type 0
HasFault len pointer_size [] = ⊥
HasFault len pointer_size (field ∷ fields) =
    IsFault len pointer_size field ⊎ HasFault len pointer_size fields

loop_panics :
    (bytes : List ℕ) (fields : List PointerField) (pointer_size : ℕ) (big_endian : Bool)
    (pointers : List ℕ)
    → All (λ f. IsU64 f.offset) fields
    → 0 < pointer_size
    → pointer_size ≤ 8
    → length bytes < 2 ^ 62
    → (extract_pointers_loop bytes fields pointer_size big_endian pointers ≡ none)
      ↔ HasFault (length bytes) pointer_size fields
unfolding extract_pointers_loop
loop_panics bytes [] pointer_size big_endian pointers ho hp h8 hl = (λ e. cc, λ e. absurd e)
loop_panics bytes (field ∷ fields) pointer_size big_endian pointers (ho, hos) hp h8 hl =
    let here = field_pointers-panics bytes field pointer_size big_endian ho hp h8 hl in
    elim (Option-cases (field_pointers bytes field pointer_size big_endian)) [
      | inl e ↦ rw (e, extract_pointers_loop) (λ _. inl (here.0 e), λ _. refl)
      | inr (more, e) ↦
          let later =
            loop_panics bytes fields pointer_size big_endian (pointers ++ more) hos hp h8 hl in
          rw (e, extract_pointers_loop)
            (λ p. inr (later.0 p), ⊎_elim (λ f. let n = here.1 f in cc) later.1)
    ]

-- `ExtractPointers` panics exactly when some pointer field lies so far out that the end of its word
-- passes 2^63 and, as a wrapped or negative number, passes the guard. The contents are shorter than
-- 2^62 bytes, offsets are uint64 and the pointer size is 1 to 8.
pub extract_pointers-panics :
    (bytes : List ℕ) (fields : List PointerField) (pointer_size : ℕ) (big_endian : Bool)
    → All (λ f. IsU64 f.offset) fields
    → 0 < pointer_size
    → pointer_size ≤ 8
    → length bytes < 2 ^ 62
    → (extract_pointers bytes fields pointer_size big_endian ≡ none)
      ↔ HasFault (length bytes) pointer_size fields
unfolding extract_pointers
extract_pointers-panics bytes fields pointer_size big_endian =
    loop_panics bytes fields pointer_size big_endian []
