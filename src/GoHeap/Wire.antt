-- ===== src/GoHeap/Wire.antt =====
-- What heapdump/goheap reads with: encoding/binary's ReadUvarint, io.ReadFull and the fixed-width
-- words, and parser.go's readVarint, readString and readBytes. The reader is the list of bytes that
-- are still to come, and an exhausted list is the end of the file.
pub mod Encode
pub mod RoundTrip
pub mod Totality
use heaplens.Base.{ℕ, zero, suc, ◌+◌, ◌-◌, ◌*◌, ◌%◌, ◌^◌, ◌≤◌, ◌<◌, List, [], ◌∷◌}
use heaplens.Base.{Bool, true, false, ◌&&◌, ◌||◌, Option, none, some}
use heaplens.Base.{ltb, leb, ◌==◌, if◌then◌else◌, length, take, drop}
use heaplens.Run.{Outcome, ok, err, Run, pure, raise, ◌>>=◌}

abbrev pub IsByte : ℕ → Type 0
IsByte b = b < 256

abbrev pub IsU64 : ℕ → Type 0
IsU64 v = v < 2 ^ 64

-- The texts that fmt.Errorf puts in front of an error.
pub data Context : Type 0 where
  reading_header reading_tag parsing_params parsing_type parsing_object parsing_root : Context
  parsing_goroutine parsing_stack_frame parsing_memstats skipping_itab skipping_finalizer : Context
  skipping_data_segment skipping_defer_panic skipping_os_thread skipping_mem_prof : Context
  reading_arch reading_go_version parsing_heap_dump decoding_json : Context
  skipping_unknown_tag : ℕ → Context

pub data Error : Type 0 where
  eof unexpected_eof varint_overflow : Error
  string_too_long byte_slice_too_long unknown_tag : ℕ → Error
  invalid_header : List ℕ → Error
  callback_failed : ℕ → Error
  missing_id : ℕ → Error
  no_parser : Error
  wrap : Context → Error → Error

abbrev pub Reader : Type 0 → Type 0
Reader A = Run Error (List ℕ) A

-- binary.ReadUvarint: `left` rounds of its ten remain, and `x | uint64(b)<<s` is a sum, since the
-- bits of `x` stay below position `s`.
unfoldable pub read_uvarint_loop : ℕ → ℕ → ℕ → Reader ℕ
read_uvarint_loop zero x s bs = err varint_overflow bs
read_uvarint_loop (suc left) x s [] = err (if left == 9 then eof else unexpected_eof) []
read_uvarint_loop (suc left) x s (b ∷ bs) =
    let more = read_uvarint_loop left (x + b % 128 * 2 ^ s % 2 ^ 64) (s + 7) bs in
    if ltb b 128
    then (if left == 0 && ltb 1 b then err varint_overflow bs else ok (x + b * 2 ^ s % 2 ^ 64) bs)
    else more

unfoldable pub read_varint : Reader ℕ
read_varint = read_uvarint_loop 10 0 0

-- io.ReadFull of `n` bytes: a short input is used up.
unfoldable pub read_full : ℕ → Reader (List ℕ)
read_full n bs =
    if leb n (length bs)
    then ok (take n bs) (drop n bs)
    else err (if length bs == 0 then eof else unexpected_eof) []

abbrev pub max_string : ℕ
max_string = 2 ^ 20

abbrev pub max_bytes : ℕ
max_bytes = 2 ^ 30

unfoldable pub read_string : Reader (List ℕ)
read_string = do
  length ← read_varint
  if ltb max_string length then raise (string_too_long length) else read_full length

unfoldable pub read_bytes : Reader (List ℕ)
read_bytes = do
  length ← read_varint
  if ltb max_bytes length then raise (byte_slice_too_long length) else read_full length

-- `for i := 0; i < n; i++ { readVarint }`, the values dropped.
unfoldable pub skip_varints : ℕ → Reader (Unit {0})
skip_varints zero = pure tt
skip_varints (suc n) = do _ ← read_varint; skip_varints n

-- binary.BigEndian and binary.LittleEndian on a slice of the word's width.
unfoldable pub big_endian_from : ℕ → List ℕ → ℕ
big_endian_from acc [] = acc
big_endian_from acc (b ∷ bs) = big_endian_from (acc * 256 + b) bs

unfoldable pub little_endian : List ℕ → ℕ
little_endian [] = 0
little_endian (b ∷ bs) = b + 256 * little_endian bs

-- The word at the front of a slice of `pointer_size` bytes, 0 at widths other than 8 and 4.
unfoldable pub pointer_value : ℕ → Bool → List ℕ → ℕ
pointer_value pointer_size big_endian ptr_data =
    if pointer_size == 8 || pointer_size == 4
    then (if big_endian then big_endian_from 0 ptr_data else little_endian ptr_data)
    else 0

-- `int(x) <= n` for a uint64 `x` and a length `n`: from 2^63 on the conversion is negative.
unfoldable pub int_le : ℕ → ℕ → Bool
int_le x n = leb (2 ^ 63) x || leb x n

-- data[low:high], where `none` is the run-time panic.
unfoldable pub slice : List ℕ → ℕ → ℕ → Option (List ℕ)
slice bytes low high =
    if leb low high && leb high (length bytes)
    then some (take (high - low) (drop low bytes))
    else none
