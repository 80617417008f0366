-- ===== src/GoHeap/Stream/Seek.antt =====
-- heapdump/goheap/streaming.go: seekToNextRecord. Of bufio.Reader it needs the byte that UnreadByte would
-- put back: ReadByte sets it, and Peek, which is no read operation, clears it.
pub mod Found
use heaplens.Base.{ℕ, zero, suc, List, [], ◌∷◌, Bool, true, false, Option, none, some}
use heaplens.Base.{leb, ◌&&◌, ◌==◌, if◌then◌else◌, take}
use heaplens.GoHeap.Parser.Loop.{tag_alloc_sample}

pub record Buffered : Type 0 where
  pub left : List ℕ
  pub last_byte : Option ℕ

-- (*bufio.Reader).ReadByte, which fails at the end of the input only.
unfoldable pub read_byte : Buffered → Option (ℕ × Buffered)
read_byte b = elim b.left [
  | [] ↦ none
  | byte ∷ left ↦ some (byte, record { left = left; last_byte = some byte })
]

-- (*bufio.Reader).Peek
unfoldable pub peek : ℕ → Buffered → List ℕ × Buffered
peek n b = (take n b.left, record b { last_byte = none })

abbrev put_back : Option ℕ → Buffered → Buffered
put_back none b = b
put_back (some byte) b = record { left = byte ∷ b.left; last_byte = none }

-- (*bufio.Reader).UnreadByte, whose error the code drops.
unfoldable pub unread_byte : Buffered → Buffered
unread_byte b = put_back b.last_byte b

abbrev is_empty : List ℕ → Bool
is_empty [] = true
is_empty (x ∷ xs) = false

unfoldable pub seek_loop : ℕ → Buffered → Buffered
seek_loop zero b = b
seek_loop (suc rounds) b = elim (read_byte b) [
  | none ↦ b
  | some (byte, b') ↦ elim (leb byte tag_alloc_sample) [
    | false ↦ seek_loop rounds b'
    | true ↦
        let (ahead, b'') = peek 10 b' in
        elim (is_empty ahead) [ true ↦ seek_loop rounds b'' | false ↦ unread_byte b'' ]
  ]
]

unfoldable pub seek_to_next_record : List ℕ → List ℕ
seek_to_next_record left = (seek_loop 1000 (record { left = left; last_byte = none })).left
