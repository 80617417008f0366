-- ===== src/GoHeap/Stream/Seek/Found.antt =====
-- heapdump/goheap/streaming.go: where seekToNextRecord leaves the input.
use heaplens.Base.{ℕ, zero, suc, ◌≤◌, ◌<◌, ◌≡◌, arith, List, [], ◌∷◌, ◌++◌, All, length}
use heaplens.Base.{Option, some, none}
use heaplens.GoHeap.Parser.Loop.{tag_alloc_sample}
use heaplens.GoHeap.Stream.Seek.{read_byte, peek, unread_byte, seek_loop}
use heaplens.GoHeap.Stream.Seek.{seek_to_next_record}

-- One round on a byte that is no tag, and on one that is, with more input behind it.
seek_other :
    (rounds byte : ℕ) (left : List ℕ) (last : Option ℕ)
    → tag_alloc_sample < byte
    → seek_loop (suc rounds) (record { left = byte ∷ left; last_byte = last })
      ≡ seek_loop rounds (record { left = left; last_byte = some byte })
unfolding seek_loop read_byte
seek_other rounds byte left last h = ground arith

seek_found :
    (rounds tag next : ℕ) (rest : List ℕ) (last : Option ℕ)
    → tag ≤ tag_alloc_sample
    → (seek_loop (suc rounds) (record { left = tag ∷ next ∷ rest; last_byte = last })).left
      ≡ next ∷ rest
unfolding seek_loop read_byte peek unread_byte
seek_found rounds tag next rest last h = ground arith

seek_over :
    (rounds : ℕ) (garbage : List ℕ) (tag next : ℕ) (rest : List ℕ) (last : Option ℕ)
    → All (λ byte. tag_alloc_sample < byte) garbage
    → length garbage < rounds
    → tag ≤ tag_alloc_sample
    → (seek_loop rounds (record { left = garbage ++ tag ∷ next ∷ rest; last_byte = last })).left
      ≡ next ∷ rest
seek_over zero garbage tag next rest last other short h = absurd (omega arith)
seek_over (suc rounds) [] tag next rest last other short h = seek_found rounds tag next rest last h
seek_over (suc rounds) (byte ∷ garbage) tag next rest last (o, other) short h =
    rw (seek_other rounds byte (garbage ++ tag ∷ next ∷ rest) last o)
      (seek_over rounds garbage tag next rest (some byte) other (omega arith) h)

-- After fewer than 1000 bytes that are no tag, the search stops at the first byte that is one and has
-- input behind it, and leaves the input behind that byte: the tag is lost.
pub seek_to_next_record_lem :
    (garbage : List ℕ) (tag next : ℕ) (rest : List ℕ)
    → All (λ byte. tag_alloc_sample < byte) garbage
    → length garbage < 1000
    → tag ≤ tag_alloc_sample
    → seek_to_next_record (garbage ++ tag ∷ next ∷ rest) ≡ next ∷ rest
unfolding seek_to_next_record
seek_to_next_record_lem garbage tag next rest other short h =
    seek_over 1000 garbage tag next rest none other short h

seek_loop_shorter :
    (rounds : ℕ) (left : List ℕ) (last : Option ℕ)
    → length (seek_loop rounds (record { left = left; last_byte = last })).left ≤ length left
unfolding seek_loop read_byte peek unread_byte
seek_loop_shorter zero left last = omega arith
seek_loop_shorter (suc rounds) [] last = omega arith
seek_loop_shorter (suc rounds) (byte ∷ []) last =
    ground (arith, seek_loop_shorter rounds [] none, seek_loop_shorter rounds [] (some byte))
seek_loop_shorter (suc rounds) (byte ∷ next ∷ rest) last =
    ground (arith, seek_loop_shorter rounds (next ∷ rest) (some byte))

pub length-seek_to_next_record : (left : List ℕ) → length (seek_to_next_record left) ≤ length left
unfolding seek_to_next_record
length-seek_to_next_record left = seek_loop_shorter 1000 left none
