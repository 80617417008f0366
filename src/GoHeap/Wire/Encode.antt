-- ===== src/GoHeap/Wire/Encode.antt =====
-- The writer that the reader is measured against: the format of the runtime's heapdump.go for
-- numbers and strings, and the bytes of a fixed-width word.
use heaplens.Base.{ℕ, zero, suc, ◌+◌, ◌/◌, ◌%◌, List, [], ◌∷◌, ◌++◌, ltb, if◌then◌else◌, length}

-- The groups of seven bits of `v`, lowest first, in at most `k + 1` bytes.
unfoldable pub put_groups : ℕ → ℕ → List ℕ
put_groups zero v = v ∷ []
put_groups (suc k) v =
    let more = put_groups k (v / 128) in if ltb v 128 then v ∷ [] else (v % 128 + 128) ∷ more

unfoldable pub put_varint : ℕ → List ℕ
put_varint v = put_groups 9 v

unfoldable pub put_string : List ℕ → List ℕ
put_string s = put_varint (length s) ++ s

unfoldable pub put_varints : List ℕ → List ℕ
put_varints [] = []
put_varints (v ∷ vs) = put_varint v ++ put_varints vs

-- The `n` bytes of a word, lowest first.
unfoldable pub put_little : ℕ → ℕ → List ℕ
put_little zero v = []
put_little (suc n) v = v % 256 ∷ put_little n (v / 256)

unfoldable pub put_big : ℕ → ℕ → List ℕ → List ℕ
put_big zero v tail = tail
put_big (suc n) v tail = put_big n (v / 256) (v % 256 ∷ tail)
