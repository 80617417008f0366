-- ===== src/GoHeap/Wire/RoundTrip.antt =====
-- What the writer wrote, the reader reads back, whatever follows it.
use heaplens.Base.{ℕ, zero, suc, ◌+◌, ◌*◌, ◌/◌, ◌%◌, ◌^◌, ◌≤◌, ◌<◌, ◌≡◌, refl, sym, ap}
use heaplens.Base.{List, [], ◌∷◌, ◌++◌, append_assoc, arith, length, length-append}
use heaplens.Base.{false, ltb, All}
use heaplens.Base.{take-length-append, drop-length-append}
use mathlib.Core.Path.{subst}
use heaplens.Run.{ok, pure, ◌>>=◌}
use heaplens.GoHeap.Wire.{Reader, IsU64, max_string, max_bytes}
use heaplens.GoHeap.Wire.{read_uvarint_loop, read_varint, read_full, read_string, read_bytes}
use heaplens.GoHeap.Wire.{skip_varints}
use heaplens.GoHeap.Wire.Encode.{put_groups, put_varint, put_string, put_varints}
use native.Mathlib.Nat.{div-add-mod}
use native.Mathlib.Numerals.{towards_suc}

-- `m` takes exactly `bytes` off the front of any input that begins with them, and returns `a`.
pub record Reads {A : Type 0} (m : Reader A) (bytes : List ℕ) (a : A) : Type 0 where
  pub at : (rest : List ℕ) → m (bytes ++ rest) ≡ ok a rest

module _ {A : Type 0} where
  pub Reads-pure : (a : A) → Reads (pure a) [] a
  unfolding ◌>>=◌
  Reads-pure a = record { at = λ rest. refl }

module _ {A B : Type 0} where
  pub Reads-bind :
      {m : Reader A} {xs ys : List ℕ} {a : A} {b : B} (f : A → Reader B)
      → Reads m xs a
      → Reads (f a) ys b
      → Reads (m >>= f) (xs ++ ys) b
  unfolding ◌>>=◌
  Reads-bind {xs} {ys} f hm hf = record {
    at = λ rest. rw (append_assoc xs ys rest, hm.at (ys ++ rest)) (hf.at rest);
  }

  -- The last action of a block has no bytes of its own.
  pub Reads-bind_last :
      {m : Reader A} {xs : List ℕ} {a : A} {b : B} (f : A → Reader B)
      → Reads m xs a
      → Reads (f a) [] b
      → Reads (m >>= f) xs b
  unfolding ◌>>=◌
  Reads-bind_last f hm hf = record { at = λ rest. rw (hm.at rest) (hf.at rest) }

-- Seven more places are a factor of 128.
pow-seven : (s : ℕ) → 128 * 2 ^ s ≡ 2 ^ (s + 7)
pow-seven s = simp towards_suc (omega arith)

-- A value at position `s` is its lowest group at `s` and the other groups at `s + 7`.
split_value : (v s : ℕ) → v % 128 * 2 ^ s + v / 128 * 2 ^ (s + 7) ≡ v * 2 ^ s
split_value v s = rw (← pow-seven s) (omega (arith, ap (λ (w : ℕ). w * 2 ^ s) (div-add-mod v 128)))

-- One round on a byte without its top bit, and on one with it.
read_last :
    (left x s w : ℕ) (rest : List ℕ)
    → w < 128
    → (left ≡ 0 → w < 2)
    → x + w * 2 ^ s < 2 ^ 64
    → read_uvarint_loop (suc left) x s (w ∷ rest) ≡ ok (x + w * 2 ^ s) rest
unfolding read_uvarint_loop
read_last left x s w rest small top fits = ground arith

read_more :
    (left x s g : ℕ) (rest : List ℕ)
    → g < 128
    → x + g * 2 ^ s < 2 ^ 64
    → read_uvarint_loop (suc left) x s ((g + 128) ∷ rest)
      ≡ read_uvarint_loop left (x + g * 2 ^ s) (s + 7) rest
unfolding read_uvarint_loop
read_more left x s g rest small fits = ground arith

pub not_above : (n m : ℕ) → n ≤ m → ltb m n ≡ false
not_above n m h = ground arith

read_groups :
    (k x s v : ℕ) (rest : List ℕ)
    → s + 7 * k ≡ 63
    → v * 2 ^ s < 2 ^ 64
    → x + v * 2 ^ s < 2 ^ 64
    → read_uvarint_loop (suc k) x s (put_groups k v ++ rest) ≡ ok (x + v * 2 ^ s) rest
unfolding put_groups
read_groups zero x s v rest hs hv fits =
    let e : s ≡ 63 = omega arith in
    let small : v < 2 =
      subst (λ (t : ℕ). v * 2 ^ t < 2 ^ 64 → v < 2) (sym e) (λ h. omega arith) hv in
    read_last 0 x s v rest (omega arith) (λ _. small) fits
read_groups (suc k) x s v rest hs hv fits =
    let split = split_value v s in
    ground (
      arith,
      read_last (suc k) x s v rest,
      read_more (suc k) x s (v % 128) (put_groups k (v / 128) ++ rest),
      read_groups k (x + v % 128 * 2 ^ s) (s + 7) (v / 128) rest,
    )

-- `readVarint` gives back every uint64 that was written, and leaves whatever follows.
pub read_varint-put_varint :
    (v : ℕ) (rest : List ℕ) → IsU64 v → read_varint (put_varint v ++ rest) ≡ ok v rest
unfolding read_varint put_varint
read_varint-put_varint v rest h = ground (arith, read_groups 9 0 0 v rest)

pub Reads-varint : (v : ℕ) → IsU64 v → Reads read_varint (put_varint v) v
Reads-varint v h = record { at = λ rest. read_varint-put_varint v rest h }

pub read_full_append : (xs rest : List ℕ) → read_full (length xs) (xs ++ rest) ≡ ok xs rest
unfolding read_full
read_full_append xs rest =
    ground (arith, length-append xs rest, take-length-append xs rest, drop-length-append xs rest)

Reads-full : (xs : List ℕ) → Reads (read_full (length xs)) xs xs
Reads-full xs = record { at = read_full_append xs }

pub Reads-string : (s : List ℕ) → length s ≤ max_string → Reads read_string (put_string s) s
unfolding read_string put_string
Reads-string s h =
    Reads-bind _ (Reads-varint (length s) (omega arith))
      (rw (not_above (length s) max_string h) (Reads-full s))

pub Reads-bytes : (s : List ℕ) → length s ≤ max_bytes → Reads read_bytes (put_string s) s
unfolding read_bytes put_string
Reads-bytes s h =
    Reads-bind _ (Reads-varint (length s) (omega arith))
      (rw (not_above (length s) max_bytes h) (Reads-full s))

pub Reads-skip : (vs : List ℕ) → All IsU64 vs → Reads (skip_varints (length vs)) (put_varints vs) tt
unfolding skip_varints put_varints
Reads-skip [] h = Reads-pure tt
Reads-skip (v ∷ vs) (hv, hvs) = Reads-bind _ (Reads-varint v hv) (Reads-skip vs hvs)
