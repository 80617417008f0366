-- ===== src/GoHeap/Pointers/Words.antt =====
-- A word that lies whole in the contents is read as the number that was written there.
use heaplens.Base.{ℕ, zero, suc, ◌+◌, ◌*◌, ◌/◌, ◌%◌, ◌^◌, ◌<◌, ◌≡◌, ◌⊎◌}
use heaplens.Base.{List, [], ◌∷◌, ◌++◌, Bool, true, false, some, length}
use heaplens.Base.{
  if◌then◌else◌, refl, sym, ap, ◌∙◌, arith, append_assoc, append-nil, length-append,
}
use heaplens.Base.{take-length-append, drop-length-append}
use heaplens.GoHeap.Wire.{int_le, slice, pointer_value, little_endian, big_endian_from}
use heaplens.GoHeap.Wire.Encode.{put_little, put_big}
use heaplens.GoHeap.Records.{PointerField}
use heaplens.GoHeap.Records.Parsers.{field_kind_ptr}
use heaplens.GoHeap.Pointers.{field_pointers, extract_pointers_loop, extract_pointers}
use heaplens.GoHeap.Pointers.{nonzero}
use native.Mathlib.Nat.{div-add-mod, pow-suc}

below_div : (n v : ℕ) → v < 256 ^ suc n → v / 256 < 256 ^ n
below_div n v h = omega (arith, pow-suc 256 n)

join : (n v acc : ℕ) → (acc * 256 ^ n + v / 256) * 256 + v % 256 ≡ acc * 256 ^ suc n + v
join n v acc = omega (arith, div-add-mod v 256, ap (λ (t : ℕ). acc * t) (pow-suc 256 n))

little_endian-put_little : (n v : ℕ) → v < 256 ^ n → little_endian (put_little n v) ≡ v
unfolding little_endian put_little
little_endian-put_little zero v h = omega arith
little_endian-put_little (suc n) v h =
    let below : v / 256 < 256 ^ n = below_div n v h in
    omega (arith, little_endian-put_little n (v / 256) below)

length-put_little : (n v : ℕ) → length (put_little n v) ≡ n
unfolding put_little
length-put_little zero v = refl
length-put_little (suc n) v = ap suc (length-put_little n (v / 256))

big_endian-put_big :
    (n v acc : ℕ) (tail : List ℕ)
    → v < 256 ^ n
    → big_endian_from acc (put_big n v tail) ≡ big_endian_from (acc * 256 ^ n + v) tail
unfolding big_endian_from put_big
big_endian-put_big zero v acc tail h = ap (λ t. big_endian_from t tail) (omega arith)
big_endian-put_big (suc n) v acc tail h =
    big_endian-put_big n (v / 256) acc (v % 256 ∷ tail) (below_div n v h)
    ∙ ap (λ t. big_endian_from t tail) (join n v acc)

unfolded_end : (v : ℕ) → big_endian_from v [] ≡ v
unfolding big_endian_from
unfolded_end v = refl

length-put_big : (n v : ℕ) (tail : List ℕ) → length (put_big n v tail) ≡ n + length tail
unfolding put_big
length-put_big zero v tail = omega arith
length-put_big (suc n) v tail = omega (arith, length-put_big n (v / 256) (v % 256 ∷ tail))

-- The bytes of a word in either byte order.
unfoldable pub put_word : ℕ → Bool → ℕ → List ℕ
put_word n big_endian v = if big_endian then put_big n v [] else put_little n v

length-put_word : (n : ℕ) (big_endian : Bool) (v : ℕ) → length (put_word n big_endian v) ≡ n
unfolding put_word
length-put_word n true v = omega (arith, length-put_big n v [])
length-put_word n false v = length-put_little n v

abbrev pub IsPointerSize : ℕ → Type 0
IsPointerSize n = (n ≡ 4) ⊎ (n ≡ 8)

pub pointer_value-put_word :
    (n : ℕ) (big_endian : Bool) (v : ℕ)
    → IsPointerSize n
    → v < 256 ^ n
    → pointer_value n big_endian (put_word n big_endian v) ≡ v
unfolding pointer_value put_word
pointer_value-put_word n true v w h = ground (arith, big_endian-put_big n v 0 [], unfolded_end v)
pointer_value-put_word n false v w h = ground (arith, little_endian-put_little n v)

slice-append :
    (front middle back : List ℕ) (high : ℕ)
    → high ≡ length front + length middle
    → slice (front ++ (middle ++ back)) (length front) high ≡ some middle
unfolding slice
slice-append front middle back high e = ground (
  arith,
  length-append front (middle ++ back),
  length-append middle back,
  drop-length-append front (middle ++ back),
  take-length-append middle back,
)

-- The field points at a word that lies whole in the contents.
pub record IsWordAt (bytes : List ℕ) (pointer_size : ℕ) (big_endian : Bool) (field : PointerField)
    (v : ℕ) : Type 0 where
  pub kind : field.kind ≡ field_kind_ptr
  pub range : v < 256 ^ pointer_size
  pub front : List ℕ
  pub back : List ℕ
  pub offset : field.offset ≡ length front
  pub layout : bytes ≡ front ++ (put_word pointer_size big_endian v ++ back)

laid_out :
    (bytes front middle back : List ℕ) (field : PointerField) (n : ℕ) (big_endian : Bool)
    → bytes ≡ front ++ (middle ++ back)
    → field.kind ≡ field_kind_ptr
    → field.offset ≡ length front
    → n ≡ length middle
    → length bytes < 2 ^ 62
    → field_pointers bytes field n big_endian ≡ some (nonzero (pointer_value n big_endian middle))
unfolding field_pointers int_le
laid_out bytes front middle back field n big_endian e kind offset size small =
    let whole : length bytes ≡ length front + (n + length back) =
      rw (e, length-append, length-append) (omega arith) in
    let cut : slice bytes field.offset ((field.offset + n) % 2 ^ 64) ≡ some middle =
      rw (e, offset) (slice-append front middle back _ (omega arith)) in
    ground arith

pub field_pointers_word :
    (bytes : List ℕ) (field : PointerField) (n : ℕ) (big_endian : Bool) (v : ℕ)
    → IsPointerSize n
    → length bytes < 2 ^ 62
    → IsWordAt bytes n big_endian field v
    → field_pointers bytes field n big_endian ≡ some (nonzero v)
field_pointers_word bytes field n big_endian v w small h =
    laid_out bytes h.front (put_word n big_endian v) h.back field n big_endian h.layout h.kind
      h.offset (sym (length-put_word n big_endian v)) small
    ∙ ap (λ t. some (nonzero t)) (pointer_value-put_word n big_endian v w h.range)

-- Each field of the first list points at the word of the second that stands at its place.
abbrev pub AreWords : List ℕ → ℕ → Bool → List PointerField → List ℕ → Type 0
AreWords bytes n big_endian [] [] = Unit {0}
AreWords bytes n big_endian [] (v ∷ vs) = ⊥
AreWords bytes n big_endian (f ∷ fs) [] = ⊥
AreWords bytes n big_endian (f ∷ fs) (v ∷ vs) =
    IsWordAt bytes n big_endian f v × AreWords bytes n big_endian fs vs

-- The words that are not null, in order.
abbrev pub nonzeros : List ℕ → List ℕ
nonzeros [] = []
nonzeros (v ∷ vs) = nonzero v ++ nonzeros vs

loop_words :
    (bytes : List ℕ) (fields : List PointerField) (n : ℕ) (big_endian : Bool) (vs pointers : List ℕ)
    → IsPointerSize n
    → length bytes < 2 ^ 62
    → AreWords bytes n big_endian fields vs
    → extract_pointers_loop bytes fields n big_endian pointers ≡ some (pointers ++ nonzeros vs)
unfolding extract_pointers_loop
loop_words bytes [] n big_endian [] pointers w small h = rw append-nil
loop_words bytes [] n big_endian (v ∷ vs) pointers w small h = absurd h
loop_words bytes (f ∷ fs) n big_endian [] pointers w small h = absurd h
loop_words bytes (f ∷ fs) n big_endian (v ∷ vs) pointers w small (hf, hfs) =
    rw (field_pointers_word bytes f n big_endian v w small hf, extract_pointers_loop)
      (loop_words bytes fs n big_endian vs (pointers ++ nonzero v) w small hfs
        ∙ ap some (append_assoc pointers (nonzero v) (nonzeros vs)))

-- Where every field points at a word that lies whole in the contents, `ExtractPointers` returns
-- exactly the words that are not null, in the order of the fields, in both byte orders and at both
-- pointer sizes, 4 and 8. The contents are shorter than 2^62 bytes.
pub extract_pointers_words :
    (bytes : List ℕ) (fields : List PointerField) (n : ℕ) (big_endian : Bool) (vs : List ℕ)
    → IsPointerSize n
    → length bytes < 2 ^ 62
    → AreWords bytes n big_endian fields vs
    → extract_pointers bytes fields n big_endian ≡ some (nonzeros vs)
unfolding extract_pointers
extract_pointers_words bytes fields n big_endian vs w small h =
    loop_words bytes fields n big_endian vs [] w small h
