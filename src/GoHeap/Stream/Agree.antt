-- ===== src/GoHeap/Stream/Agree.antt =====
-- heapdump/goheap: the readers of streaming.go against those of parser.go.
use heaplens.Base.{ℕ, zero, suc, ◌-◌, ◌^◌, ◌<◌, ◌≡◌, refl, ap, ◌∙◌, arith, List, [], ◌++◌, length}
use heaplens.Base.{
  take, Bool, true, false, Bool-cases, inl, inr, ◌==◌, Option, none, some, leb, if◌then◌else◌,
}
use heaplens.Run.{Outcome, ok, err, panic, stuck, pure, raise, exhausted, continue, ◌>>=◌}
use heaplens.GoHeap.Wire
use heaplens.GoHeap.Wire.{Error, Reader, int_le, slice, pointer_value}
use heaplens.GoHeap.Records.Parsers.{field_kind_eol}
use heaplens.GoHeap.Pointers.{field_pointers}
use heaplens.GoHeap.Parser.Objects
use heaplens.GoHeap.Parser.Objects.{type_address, first_word}
use heaplens.GoHeap.Stream.{Input, Counted, tally, read_varint, read_full, read_string, read_bytes}
use heaplens.GoHeap.Stream.Records.{StreamObject, or_crash, or_zero, read_type}
use heaplens.GoHeap.Stream.Records.{read_pointers_loop, read_pointers, read_object}

-- The outcome without the progress.
abbrev pub plain : {A : Type 0} → Outcome Error Input A → Outcome Error (List ℕ) A
plain (ok a s) = ok a s.left
plain (err e s) = err e s.left
plain panic = panic
plain stuck = stuck

-- `m` does to the input what `k` does, and to the progress what it likes.
pub record Erases {A : Type 0} (m : Counted A) (k : Reader A) : Type 0 where
  pub at : (s : Input) → plain (m s) ≡ k s.left

plain-tally :
    {A : Type 0} (good bad : ℕ) (s : Input) (o : Outcome Error (List ℕ) A)
    → plain (tally good bad s o) ≡ o
plain-tally good bad s (ok a left) = refl
plain-tally good bad s (err e left) = refl
plain-tally good bad s panic = refl
plain-tally good bad s stuck = refl

plain-continue :
    {A B : Type 0} (o : Outcome Error Input A) (f : A → Counted B) (g : A → Reader B)
    → ((a : A) → Erases (f a) (g a))
    → plain (continue o f) ≡ continue (plain o) g
plain-continue (ok a s) f g h = (h a).at s
plain-continue (err e s) f g h = refl
plain-continue panic f g h = refl
plain-continue stuck f g h = refl

Erases-bind :
    {A B : Type 0} {m : Counted A} {k : Reader A} (f : A → Counted B) (g : A → Reader B)
    → Erases m k
    → ((a : A) → Erases (f a) (g a))
    → Erases (m >>= f) (k >>= g)
unfolding ◌>>=◌
Erases-bind {m} f g hm hf = record { at = λ s. plain-continue (m s) f g hf ∙ rw (hm.at s) refl }

Erases-pure : {A : Type 0} (a : A) → Erases (pure a) (pure a)
unfolding ◌>>=◌
Erases-pure a = record { at = λ s. refl }

Erases-raise : {A : Type 0} (e : Error) → Erases {A = A} (raise e) (raise e)
unfolding ◌>>=◌
Erases-raise e = record { at = λ s. refl }

Erases-exhausted : {A : Type 0} → Erases {A = A} exhausted exhausted
unfolding ◌>>=◌
Erases-exhausted = record { at = λ s. refl }

Erases-or_crash : {A : Type 0} (o : Option A) → Erases (or_crash o) (Objects.or_crash o)
Erases-or_crash none = unfold ◌>>=◌ in record { at = λ s. refl }
Erases-or_crash (some a) = Erases-pure a

Erases-if :
    {A : Type 0} (b : Bool) (m n : Counted A) (k l : Reader A)
    → Erases m k
    → Erases n l
    → Erases (if b then m else n) (if b then k else l)
Erases-if true m n k l h g = h
Erases-if false m n k l h g = g

Erases-choice :
    {A : Type 0} (b : Bool) (m n : Counted A) (k l : Reader A)
    → Erases m k
    → Erases n l
    → Erases
        (elim b as (λ _. Counted A) [ true ↦ m | false ↦ n ])
        (elim b as (λ _. Reader A) [ true ↦ k | false ↦ l ])
Erases-choice true m n k l h g = h
Erases-choice false m n k l h g = g

Erases-varint : Erases read_varint Wire.read_varint
unfolding read_varint
Erases-varint = record { at = λ s. plain-tally 1 0 s (Wire.read_varint s.left) }

Erases-full : (n : ℕ) → Erases (read_full n) (Wire.read_full n)
unfolding read_full
Erases-full n = record { at = λ s. plain-tally n (length s.left) s (Wire.read_full n s.left) }

Erases-string : Erases read_string Wire.read_string
unfolding read_string Wire.read_string
Erases-string =
    Erases-bind _ _ Erases-varint (λ n. Erases-if _ _ _ _ _ (Erases-raise _) (Erases-full n))

Erases-bytes : Erases read_bytes Wire.read_bytes
unfolding read_bytes Wire.read_bytes
Erases-bytes =
    Erases-bind _ _ Erases-varint (λ n. Erases-if _ _ _ _ _ (Erases-raise _) (Erases-full n))

pub Erases-type : Erases read_type Objects.read_type
unfolding read_type Objects.read_type
Erases-type = Erases-bind _ _ Erases-varint (λ a.
    Erases-bind _ _ Erases-varint (λ b.
      Erases-bind _ _ Erases-string (λ c. Erases-bind _ _ Erases-varint (λ d. Erases-pure _))))

Erases-pointers_loop :
    (fuel : ℕ) (bytes : List ℕ) (n : ℕ) (be : Bool) (pointers : List ℕ)
    → Erases
        (read_pointers_loop fuel bytes n be pointers)
        (Objects.read_pointers_loop fuel bytes n be pointers)
unfolding read_pointers_loop Objects.read_pointers_loop
Erases-pointers_loop zero bytes n be pointers = Erases-exhausted
Erases-pointers_loop (suc fuel) bytes n be pointers = Erases-bind _ _ Erases-varint (λ kind.
    Erases-choice (kind == field_kind_eol) (pure pointers) _ (pure pointers) _
      (Erases-pure pointers)
      (Erases-bind _ _ Erases-varint (λ offset.
        Erases-bind _ _
          (Erases-or_crash (field_pointers bytes (record { kind = kind; offset = offset }) n be))
          (λ more. Erases-pointers_loop fuel bytes n be (pointers ++ more)))))

pub Erases-pointers :
    (bytes : List ℕ) (n : ℕ) (be : Bool)
    → Erases (read_pointers bytes n be) (Objects.read_pointers bytes n be)
unfolding read_pointers Objects.read_pointers
Erases-pointers bytes n be = record {
  at = λ s. (Erases-pointers_loop (suc (length s.left)) bytes n be []).at s;
}

-- What parser.go keeps of an object, with 0 for a type address that is not there.
pub record Kept : Type 0 where
  pub addr : ℕ
  pub bytes : List ℕ
  pub type_addr : ℕ

abbrev pub results : {A B : Type 0} → (A → B) → Outcome Error (List ℕ) A → Outcome Error (List ℕ) B
results f (ok a r) = ok (f a) r
results f (err e r) = err e r
results f panic = panic
results f stuck = stuck

results-continue :
    {A B C D : Type 0} (f : B → D) (g : C → D) (o : Outcome Error (List ℕ) A) (k : A → Reader B)
    (l : A → Reader C)
    → ((a : A) (r : List ℕ) → results f (k a r) ≡ results g (l a r))
    → results f (continue o k) ≡ results g (continue o l)
results-continue f g (ok a r) k l h = h a r
results-continue f g (err e r) k l h = refl
results-continue f g panic k l h = refl
results-continue f g stuck k l h = refl

-- A pointer size below 2^63 never panics: a slice is taken where the contents are long enough.
type_address_total :
    (bytes : List ℕ) (n : ℕ) (be : Bool)
    → n < 2 ^ 63
    → (t : Option ℕ) × (type_address bytes n be ≡ some t)
unfolding type_address int_le slice
type_address_total bytes n be h = elim (Bool-cases (leb n (length bytes))) [
  | inl long ↦ (some (pointer_value n be (take (n - 0) bytes)), ground arith)
  | inr short ↦ (none, ground arith)
]

abbrev pub kept_by_stream : StreamObject → Kept
kept_by_stream o = record { addr = o.addr; bytes = o.bytes; type_addr = o.type_addr }

abbrev pub kept_by_parser : record { addr : ℕ; bytes : List ℕ; type_addr : Option ℕ } → Kept
kept_by_parser o = record { addr = o.addr; bytes = o.bytes; type_addr = or_zero o.type_addr }

-- read_object of streaming.go over plain bytes.
plain_object : ℕ → Bool → Reader StreamObject
plain_object n be = do
  addr ← Wire.read_varint
  bytes ← Wire.read_bytes
  type_addr ← Objects.or_crash (type_address bytes n be)
  pointers ← Objects.read_pointers bytes n be
  pure (record { addr = addr; type_addr = or_zero type_addr; bytes = bytes; pointers = pointers })

Erases-object : (n : ℕ) (be : Bool) → Erases (read_object n be) (plain_object n be)
unfolding read_object plain_object
Erases-object n be = Erases-bind _ _ Erases-varint (λ addr. Erases-bind _ _ Erases-bytes (λ bytes.
    Erases-bind _ _ (Erases-or_crash (type_address bytes n be))
      (λ type_addr. Erases-bind _ _ (Erases-pointers bytes n be) (λ pointers. Erases-pure _))))

-- The order of the two steps behind the contents does not matter where the first cannot panic.
objects_agree :
    (n : ℕ) (be : Bool) (r : List ℕ)
    → n < 2 ^ 63
    → results kept_by_stream (plain_object n be r)
      ≡ results kept_by_parser (Objects.read_object n be r)
unfolding plain_object Objects.read_object ◌>>=◌
objects_agree n be r h =
    results-continue kept_by_stream kept_by_parser (Wire.read_varint r) _ _ (λ addr r'.
      results-continue kept_by_stream kept_by_parser (Wire.read_bytes r') _ _ (λ bytes r''.
        let (t, total) = type_address_total bytes n be h in
        rw total (
          results-continue kept_by_stream kept_by_parser (Objects.read_pointers bytes n be r'') _ _
            (λ pointers r3. refl))))

-- On every input, well formed or not, the two parsers read a type record and an object record alike:
-- the same values, the same bytes taken, the same error or panic. For objects the pointer size is below
-- 2^63, and a type address that is not there counts as 0.
pub streams_agree :
    (n : ℕ) (be : Bool) (s : Input)
    → n < 2 ^ 63
    → (plain (read_type s) ≡ Objects.read_type s.left)
      × (results kept_by_stream (plain (read_object n be s))
          ≡ results kept_by_parser (Objects.read_object n be s.left))
streams_agree n be s h = (
  Erases-type.at s,
  ap (results kept_by_stream) ((Erases-object n be).at s) ∙ objects_agree n be s.left h,
)
