-- ===== src/GoHeap/Stream/Reads.antt =====
-- heapdump/goheap/streaming.go: the reads of a record that was written.
use heaplens.Base.{ℕ, zero, suc, ◌+◌, ◌%◌, ◌^◌, ◌<◌, ◌≡◌, refl, arith, List, [], ◌∷◌, ◌++◌}
use heaplens.Base.{append_assoc, Bool, true, false, not, ◌==◌, ==-false, if◌then◌else◌}
use heaplens.Base.{Option, none, some, Option-cases, inl, inr, some_inj, length, length-append, All}
use heaplens.Run.{ok, pure, ◌>>=◌}
use mathlib.Core.Path.{subst}
use heaplens.GoHeap.Wire.{IsU64, max_string, max_bytes}
use heaplens.GoHeap.Wire.Encode.{put_varint, put_string}
use heaplens.GoHeap.Wire.RoundTrip
use heaplens.GoHeap.Records.{PointerField, GoroutineFull}
use heaplens.GoHeap.Records.Encode.{put_chunks, put_bool, put_pointer_fields, IsPointerField}
use heaplens.GoHeap.Records.Encode.{put_goroutine, IsGoroutine, IsString, IsBytes}
use heaplens.GoHeap.Records.RoundTrip.{lt-length-put_pointer_fields}
use heaplens.GoHeap.Pointers.{field_pointers, extract_pointers, extract_pointers_loop}
use heaplens.GoHeap.Parser.{TypeInfo}
use heaplens.GoHeap.Parser.Objects.{type_address}
use heaplens.GoHeap.Stream.{Counted, read_varint, read_full, read_string, read_bytes}
use heaplens.GoHeap.Stream.Records.{or_zero}
use heaplens.GoHeap.Stream.Records.{skip_varints, read_type, read_pointers_loop, read_pointers}
use heaplens.GoHeap.Stream.Records.{read_object, read_root, read_goroutine}
use heaplens.GoHeap.Stream.Items.{put_type, IsTypeInfo, put_object, put_root}

-- `m` takes exactly `bytes` off the front of any input that begins with them, and returns `a`.
pub record Reads {A : Type 0} (m : Counted A) (bytes : List ℕ) (a : A) : Type 0 where
  pub at :
      (rest : List ℕ) (progress : ℕ)
      → (progress' : ℕ) × (m (record { left = bytes ++ rest; progress = progress })
          ≡ ok a (record { left = rest; progress = progress' }))

module _ {A : Type 0} where
  Reads-pure : (a : A) → Reads (pure a) [] a
  unfolding ◌>>=◌
  Reads-pure a = record { at = λ rest progress. (progress, refl) }

module _ {A B : Type 0} where
  Reads-bind :
      {m : Counted A} {xs ys : List ℕ} {a : A} {b : B} (f : A → Counted B)
      → Reads m xs a
      → Reads (f a) ys b
      → Reads (m >>= f) (xs ++ ys) b
  unfolding ◌>>=◌
  Reads-bind {xs} {ys} f hm hf = record {
    at = λ rest progress.
        let (between, first) = hm.at (ys ++ rest) progress in
        let (after, second) = hf.at rest between in
        (after, rw (append_assoc xs ys rest, first) second);
  }

  -- An action that has no bytes of its own.
  Reads-bind_none :
      {m : Counted A} {ys : List ℕ} {a : A} {b : B} (f : A → Counted B)
      → Reads m [] a
      → Reads (f a) ys b
      → Reads (m >>= f) ys b
  unfolding ◌>>=◌
  Reads-bind_none {ys} f hm hf = record {
    at = λ rest progress.
        let (between, first) = hm.at (ys ++ rest) progress in
        let (after, second) = hf.at rest between in (after, rw first second);
  }

  Reads-bind_last :
      {m : Counted A} {xs : List ℕ} {a : A} {b : B} (f : A → Counted B)
      → Reads m xs a
      → Reads (f a) [] b
      → Reads (m >>= f) xs b
  unfolding ◌>>=◌
  Reads-bind_last f hm hf = record {
    at = λ rest progress.
        let (between, first) = hm.at rest progress in
        let (after, second) = hf.at rest between in (after, rw first second);
  }

pub Reads-varint : (v : ℕ) → IsU64 v → Reads read_varint (put_varint v) v
unfolding read_varint
Reads-varint v h = record {
  at = λ rest progress.
      ((progress + 1) % 2 ^ 64, rw (RoundTrip.read_varint-put_varint v rest h) refl);
}

Reads-full : (xs : List ℕ) → Reads (read_full (length xs)) xs xs
unfolding read_full
Reads-full xs = record {
  at = λ rest progress.
      ((progress + length xs) % 2 ^ 64, rw (RoundTrip.read_full_append xs rest) refl);
}

pub Reads-string : (s : List ℕ) → IsString s → Reads read_string (put_string s) s
unfolding read_string put_string
Reads-string s h =
    Reads-bind _ (Reads-varint (length s) (omega arith))
      (rw (RoundTrip.not_above (length s) max_string h) (Reads-full s))

Reads-bytes : (s : List ℕ) → IsBytes s → Reads read_bytes (put_string s) s
unfolding read_bytes put_string
Reads-bytes s h =
    Reads-bind _ (Reads-varint (length s) (omega arith))
      (rw (RoundTrip.not_above (length s) max_bytes h) (Reads-full s))

unfoldable pub flag : Bool → Bool
flag b = not ((if b then 1 else 0) == 0)

pub flag_lem : (b : Bool) → flag b ≡ b
unfolding flag
flag_lem true = refl
flag_lem false = refl

pub Reads-bool : (b : Bool) → Reads read_varint (put_bool b) (if b then 1 else 0)
Reads-bool true = Reads-varint 1 (omega arith)
Reads-bool false = Reads-varint 0 (omega arith)

-- The rounds of the loop are more than the fields.
Reads-pointers_loop :
    (fields : List PointerField) (fuel : ℕ) (bytes : List ℕ) (n : ℕ) (be : Bool)
    (before pointers : List ℕ)
    → length fields < fuel
    → All IsPointerField fields
    → extract_pointers_loop bytes fields n be before ≡ some pointers
    → Reads (read_pointers_loop fuel bytes n be before) (put_pointer_fields fields) pointers
unfolding read_pointers_loop put_pointer_fields extract_pointers_loop
Reads-pointers_loop fields zero bytes n be before pointers h all e = absurd (omega arith)
Reads-pointers_loop [] (suc fuel) bytes n be before pointers h all e =
    let same : before ≡ pointers = some_inj e in
    Reads-bind _ (Reads-varint 0 (omega arith)) (rw same (Reads-pure pointers))
Reads-pointers_loop (f ∷ fields) (suc fuel) bytes n be before pointers h (hf, hfs) e =
    elim (Option-cases (field_pointers bytes f n be)) [
      | inl bad ↦ let stop : none ≡ some pointers = rw (bad, extract_pointers_loop) at e in cc
      | inr (more, good) ↦
          let next : extract_pointers_loop bytes fields n be (before ++ more) ≡ some pointers =
            rw (good, extract_pointers_loop) at e in
          Reads-bind _ (Reads-varint f.kind hf.kind) (
            rw (==-false f.kind 0 hf.nonzero) (
              Reads-bind _ (Reads-varint f.offset hf.offset) (
                Reads-bind_none _ (rw good (Reads-pure more)) (
                  Reads-pointers_loop fields fuel bytes n be (before ++ more) pointers (omega arith)
                    hfs next))))
    ]

pub Reads-pointers :
    (fields : List PointerField) (bytes : List ℕ) (n : ℕ) (be : Bool) (pointers : List ℕ)
    → All IsPointerField fields
    → extract_pointers bytes fields n be ≡ some pointers
    → Reads (read_pointers bytes n be) (put_pointer_fields fields) pointers
unfolding read_pointers extract_pointers
Reads-pointers fields bytes n be pointers h e = record {
  at = λ rest.
      let enough : length fields < suc (length (put_pointer_fields fields ++ rest)) =
        rw length-append (omega (arith, lt-length-put_pointer_fields fields)) in
      (Reads-pointers_loop fields _ bytes n be [] pointers enough h e).at rest;
}

ruleset reads = (Reads-bind, Reads-pure, Reads-varint, Reads-string)

Reads-decoded_type :
    (t : TypeInfo)
    → IsTypeInfo t
    → Reads read_type (put_type t) (record t { indirect = flag t.indirect })
unfolding read_type put_type flag
Reads-decoded_type t h = Reads-bind _ (Reads-varint t.address h.address) (
    Reads-bind _ (Reads-varint t.size h.size) (
      Reads-bind _ (Reads-string t.name h.name)
        (Reads-bind _ (Reads-bool t.indirect) (Reads-pure _))))

pub Reads-type : (t : TypeInfo) → IsTypeInfo t → Reads read_type (put_type t) t
Reads-type t h =
    subst (λ b. Reads read_type (put_type t) (record t { indirect = b })) (flag_lem t.indirect)
      (Reads-decoded_type t h)

pub Reads-object :
    (addr : ℕ) (bytes : List ℕ) (fields : List PointerField) (n : ℕ) (be : Bool)
    (type_addr : Option ℕ) (pointers : List ℕ)
    → IsU64 addr
    → IsBytes bytes
    → All IsPointerField fields
    → type_address bytes n be ≡ some type_addr
    → extract_pointers bytes fields n be ≡ some pointers
    → Reads
        (read_object n be)
        (put_object addr bytes fields)
        (record { addr = addr; type_addr = or_zero type_addr; bytes = bytes; pointers = pointers })
unfolding read_object put_object
Reads-object addr bytes fields n be type_addr pointers ha hb hf ht hp =
    Reads-bind _ (Reads-varint addr ha) (
      Reads-bind _ (Reads-bytes bytes hb) (
        Reads-bind_none {a = type_addr} _ (rw ht (Reads-pure type_addr))
          (Reads-bind _ (Reads-pointers fields bytes n be pointers hf hp) (Reads-pure _))))

pub Reads-root :
    (desc : List ℕ) (ptr : ℕ)
    → IsString desc
    → IsU64 ptr
    → Reads read_root (put_root desc ptr) (record { desc = desc; ptr = ptr })
unfolding read_root put_root
Reads-root desc ptr hd hp = search reads depth 20

-- The last four numbers of a goroutine.
Reads-skip_four :
    (a b c d : ℕ)
    → IsU64 a
    → IsU64 b
    → IsU64 c
    → IsU64 d
    → Reads
        (skip_varints 4)
        (put_chunks (put_varint a ∷ put_varint b ∷ put_varint c ∷ put_varint d ∷ []))
        tt
unfolding skip_varints
Reads-skip_four a b c d ha hb hc hd = search reads depth 20

pub Reads-goroutine :
    (g : GoroutineFull)
    → IsGoroutine g
    → Reads read_goroutine
        (put_goroutine g)
        (record { id = g.id; status = g.status; wait_reason = g.wait_reason })
unfolding read_goroutine put_goroutine
Reads-goroutine g h = Reads-bind _ (Reads-varint g.address h.address) (
    Reads-bind _ (Reads-varint g.stack_top h.stack_top) (
      Reads-bind _ (Reads-varint g.id h.id) (
        Reads-bind _ (Reads-varint g.status h.status) (
          Reads-bind _ (Reads-bool g.is_system) (
            Reads-bind _ (Reads-bool g.is_background) (
              Reads-bind _ (Reads-varint g.wait_since h.wait_since) (
                Reads-bind _ (Reads-string g.wait_reason h.wait_reason) (
                  Reads-bind_last _
                    (Reads-skip_four g.ctxt_addr g.m_addr g.defer_addr g.panic_addr h.ctxt_addr
                      h.m_addr h.defer_addr h.panic_addr)
                    (Reads-pure _)))))))))
