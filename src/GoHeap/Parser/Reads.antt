-- ===== src/GoHeap/Parser/Reads.antt =====
-- heapdump/goheap/parser.go: the reads of a record that was written.
use heaplens.Base.{ℕ, ◌≡◌, sym, ap, ◌∙◌, List, [], Bool, Option, some, All}
use heaplens.GoHeap.Wire.{Reader, IsU64}
use heaplens.GoHeap.Wire.RoundTrip.{Reads, Reads-pure, Reads-bind, Reads-varint}
use heaplens.GoHeap.Wire.RoundTrip.{Reads-bytes}
use heaplens.GoHeap.Records.{PointerField, MemProfRecord}
use heaplens.GoHeap.Records.Encode.{put_pointer_fields, IsPointerField, IsBytes, put_mem_prof}
use heaplens.GoHeap.Records.Encode.{IsMemProfRecord}
use heaplens.GoHeap.Records.RoundTrip
use heaplens.GoHeap.Pointers.{extract_pointers}
use heaplens.GoHeap.Parser.{TypeInfo}
use heaplens.GoHeap.Parser.Objects.{read_type, read_object, read_pointers, type_address}
use heaplens.GoHeap.Parser.Skip.{skip_mem_prof}
use heaplens.GoHeap.Parser.Agree.{forget, skip_mem_prof_agrees}
use heaplens.GoHeap.Stream.{Counted}
use heaplens.GoHeap.Stream.Agree.{plain, Erases, Erases-type, Erases-pointers}
use heaplens.GoHeap.Stream.Items.{put_type, IsTypeInfo, put_object}
use heaplens.GoHeap.Stream.Reads

-- What the streaming parser reads, a reader that does the same to the input reads.
Reads-of_erased :
    {A : Type 0} {m : Counted A} {k : Reader A} {bytes : List ℕ} {a : A}
    → Erases m k
    → Reads.Reads m bytes a
    → Reads k bytes a
Reads-of_erased {k = k} erases h = record {
  at = λ rest. let (progress, e) = h.at rest 0 in sym (erases.at _) ∙ ap plain e;
}

pub Reads-type : (t : TypeInfo) → IsTypeInfo t → Reads read_type (put_type t) t
Reads-type t h = Reads-of_erased Erases-type (Reads.Reads-type t h)

Reads-pointers :
    (fields : List PointerField) (bytes : List ℕ) (n : ℕ) (be : Bool) (pointers : List ℕ)
    → All IsPointerField fields
    → extract_pointers bytes fields n be ≡ some pointers
    → Reads (read_pointers bytes n be) (put_pointer_fields fields) pointers
Reads-pointers fields bytes n be pointers h e =
    Reads-of_erased (Erases-pointers bytes n be)
      (Reads.Reads-pointers fields bytes n be pointers h e)

pub Reads-object :
    (addr : ℕ) (bytes : List ℕ) (fields : List PointerField) (n : ℕ) (be : Bool)
    (type_addr : Option ℕ) (pointers : List ℕ)
    → IsU64 addr
    → IsBytes bytes
    → All IsPointerField fields
    → type_address bytes n be ≡ some type_addr
    → extract_pointers bytes fields n be ≡ some pointers
    → Reads
        (read_object n be)
        (put_object addr bytes fields)
        (record { addr = addr; bytes = bytes; type_addr = type_addr })
unfolding read_object put_object
Reads-object addr bytes fields n be type_addr pointers ha hb hf ht hp =
    Reads-bind _ (Reads-varint addr ha) (
      Reads-bind _ (Reads-bytes bytes hb) (
        Reads-bind _ (Reads-pointers fields bytes n be pointers hf hp)
          (Reads-bind {xs = []} {a = type_addr} _ (rw ht (Reads-pure type_addr)) (Reads-pure _))))

-- A record that one reader keeps and another skips alike.
pub Reads-forget :
    {A : Type 0} {m : Reader (Unit {0})} {k : Reader A} {bytes : List ℕ} {a : A}
    → ((r : List ℕ) → m r ≡ forget (k r))
    → Reads k bytes a
    → Reads m bytes tt
Reads-forget same h = record { at = λ rest. same _ ∙ ap forget (h.at rest) }

pub Reads-mem_prof :
    (m : MemProfRecord) → IsMemProfRecord m → Reads skip_mem_prof (put_mem_prof m) tt
Reads-mem_prof m h = record {
  at = λ rest.
      let kept = (RoundTrip.Reads-mem_prof m h).at rest in
      skip_mem_prof_agrees _ (λ e. cc) ∙ ap forget kept;
}
