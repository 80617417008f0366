-- ===== src/GoHeap/Parser/Runs.antt =====
-- heapdump/goheap/parser.go: the methods of the parser on a record that was written.
use heaplens.Base.{ℕ, suc, ◌+◌, ◌%◌, ◌^◌, ◌<◌, ◌≡◌, refl, ap, ◌∙◌, arith, List, [], ◌∷◌, ◌++◌}
use heaplens.Base.{append_assoc, append-nil, not, false, ◌==◌, Option-cases, none, some}
use heaplens.Base.{inl, inr, some_inj, length, length-append}
use heaplens.Base.Dict.{insert}
use heaplens.Run.{ok, ◌>>=◌, ◌>>◌}
use mathlib.Core.Path.{subst}
use heaplens.Graph.{add_object}
use heaplens.GoHeap.Wire.{Context, Reader}
use heaplens.GoHeap.Wire.Encode.{put_varint}
use heaplens.GoHeap.Wire.RoundTrip.{Reads, Reads-varint, Reads-string}
use heaplens.GoHeap.Records.{PointerField}
use heaplens.GoHeap.Records.RoundTrip
use heaplens.GoHeap.Records.RoundTrip.{bool_word, word_IsU64, word}
use heaplens.GoHeap.Pointers.{extract_pointers}
use heaplens.GoHeap.Parser.{Parser, Parse, reading, modify, wrapping}
use heaplens.GoHeap.Parser.Agree.{skips_agree}
use heaplens.GoHeap.Parser.Objects.{parse_params, parse_type, parse_object, parse_other_root}
use heaplens.GoHeap.Parser.Objects.{add_type, add_heap_object, add_root, type_address, type_name}
use heaplens.GoHeap.Parser.Loop.{parse_record, record_case, parse_case}
use heaplens.GoHeap.Parser.Items.{DumpRecord, common, frame, itab, finalizer, queued_finalizer}
use heaplens.GoHeap.Parser.Items.{data_segment, bss_segment, os_thread, mem_prof}
use heaplens.GoHeap.Parser.Items.{tag_of, put_record, IsRecord}
use heaplens.GoHeap.Parser.Known.{Known, Shape, keep, keep_common, nodes_from}
use heaplens.GoHeap.Parser.Reads.{Reads-type, Reads-object, Reads-forget, Reads-mem_prof}
use heaplens.GoHeap.Stream.{DumpParams}
use heaplens.GoHeap.Stream.Items
use heaplens.GoHeap.Stream.Items.{put_params, put_object, put_root, IsParams}

abbrev pub over : List ℕ → Parser → Parser
over r p = record p { r = r }

-- From `p`, `m` takes `bytes` off the front of any input that begins with them, and leaves `q`.
pub record Runs (p : Parser) (bytes : List ℕ) (m : Parse (Unit {0})) (q : Parser) : Type 0 where
  pub at : (rest : List ℕ) → m (over (bytes ++ rest) p) ≡ ok tt (over rest q)

module _ {B : Type 0} {m : Reader B} {bytes : List ℕ} {b : B} where
  -- A value that is read and then kept by a change of the fields.
  Runs-kept :
      (p : Parser) (f : B → Parser → Parser)
      → Reads m bytes b
      → ((r : List ℕ) → f b (over r p) ≡ over r (f b p))
      → Runs p bytes (reading m >>= λ b. modify (f b)) (f b p)
  unfolding ◌>>=◌ reading modify
  Runs-kept p f h same = record { at = λ rest. rw (h.at rest) (ap (λ q. ok tt q) (same rest)) }

  Runs-field :
      {ys : List ℕ} {q : Parser} (p : Parser) (f : B → Parser → Parser) (k : Parse (Unit {0}))
      → Reads m bytes b
      → ((r : List ℕ) → f b (over r p) ≡ over r (f b p))
      → Runs (f b p) ys k q
      → Runs p (bytes ++ ys) (reading m >>= λ b. modify (f b) >> k) q
  unfolding ◌>>=◌ reading modify
  Runs-field {ys} p f k h same hk = record {
    at = λ rest. rw (append_assoc bytes ys rest, h.at (ys ++ rest), same (ys ++ rest)) (hk.at rest);
  }

  -- A value that is read and dropped.
  Runs-dropped :
      {ys : List ℕ} {q : Parser} (p : Parser) (k : Parse (Unit {0}))
      → Reads m bytes b
      → Runs p ys k q
      → Runs p (bytes ++ ys) (reading m >>= λ _. k) q
  unfolding ◌>>=◌ reading
  Runs-dropped {ys} p k h hk = record {
    at = λ rest. rw (append_assoc bytes ys rest, h.at (ys ++ rest)) (hk.at rest);
  }

Runs-wrapping :
    (c : Context) (p q : Parser) (bytes : List ℕ) (m : Parse (Unit {0}))
    → Runs p bytes m q
    → Runs p bytes (wrapping c m) q
unfolding wrapping
Runs-wrapping c p q bytes m h = record { at = λ rest. rw (h.at rest) refl }

Runs-skipped :
    (c : Context) (p : Parser) (m : Reader (Unit {0})) (bytes : List ℕ)
    → Reads m bytes tt
    → Runs p bytes (wrapping c (reading m)) p
unfolding reading wrapping
Runs-skipped c p m bytes h = record { at = λ rest. rw (h.at rest) refl }

-- The parser that knows `k`, with no input.
abbrev pub parser_of : Known → Parser
parser_of k = record {
  r = [];
  g = record { objects = nodes_from 0 k.shapes; roots = record { ids = [] } };
  types = k.types;
  addr_to_obj_id = k.ids;
  roots = k.roots;
  next_obj_id = length k.shapes;
  big_endian = k.params.big_endian;
  pointer_size = k.params.pointer_size;
  heap_start = k.params.heap_start;
  heap_end = k.params.heap_end;
  arch = k.params.arch;
  go_version = k.params.go_version;
  num_cpus = k.params.num_cpus;
  stats = record {
    objects = length k.shapes;
    types = k.type_count;
    roots = k.root_count;
    goroutines = 0;
  };
}

Runs-decoded_params :
    (k : Known) (q : DumpParams)
    → IsParams q
    → Runs
        (parser_of k)
        (put_params q)
        parse_params
        (parser_of (record k { params = record q { big_endian = not (word q.big_endian == 0) } }))
unfolding parse_params put_params
Runs-decoded_params k q h =
    Runs-field _ _ _ (Reads-varint _ (word_IsU64 q.big_endian)) (λ r. refl)
      (Runs-field _ _ _ (Reads-varint _ h.pointer_size) (λ r. refl)
        (Runs-field _ _ _ (Reads-varint _ h.heap_start) (λ r. refl)
          (Runs-field _ _ _ (Reads-varint _ h.heap_end) (λ r. refl)
            (Runs-field _ _ _ (Reads-string _ h.arch) (λ r. refl)
              (Runs-field _ _ _ (Reads-string _ h.go_version) (λ r. refl)
                (rw append-nil (Runs-kept _ _ (Reads-varint _ h.num_cpus) (λ r. refl))))))))

Runs-params :
    (k : Known) (q : DumpParams)
    → IsParams q
    → Runs (parser_of k) (put_params q) parse_params (parser_of (record k { params = q }))
Runs-params k q h =
    subst
      (λ b.
        Runs (parser_of k) (put_params q) parse_params
          (parser_of (record k { params = record q { big_endian = b } })))
      (bool_word q.big_endian) (Runs-decoded_params k q h)

-- A node behind the last one.
insert-nodes_from :
    (n m : ℕ) (xs : List Shape) (x : Shape)
    → m ≡ n + length xs
    → insert m (record { id = m; typ = x.typ; size = x.size; ptrs = some [] }) (nodes_from n xs)
      ≡ nodes_from n (xs ++ x ∷ [])
unfolding insert nodes_from
insert-nodes_from n m [] x e = let same : m ≡ n = omega (arith, e) in rw same refl
insert-nodes_from n m (y ∷ ys) x e =
    let differs : (n == m) ≡ false = ground arith in
    rw differs (
      ap (λ nodes. (n, record { id = n; typ = y.typ; size = y.size; ptrs = some [] }) ∷ nodes)
        (insert-nodes_from (suc n) m ys x (omega arith)))

added :
    (k : Known) (addr : ℕ) (bytes name : List ℕ)
    → length k.shapes + 1 < 2 ^ 64
    → add_heap_object addr bytes name (parser_of k)
      ≡ parser_of (record k {
        ids = insert addr (length k.shapes) k.ids;
        shapes = k.shapes ++ record { typ = name; size = length bytes } ∷ [];
      })
unfolding add_heap_object add_object
added k addr bytes name small =
    let x : Shape = record { typ = name; size = length bytes } in
    let longer : length k.shapes + 1 ≡ length (k.shapes ++ x ∷ []) =
      omega (arith, length-append k.shapes (x ∷ [])) in
    let next : (length k.shapes + 1) % 2 ^ 64 ≡ length (k.shapes ++ x ∷ []) = omega arith in
    let nodes = insert-nodes_from 0 (length k.shapes) k.shapes x (omega arith) in
    λ i. record (parser_of k) {
      g = record { objects = nodes i; roots = record { ids = [] } };
      addr_to_obj_id = insert addr (length k.shapes) k.ids;
      next_obj_id = next i;
      stats = record {
        objects = longer i;
        types = k.type_count;
        roots = k.root_count;
        goroutines = 0;
      };
    }

Runs-object :
    (k k' : Known) (addr : ℕ) (bytes : List ℕ) (fields : List PointerField)
    → Items.IsItem (Items.object addr bytes fields)
    → length k.shapes + 1 < 2 ^ 64
    → keep_common (Items.object addr bytes fields) k ≡ some k'
    → Runs (parser_of k) (put_object addr bytes fields) parse_object (parser_of k')
unfolding parse_object add_heap_object add_object
Runs-object k k' addr bytes fields (ha, hb, hf) small e =
    let n = k.params.pointer_size in
    let be = k.params.big_endian in
    elim (Option-cases (type_address bytes n be)) [
      | inl bad ↦ let stop : none ≡ some k' = rw bad at e in cc
      | inr (type_addr, ht) ↦ elim (Option-cases (extract_pointers bytes fields n be)) [
        | inl bad ↦ let stop : none ≡ some k' = rw (ht, bad) at e in cc
        | inr (pointers, hp) ↦
            let same = some_inj (rw (ht, hp) at e) in
            let run =
              Runs-kept (parser_of k) _
                (Reads-object addr bytes fields n be type_addr pointers ha hb hf ht hp)
                (λ r. refl) in
            record {
              at = λ rest.
                  run.at rest
                  ∙ ap (λ q. ok tt (over rest q))
                      (added k addr bytes (type_name k.types type_addr) small ∙ ap parser_of same);
            }
      ]
    ]

Runs-common :
    (k k' : Known) (i : Items.Item)
    → Items.IsItem i
    → length k.shapes + 1 < 2 ^ 64
    → keep_common i k ≡ some k'
    → Runs (parser_of k) (Items.put_body i) (parse_record (Items.item_tag i)) (parser_of k')
unfolding parse_record record_case parse_case parse_type add_type parse_other_root add_root put_root
Runs-common k k' (Items.params q) h small e = Runs-wrapping _ _ _ _ _ (
    subst (λ k'. Runs (parser_of k) (put_params q) parse_params (parser_of k')) (some_inj e)
      (Runs-params k q h))
Runs-common k k' (Items.typ t) h small e = Runs-wrapping _ _ _ _ _ (
    subst (λ k'. Runs (parser_of k) (Items.put_type t) parse_type (parser_of k')) (some_inj e)
      (Runs-kept (parser_of k) _ (Reads-type t h) (λ r. refl)))
Runs-common k k' (Items.object addr bytes fields) h small e =
    Runs-wrapping _ _ _ _ _ (Runs-object k k' addr bytes fields h small e)
Runs-common k k' (Items.root desc ptr) (hd, hp) small e = Runs-wrapping _ _ _ _ _ (
    subst (λ k'. Runs (parser_of k) (put_root desc ptr) parse_other_root (parser_of k'))
      (some_inj e)
      (Runs-dropped {ys = put_varint ptr ++ []} (parser_of k) _ (Reads-string desc hd)
        (rw append-nil (Runs-kept (parser_of k) _ (Reads-varint ptr hp) (λ r. refl)))))
Runs-common k k' (Items.goroutine g) h small e = let impossible : ⊥ = cc in absurd impossible

-- A record that is passed over.
Runs-passed :
    (k k' : Known) (c : Context) (m : Reader (Unit {0})) (bytes : List ℕ)
    → some k ≡ some k'
    → Reads m bytes tt
    → Runs (parser_of k) bytes (wrapping c (reading m)) (parser_of k')
Runs-passed k k' c m bytes e h =
    subst (λ k'. Runs (parser_of k) bytes (wrapping c (reading m)) (parser_of k')) (some_inj e)
      (Runs-skipped c (parser_of k) m bytes h)

pub Runs-record :
    (k k' : Known) (r : DumpRecord)
    → IsRecord r
    → length k.shapes + 1 < 2 ^ 64
    → keep r k ≡ some k'
    → Runs (parser_of k) (put_record r) (parse_record (tag_of r)) (parser_of k')
unfolding parse_record record_case parse_case
Runs-record k k' (common i) h small e = Runs-common k k' i h small e
Runs-record k k' (frame f) h small e =
    Runs-passed k k' _ _ _ e
      (Reads-forget (λ r. (skips_agree r).4) (RoundTrip.Reads-stack_frame f h))
Runs-record k k' (itab i) h small e =
    Runs-passed k k' _ _ _ e (Reads-forget (λ r. (skips_agree r).0) (RoundTrip.Reads-itab i h))
Runs-record k k' (finalizer f) h small e =
    Runs-passed k k' _ _ _ e (Reads-forget (λ r. (skips_agree r).1) (RoundTrip.Reads-finalizer f h))
Runs-record k k' (queued_finalizer f) h small e =
    Runs-passed k k' _ _ _ e (Reads-forget (λ r. (skips_agree r).1) (RoundTrip.Reads-finalizer f h))
Runs-record k k' (data_segment d) h small e =
    Runs-passed k k' _ _ _ e
      (Reads-forget (λ r. (skips_agree r).3) (RoundTrip.Reads-data_segment d h))
Runs-record k k' (bss_segment d) h small e =
    Runs-passed k k' _ _ _ e
      (Reads-forget (λ r. (skips_agree r).3) (RoundTrip.Reads-data_segment d h))
Runs-record k k' (os_thread t) h small e =
    Runs-passed k k' _ _ _ e (Reads-forget (λ r. (skips_agree r).2) (RoundTrip.Reads-os_thread t h))
Runs-record k k' (mem_prof m) h small e = Runs-passed k k' _ _ _ e (Reads-mem_prof m h)
