-- ===== src/GoHeap/Both.antt =====
-- heapdump/goheap: the parser and the streaming parser on one dump.
use heaplens.Base.{ℕ, suc, ◌^◌, ◌<◌, ◌≡◌, refl, sym, ap, ◌∙◌, arith, List, [], ◌∷◌, ◌++◌, map}
use heaplens.Base.{append_assoc, Option, Option-cases, none, some, inl, inr, some_inj, length, All}
use heaplens.Run.{ok}
use heaplens.Graph.{Object, values}
use heaplens.GoHeap.Wire.Encode.{put_varint}
use heaplens.GoHeap.Parser.Loop.{magic, tag_eof, parse_dump}
use heaplens.GoHeap.Parser.Items
use heaplens.GoHeap.Parser.Items.{common, DumpRecord, IsRecord}
use heaplens.GoHeap.Parser.Known.{Known, Shape, nothing, keep_object, keep_common, keep_all}
use heaplens.GoHeap.Parser.Known.{nodes_from, graph_of}
use heaplens.GoHeap.Parser.Written.{parse_dump-put_dump}
use heaplens.GoHeap.Stream.{StreamCallbacks, StreamingParser, new_streaming_parser}
use heaplens.GoHeap.Stream.Loop.{parse_stream}
use heaplens.GoHeap.Stream.Items.{Item, params, typ, object, root, goroutine, put_items, put_dump}
use heaplens.GoHeap.Stream.Items.{IsItem, params_after, hand, hand_object, hand_item, hand_items}
use heaplens.GoHeap.Stream.Whole.{parse_stream-put_dump}
use mathlib.Core.Path.{subst}

-- OnObject notes the size of the contents that it is given; the other callbacks are nil.
abbrev pub size_recorder : StreamCallbacks (List ℕ)
size_recorder = record {
  on_params = none;
  on_type = none;
  on_object = some (λ addr type_addr bytes pointers sizes. (none, sizes ++ length bytes ∷ []));
  on_root = none;
  on_goroutine = none;
  on_progress = none;
  on_error = none;
}

abbrev sizes : List Shape → List ℕ
sizes = map (λ x. x.size)

sizes_snoc : (xs : List Shape) (x : Shape) → sizes (xs ++ x ∷ []) ≡ sizes xs ++ x.size ∷ []
sizes_snoc [] x = refl
sizes_snoc (y ∷ ys) x = ap (λ ns. y.size ∷ ns) (sizes_snoc ys x)

object_noted :
    (k k' : Known) (addr : ℕ) (bytes : List ℕ) (type_addr : Option (Option ℕ))
    (pointers : Option (List ℕ))
    → keep_object addr bytes type_addr pointers k ≡ some k'
    → (hand_object size_recorder addr bytes type_addr pointers (sizes k.shapes)
        ≡ some (sizes k'.shapes))
      × (k'.params ≡ k.params)
unfolding hand
object_noted k k' addr bytes none pointers e = let impossible : ⊥ = cc in absurd impossible
object_noted k k' addr bytes (some ta) none e = let impossible : ⊥ = cc in absurd impossible
object_noted k k' addr bytes (some ta) (some ps) e =
    let same = some_inj e in
    (
      ap some (sym (sizes_snoc k.shapes _) ∙ ap (λ k. sizes k.shapes) same),
      ap (λ k. k.params) (sym same),
    )

item_noted :
    (k k' : Known) (item : Item)
    → keep_common item k ≡ some k'
    → (hand_item size_recorder k.params item (sizes k.shapes) ≡ some (sizes k'.shapes))
      × (k'.params ≡ params_after k.params item)
unfolding hand_item hand
item_noted k k' (params q) e =
    (ap (λ k. some (sizes k.shapes)) (some_inj e), ap (λ k. k.params) (sym (some_inj e)))
item_noted k k' (typ t) e =
    (ap (λ k. some (sizes k.shapes)) (some_inj e), ap (λ k. k.params) (sym (some_inj e)))
item_noted k k' (object addr bytes fields) e = object_noted k k' addr bytes _ _ e
item_noted k k' (root desc ptr) e =
    (ap (λ k. some (sizes k.shapes)) (some_inj e), ap (λ k. k.params) (sym (some_inj e)))
item_noted k k' (goroutine g) e = let impossible : ⊥ = cc in absurd impossible

items_noted :
    (items : List Item) (k k' : Known)
    → keep_all (map common items) k ≡ some k'
    → hand_items size_recorder k.params items (sizes k.shapes) ≡ some (sizes k'.shapes)
unfolding keep_all hand_items
items_noted [] k k' e = ap (λ k. some (sizes k.shapes)) (some_inj e)
items_noted (item ∷ items) k k' e = elim (Option-cases (keep_common item k)) [
  | inl bad ↦ let stop : none ≡ some k' = rw (bad, keep_all) at e in cc
  | inr (k1, good) ↦
      let later : keep_all (map common items) k1 ≡ some k' = rw (good, keep_all) at e in
      let (noted, after) = item_noted k k1 item good in
      rw (noted, hand_items, ← after) (items_noted items k1 k' later)
]

put_records_common :
    (items : List Item)
    → put_items items ≡ Items.put_records (map common items) ++ put_varint tag_eof
unfolding put_items Items.put_records
put_records_common [] = refl
put_records_common (item ∷ items) = rw (put_records_common items, append_assoc, append_assoc) refl

put_dump_common : (items : List Item) → put_dump items ≡ Items.put_dump (map common items)
unfolding put_dump Items.put_dump
put_dump_common items = ap (λ bytes. magic ++ bytes) (put_records_common items)

All-common : (items : List Item) → All IsItem items → All IsRecord (map common items)
All-common [] h = tt
All-common (item ∷ items) (h, hs) = (h, All-common items hs)

length-common : (items : List Item) → length (map common items) ≡ length items
length-common [] = refl
length-common (item ∷ items) = ap suc (length-common items)

node_sizes :
    (n : ℕ) (xs : List Shape) → map (λ (o : Object). o.size) (values (nodes_from n xs)) ≡ sizes xs
unfolding nodes_from
node_sizes n [] = refl
node_sizes n (x ∷ xs) = ap (λ ns. x.size ∷ ns) (node_sizes (suc n) xs)

-- On a dump of parameters, types, objects and roots, written and closed by the end tag, the streaming
-- parser and the parser both succeed, and the objects that OnObject is called for are, in their order,
-- the nodes of the graph by their sizes. The contents are read without a panic.
pub parsers_agree :
    (items : List Item) (k : Known) (rest : List ℕ)
    → length items < 2 ^ 64
    → All IsItem items
    → keep_all (map common items) nothing ≡ some k
    → (q : StreamingParser (List ℕ)) × (parse_stream size_recorder
          (new_streaming_parser (put_dump items ++ rest) [])
        ≡ ok tt q)
      × (parse_dump (put_dump items ++ rest) ≡ ok (graph_of k) rest)
      × (q.user ≡ map (λ (o : Object). o.size) (values (graph_of k).objects))
parsers_agree items k rest small all e =
    let (q, streamed, user, left, errors, counted) =
      parse_stream-put_dump size_recorder items rest [] (sizes k.shapes) all refl
        (items_noted items nothing k e) in
    let (parsed, cut) =
      parse_dump-put_dump (map common items) k rest (omega (arith, length-common items))
        (All-common items all) e in
    (
      q,
      streamed,
      subst (λ bytes. parse_dump (bytes ++ rest) ≡ ok (graph_of k) rest)
          (sym (put_dump_common items)) parsed,
      user ∙ sym (node_sizes 0 k.shapes),
    )
