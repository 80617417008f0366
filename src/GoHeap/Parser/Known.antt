-- ===== src/GoHeap/Parser/Known.antt =====
-- heapdump/goheap/parser.go: what a dump, as a list of records, says of the graph.
use heaplens.Base.{ℕ, suc, ◌+◌, List, [], ◌∷◌, ◌++◌, Option, none, some, length}
use heaplens.Base.Dict.{Dict, lookup, insert}
use heaplens.Graph.{Object, ObjId, MemGraph}
use heaplens.GoHeap.Pointers.{extract_pointers}
use heaplens.GoHeap.Parser.{TypeInfo}
use heaplens.GoHeap.Parser.Objects.{type_address, type_name, append_root}
use heaplens.GoHeap.Parser.Items.{DumpRecord, common, frame, itab, finalizer, queued_finalizer}
use heaplens.GoHeap.Parser.Items.{data_segment, bss_segment, os_thread, mem_prof}
use heaplens.GoHeap.Stream.{DumpParams, no_params}
use heaplens.GoHeap.Stream.Items

-- An object by its type's name and its size.
pub record Shape : Type 0 where
  pub typ : List ℕ
  pub size : ℕ

-- The last parameters, the last type at each address, the last object at each address by its place in
-- the dump, all objects in order, the roots, and how many types and roots there were.
pub record Known : Type 0 where
  pub params : DumpParams
  pub types : Dict TypeInfo
  pub type_count : ℕ
  pub ids : Dict ObjId
  pub shapes : List Shape
  pub roots : List ObjId
  pub root_count : ℕ

abbrev pub nothing : Known
nothing = record {
  params = no_params;
  types = [];
  type_count = 0;
  ids = [];
  shapes = [];
  roots = [];
  root_count = 0;
}

-- `none` where reading the contents would panic.
abbrev pub keep_object : ℕ → List ℕ → Option (Option ℕ) → Option (List ℕ) → Known → Option Known
keep_object addr bytes none pointers k = none
keep_object addr bytes (some type_addr) none k = none
keep_object addr bytes (some type_addr) (some pointers) k = some (record k {
  ids = insert addr (length k.shapes) k.ids;
  shapes = k.shapes ++ record { typ = type_name k.types type_addr; size = length bytes } ∷ [];
})

-- `none` at a goroutine too, which is not read as it is written.
abbrev pub keep_common : Items.Item → Known → Option Known
keep_common (Items.params q) k = some (record k { params = q })
keep_common (Items.typ t) k =
    some (record k { types = insert t.address t k.types; type_count = k.type_count + 1 })
keep_common (Items.object addr bytes fields) k =
    keep_object addr bytes (type_address bytes k.params.pointer_size k.params.big_endian)
      (extract_pointers bytes fields k.params.pointer_size k.params.big_endian) k
keep_common (Items.root desc ptr) k =
    some
      (record k { roots = append_root k.roots (lookup ptr k.ids); root_count = k.root_count + 1 })
keep_common (Items.goroutine g) k = none

-- Of the other records nothing is kept.
abbrev pub keep : DumpRecord → Known → Option Known
keep (common i) k = keep_common i k
keep (frame f) k = some k
keep (itab i) k = some k
keep (finalizer f) k = some k
keep (queued_finalizer f) k = some k
keep (data_segment d) k = some k
keep (bss_segment d) k = some k
keep (os_thread t) k = some k
keep (mem_prof m) k = some k

unfoldable pub keep_all : List DumpRecord → Known → Option Known
keep_all [] k = some k
keep_all (r ∷ rs) k = elim (keep r k) [ none ↦ none | some k' ↦ keep_all rs k' ]

-- The objects by their places, from `n` on, none with a pointer.
unfoldable pub nodes_from : ℕ → List Shape → Dict Object
nodes_from n [] = []
nodes_from n (x ∷ xs) =
    (n, record { id = n; typ = x.typ; size = x.size; ptrs = some [] }) ∷ nodes_from (suc n) xs

abbrev pub graph_of : Known → MemGraph
graph_of k = record { objects = nodes_from 0 k.shapes; roots = record { ids = k.roots } }
