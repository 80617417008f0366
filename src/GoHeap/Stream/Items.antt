-- ===== src/GoHeap/Stream/Items.antt =====
-- A dump as a list of the records that heapdump/goheap/streaming.go hands to callbacks: the bytes that it
-- is written as, and what callbacks make of it that are called once for each record, in their order.
use heaplens.Base.{ℕ, List, [], ◌∷◌, ◌++◌, Option, none, some, All}
use heaplens.GoHeap.Wire.{IsU64}
use heaplens.GoHeap.Wire.Encode.{put_varint, put_string}
use heaplens.GoHeap.Records.{PointerField, GoroutineFull}
use heaplens.GoHeap.Records.Encode.{put_chunks, put_bool, put_pointer_fields, IsPointerField}
use heaplens.GoHeap.Records.Encode.{put_goroutine, IsGoroutine, IsString, IsBytes}
use heaplens.GoHeap.Pointers.{extract_pointers}
use heaplens.GoHeap.Parser.{TypeInfo}
use heaplens.GoHeap.Parser.Objects.{type_address}
use heaplens.GoHeap.Parser.Loop.{magic, tag_eof, tag_params, tag_type, tag_object, tag_other_root}
use heaplens.GoHeap.Parser.Loop.{tag_goroutine}
use heaplens.GoHeap.Stream.{DumpParams, StreamCallbacks, Callback}
use heaplens.GoHeap.Stream.Records.{or_zero}
use mathlib.Core.Option

pub data Item : Type 0 where
  params : DumpParams → Item
  typ : TypeInfo → Item
  object : ℕ → List ℕ → List PointerField → Item
  root : List ℕ → ℕ → Item
  goroutine : GoroutineFull → Item

abbrev pub item_tag : Item → ℕ
item_tag (params q) = tag_params
item_tag (typ t) = tag_type
item_tag (object addr bytes fields) = tag_object
item_tag (root desc ptr) = tag_other_root
item_tag (goroutine g) = tag_goroutine

unfoldable pub put_params : DumpParams → List ℕ
put_params q = put_chunks (
    put_bool q.big_endian
    ∷ put_varint q.pointer_size
    ∷ put_varint q.heap_start
    ∷ put_varint q.heap_end
    ∷ put_string q.arch
    ∷ put_string q.go_version
    ∷ put_varint q.num_cpus
    ∷ [])

unfoldable pub put_type : TypeInfo → List ℕ
put_type t =
    put_chunks
      (put_varint t.address ∷ put_varint t.size ∷ put_string t.name ∷ put_bool t.indirect ∷ [])

unfoldable pub put_object : ℕ → List ℕ → List PointerField → List ℕ
put_object addr bytes fields =
    put_chunks (put_varint addr ∷ put_string bytes ∷ put_pointer_fields fields ∷ [])

unfoldable pub put_root : List ℕ → ℕ → List ℕ
put_root desc ptr = put_chunks (put_string desc ∷ put_varint ptr ∷ [])

abbrev pub put_body : Item → List ℕ
put_body (params q) = put_params q
put_body (typ t) = put_type t
put_body (object addr bytes fields) = put_object addr bytes fields
put_body (root desc ptr) = put_root desc ptr
put_body (goroutine g) = put_goroutine g

unfoldable pub put_items : List Item → List ℕ
put_items [] = put_varint tag_eof
put_items (item ∷ items) = put_varint (item_tag item) ++ (put_body item ++ put_items items)

unfoldable pub put_dump : List Item → List ℕ
put_dump items = magic ++ put_items items

pub record IsParams (q : DumpParams) : Type 0 where
  pub pointer_size : IsU64 q.pointer_size
  pub heap_start : IsU64 q.heap_start
  pub heap_end : IsU64 q.heap_end
  pub arch : IsString q.arch
  pub go_version : IsString q.go_version
  pub num_cpus : IsU64 q.num_cpus

pub record IsTypeInfo (t : TypeInfo) : Type 0 where
  pub address : IsU64 t.address
  pub size : IsU64 t.size
  pub name : IsString t.name

-- Numbers fit their words, and texts and contents are within the reader's limits.
abbrev pub IsItem : Item → Type 0
IsItem (params q) = IsParams q
IsItem (typ t) = IsTypeInfo t
IsItem (object addr bytes fields) = IsU64 addr × IsBytes bytes × All IsPointerField fields
IsItem (root desc ptr) = IsString desc × IsU64 ptr
IsItem (goroutine g) = IsGoroutine g

-- The parameters in force behind a record.
abbrev pub params_after : DumpParams → Item → DumpParams
params_after q (params r) = r
params_after q (typ t) = q
params_after q (object addr bytes fields) = q
params_after q (root desc ptr) = q
params_after q (goroutine g) = q

abbrev pub agreed : {U : Type 0} → Option ℕ × U → Option U
agreed (none, user) = some user
agreed (some code, user) = none

-- One call, where a callback that is nil does nothing, and one that refuses gives `none`.
unfoldable pub hand : {U : Type 0} → Option (Callback U) → U → Option U
hand none user = some user
hand (some callback) user = agreed (callback user)

module _ {U : Type 0} (callbacks : StreamCallbacks U) where
  abbrev pub hand_object : ℕ → List ℕ → Option (Option ℕ) → Option (List ℕ) → U → Option U
  hand_object addr bytes none pointers user = none
  hand_object addr bytes (some type_addr) none user = none
  hand_object addr bytes (some type_addr) (some pointers) user =
      hand (Option.map (λ f. f addr (or_zero type_addr) bytes pointers) callbacks.on_object) user

  unfoldable pub hand_item : DumpParams → Item → U → Option U
  hand_item q (params r) user = hand (Option.map (λ f. f r) callbacks.on_params) user
  hand_item q (typ t) user =
      hand (Option.map (λ f. f t.address t.size t.name t.indirect) callbacks.on_type) user
  hand_item q (object addr bytes fields) user =
      hand_object addr bytes (type_address bytes q.pointer_size q.big_endian)
        (extract_pointers bytes fields q.pointer_size q.big_endian) user
  hand_item q (root desc ptr) user = hand (Option.map (λ f. f desc ptr) callbacks.on_root) user
  hand_item q (goroutine g) user =
      hand (Option.map (λ f. f g.id g.status g.wait_reason) callbacks.on_goroutine) user

  -- The owner's state behind all records, `none` where a callback refuses or a read panics.
  unfoldable pub hand_items : DumpParams → List Item → U → Option U
  hand_items q [] user = some user
  hand_items q (item ∷ items) user = elim (hand_item q item user) [
    | none ↦ none
    | some user' ↦ hand_items (params_after q item) items user'
  ]
