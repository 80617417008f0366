-- ===== src/GoHeap/Parser/Built.antt =====
-- What the parser has built when it succeeds.
pub mod Keeps
pub mod Dump
use heaplens.Base.{
  All-snoc, ℕ, zero, suc, ◌+◌, ◌%◌, ◌^◌, ◌≤◌, ◌<◌, ◌≡◌, ◌≢◌, ◌⊎◌, inl, inr, refl, sym, ap, ◌∙◌,
}
use heaplens.Base.{arith, List, [], ◌∷◌, ◌++◌, Option, none, some, ◌==◌, if◌then◌else◌, length, All}
use heaplens.Base.Dict.{Dict, lookup, insert, lookup-insert}
use heaplens.GoHeap.Parser.{Parser}
use heaplens.GoHeap.Parser.Objects.{append_root}
use native.Mathlib.Decide.{dec_lt}
use native.Mathlib.Numerals.{add-one}
use heaplens.Graph.{Object, ObjId, MemGraph, keys, add_object, num_objects}

-- start, start + 1, …, start + n - 1
unfoldable pub iota : ℕ → ℕ → List ℕ
iota start zero = []
iota start (suc n) = start ∷ iota (start + 1) n

-- An object that the parser makes: stored under its ID, and without any pointer.
abbrev pub IsBare : ℕ × Object → Type 0
IsBare (k, obj) = (k ≡ obj.id) × (obj.ptrs ≡ some [])

-- Either fewer than 2^64 objects were read, and their IDs count up from 0, or there are 2^64.
abbrev pub AreNumbered : List ℕ → ObjId → ℕ → Type 0
AreNumbered ids next n = (n < 2 ^ 64) × (next ≡ n) × (ids ≡ iota 0 n) ⊎ (2 ^ 64 ≤ length ids)

pub record Built (objects : Dict Object) (addrs : Dict ObjId) (roots : List ObjId) (next : ObjId)
    (n : ℕ) : Type 0 where
  pub bare : All IsBare objects
  pub numbered : AreNumbered (keys objects) next n
  pub mapped : (addr id : ℕ) → lookup addr addrs ≡ some id → lookup id objects ≢ none
  pub rooted : All (λ id. lookup id objects ≢ none) roots

abbrev pub IsBuilt : Parser → Type 0
IsBuilt p = Built p.g.objects p.addr_to_obj_id p.roots p.next_obj_id p.stats.objects

All-insert :
    (k : ℕ) (obj : Object) (m : Dict Object)
    → IsBare (k, obj)
    → All IsBare m
    → All IsBare (insert k obj m)
unfolding insert
All-insert k obj [] h hs = (h, tt)
All-insert k obj ((j, w) ∷ m) h (hw, hs) = ground (arith, All-insert k obj m h hs)

pub iota-snoc : (start n : ℕ) → iota start n ++ (start + n) ∷ [] ≡ iota start (suc n)
unfolding iota
iota-snoc start zero = ground arith
iota-snoc start (suc n) =
    let e : start + suc n ≡ start + 1 + n = omega arith in
    rw e (ap (λ t. start ∷ t) (iota-snoc (start + 1) n))

keys-insert_fresh :
    (k : ℕ) (obj : Object) (m : Dict Object)
    → lookup k m ≡ none
    → keys (insert k obj m) ≡ keys m ++ k ∷ []
unfolding lookup insert
keys-insert_fresh k obj [] e = refl
keys-insert_fresh k obj ((j, w) ∷ m) e = ground (arith, keys-insert_fresh k obj m)

length-keys-insert :
    (k : ℕ) (obj : Object) (m : Dict Object) → length (keys m) ≤ length (keys (insert k obj m))
unfolding insert
length-keys-insert k obj [] = omega arith
length-keys-insert k obj ((j, w) ∷ m) = ground (arith, length-keys-insert k obj m)

pub length-iota : (start n : ℕ) → length (iota start n) ≡ n
unfolding iota
length-iota start zero = refl
length-iota start (suc n) = ap suc (length-iota (start + 1) n)

-- A key past the numbered ones is free.
lookup-past :
    (m : Dict Object) (start n k : ℕ) → keys m ≡ iota start n → start + n ≤ k → lookup k m ≡ none
unfolding lookup iota
lookup-past [] start n k e h = refl
lookup-past ((j, w) ∷ m) start zero k e h = cc
lookup-past ((j, w) ∷ m) start (suc n) k e h = ground (arith, lookup-past m (start + 1) n k)

iota_next : (next n : ℕ) → next ≡ n → iota 0 n ++ next ∷ [] ≡ iota 0 (n + 1)
iota_next next n e =
    let e' : next ≡ 0 + n = omega arith in
    let s : n + 1 ≡ suc n = omega arith in rw (e', s) (iota-snoc 0 n)

AreNumbered-insert :
    (obj : Object) (m : Dict Object) (next n : ℕ)
    → AreNumbered (keys m) next n
    → AreNumbered (keys (insert next obj m)) ((next + 1) % 2 ^ 64) (n + 1)
AreNumbered-insert obj m next n (inr many) = inr (omega (arith, length-keys-insert next obj m))
AreNumbered-insert obj m next n (inl (few, e, ids)) =
    let all : keys (insert next obj m) ≡ iota 0 (n + 1) =
      keys-insert_fresh next obj m (lookup-past m 0 n next ids (omega arith))
      ∙ rw ids (iota_next next n e) in
    elim (dec_lt (n + 1) (2 ^ 64)) [
      | yes more ↦ inl (more, omega arith, all)
      | no full ↦ inr (omega (arith, ap length all, length-iota 0 (n + 1)))
    ]

-- What is in the graph stays there.
stays :
    (k j : ℕ) (obj : Object) (m : Dict Object)
    → lookup j m ≢ none
    → lookup j (insert k obj m) ≢ none
stays k j obj m h = ground (arith, lookup-insert k j obj m)

All-stays :
    (k : ℕ) (obj : Object) (m : Dict Object) (ids : List ObjId)
    → All (λ id. lookup id m ≢ none) ids
    → All (λ id. lookup id (insert k obj m) ≢ none) ids
All-stays k obj m [] h = tt
All-stays k obj m (id ∷ ids) (h, hs) = (stays k id obj m h, All-stays k obj m ids hs)

-- A new object keeps all of it.
pub Built-object :
    (objects : Dict Object) (addrs : Dict ObjId) (roots : List ObjId) (next n addr size : ℕ)
    (name : List ℕ)
    → Built objects addrs roots next n
    → Built
        (insert next (record { id = next; typ = name; size = size; ptrs = some [] }) objects)
        (insert addr next addrs)
        roots
        ((next + 1) % 2 ^ 64)
        (n + 1)
Built-object objects addrs roots next n addr size name h =
    let obj : Object = record { id = next; typ = name; size = size; ptrs = some [] } in
    record {
      bare = All-insert next obj objects (refl, refl) h.bare;
      numbered = AreNumbered-insert obj objects next n h.numbered;
      mapped = λ a id e. ground (
        arith,
        lookup-insert addr a next addrs,
        lookup-insert next id obj objects,
        h.mapped a id,
      );
      rooted = All-stays next obj objects roots h.rooted;
    }

-- A root that is kept is an object of the graph.
rooted_more :
    (objects : Dict Object) (roots : List ObjId) (found : Option ObjId)
    → All (λ id. lookup id objects ≢ none) roots
    → ((id : ObjId) → found ≡ some id → lookup id objects ≢ none)
    → All (λ id. lookup id objects ≢ none) (append_root roots found)
rooted_more objects roots none h f = h
rooted_more objects roots (some id) h f = All-snoc _ roots id h (f id refl)

pub Built-root :
    (objects : Dict Object) (addrs : Dict ObjId) (roots : List ObjId) (next n ptr : ℕ)
    → Built objects addrs roots next n
    → Built objects addrs (append_root roots (lookup ptr addrs)) next n
Built-root objects addrs roots next n ptr h = record {
  bare = h.bare;
  numbered = h.numbered;
  mapped = h.mapped;
  rooted = rooted_more objects roots (lookup ptr addrs) h.rooted (h.mapped ptr);
}
