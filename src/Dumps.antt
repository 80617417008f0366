-- ===== src/Dumps.antt =====
-- A Go heap dump through heapdump/goheap/parser.go and then through the analyses of graph/.
pub mod Formats
pub mod Edges
mod Examples
use heaplens.Base.{
  ℕ, zero, suc, ◌^◌, ◌<◌, ◌≡◌, ◌≢◌, ◌⊎◌, inl, inr, refl, sym, ◌∙◌, arith, List, [], ◌∷◌,
}
use heaplens.Base.{Bool, true, false, Bool-cases, Option, none, some, ◌==◌, ◌||◌, length, All, ap}
use heaplens.Base.Dict.{Dict, lookup}
use heaplens.Run.{ok}
use heaplens.Graph.{Object, ObjId, MemGraph, Order, values, keys, num_objects, get_object}
use heaplens.Graph.Dominators.{new_forest, number_vertex, dominators}
use heaplens.Graph.Dominators.Empty.{any, is_zero, is_other_zero, dominators-of_empty_zero}
use heaplens.GoHeap.Parser.Loop.{parse_dump}
use heaplens.GoHeap.Parser.Built.{IsBare, iota}
use heaplens.GoHeap.Parser.Built.Dump.{parse_dump-IsBare, parse_dump_ids, parse_dump_roots}

none_other : (m : Dict Object) → All IsBare m → any is_other_zero (values m) ≡ false
none_other [] h = refl
none_other ((k, obj) ∷ m) ((e, bare), h) = rw bare (none_other m h)

zero_or_none :
    (m : Dict Object) (roots : List ObjId)
    → All IsBare m
    → keys m ≡ iota 0 (length m)
    → All (λ id. lookup id m ≢ none) roots
    → any is_zero (values m) ≡ true ⊎ (roots ≡ [])
unfolding lookup iota
zero_or_none [] [] bare ids rooted = inr refl
zero_or_none [] (id ∷ roots) bare ids (h, hs) = absurd (h refl)
zero_or_none ((k, obj) ∷ m) roots ((e, bare), h) ids rooted =
    let first : k ≡ 0 = cc in inl (rw (← e, first) refl)

-- Dominators returns the empty map on the graph of every dump that parses, whatever its objects and
-- roots, where the objects are fewer than 2^64.
pub dominators-parse_dump :
    (fuel : ℕ) (order : Order Object) (input : List ℕ) (g : MemGraph) (rest : List ℕ)
    → num_objects g < 2 ^ 64
    → parse_dump input ≡ ok g rest
    → dominators (suc fuel) order g ≡ ok [] (number_vertex 0 none new_forest)
unfolding num_objects get_object
dominators-parse_dump fuel order input g rest few e =
    let bare = parse_dump-IsBare input g rest e in
    dominators-of_empty_zero fuel order g (none_other g.objects bare) (
      zero_or_none g.objects g.roots.ids bare (parse_dump_ids input g rest few e)
        (parse_dump_roots input g rest e))
