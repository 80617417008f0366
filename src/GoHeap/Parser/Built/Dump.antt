-- ===== src/GoHeap/Parser/Built/Dump.antt =====
-- The graph of a successful parse, from the empty graph through every record.
use heaplens.Base.{ℕ, zero, suc, ◌^◌, ◌≡◌, ◌<◌, ◌≢◌, inl, inr, refl, arith, List, [], ◌∷◌}
use heaplens.Base.{◌==◌, none, length, All, ap}
use heaplens.Base.Dict.{lookup}
use heaplens.Run.{Outcome, ok, err, panic, stuck}
use heaplens.GoHeap.Wire.{Error}
use heaplens.GoHeap.Parser.{Parser, new_parser, modify}
use heaplens.GoHeap.Parser.Loop.{finalize, read_tag, parse_loop}
use heaplens.GoHeap.Parser.Loop.{check_header, parse, parsed, parse_dump, tag_eof}
use heaplens.GoHeap.Parser.Built.{IsBuilt, IsBare, AreNumbered, iota, length-iota}
use heaplens.Base.Dict.{Dict}
use mathlib.Core.Path.{subst}
use heaplens.GoHeap.Parser.Built.Keeps.{Keeps, Keeps-record, Keeps-reading}
use heaplens.Run.Yields.{YieldsAt, Yields, Yields-pure, Yields-raise, Yields-exhausted}
use heaplens.Run.Yields.{Yields-bind, Yields-if, Yields-bool, Yields-option}
use heaplens.Graph.{Object, MemGraph, keys, num_objects, get_object, new_mem_graph, set_roots}

-- The graph is built, and has the roots that the parser found.
abbrev IsDone : Parser → Type 0
IsDone p = IsBuilt p × (p.g.roots.ids ≡ p.roots)

Yields-finalize : Yields IsBuilt finalize (λ a. IsDone)
unfolding finalize modify set_roots
Yields-finalize = record { at = λ p h. (h, refl) }

Yields-loop : (fuel : ℕ) → Yields IsBuilt (parse_loop fuel) (λ a. IsDone)
unfolding parse_loop
Yields-loop zero = Yields-exhausted
Yields-loop (suc fuel) =
    Yields-bind (λ a. IsBuilt) (Keeps-reading read_tag)
      (λ next. Yields-option next Yields-finalize (λ tag.
        Yields-bool (tag == tag_eof) (λ e. Yields-finalize)
          (λ e. Yields-bind (λ a. IsBuilt) (Keeps-record tag) (λ u. Yields-loop fuel))))

Keeps-header : (header : List ℕ) → Keeps (check_header header)
unfolding check_header
Keeps-header header = Yields-if _ (Yields-pure tt (λ p h. h)) (Yields-raise _)

start-IsBuilt : (input : List ℕ) → IsBuilt (new_parser input)
unfolding new_parser new_mem_graph lookup iota
start-IsBuilt input = record {
  bare = tt;
  numbered = inl (omega arith, refl, refl);
  mapped = λ a id e. cc;
  rooted = tt;
}

Yields-parse : Yields IsBuilt parse (λ a. IsDone)
unfolding parse
Yields-parse = record {
  at = λ p.
      (Yields-bind (λ a. IsBuilt) (Keeps-reading _)
          (λ header.
            Yields-bind (λ a. IsBuilt) (Keeps-header header)
              (λ u. record { at = λ q. (Yields-loop (suc (length q.r))).at q }))).at
        p;
}

-- The final state behind a graph that was returned.
parsed_state :
    (o : Outcome Error Parser (Unit {0})) {g : MemGraph} {rest : List ℕ}
    → YieldsAt (λ a. IsDone) o
    → parsed o ≡ ok g rest
    → (p : Parser) × IsDone p × (p.g ≡ g)
parsed_state (ok u p) h e = (p, h, cc)
parsed_state (err x p) h e = cc
parsed_state panic h e = cc
parsed_state stuck h e = cc

dump_state :
    (input : List ℕ) {g : MemGraph} {rest : List ℕ}
    → parse_dump input ≡ ok g rest
    → (p : Parser) × IsDone p × (p.g ≡ g)
unfolding parse_dump
dump_state input e =
    parsed_state (parse (new_parser input))
      (Yields-parse.at (new_parser input) (start-IsBuilt input)) e

-- The graph of every dump that parses has no edge: each of its objects is stored under its own ID
-- and has an empty list of pointers.
pub parse_dump-IsBare :
    (input : List ℕ) (g : MemGraph) (rest : List ℕ)
    → parse_dump input ≡ ok g rest
    → All IsBare g.objects
parse_dump-IsBare input g rest e =
    let (p, (built, roots), same) = dump_state input e in
    subst (λ h. All IsBare h.objects) same built.bare

-- Every root of the graph of a dump that parses is an object of the graph.
pub parse_dump_roots :
    (input : List ℕ) (g : MemGraph) (rest : List ℕ)
    → parse_dump input ≡ ok g rest
    → All (λ id. get_object g id ≢ none) g.roots.ids
unfolding get_object
parse_dump_roots input g rest e =
    let (p, (built, roots), same) = dump_state input e in
    subst (λ h. All (λ id. lookup id h.objects ≢ none) h.roots.ids) same (rw roots built.rooted)

length-keys : (m : Dict Object) → length (keys m) ≡ length m
length-keys [] = refl
length-keys ((k, v) ∷ m) = ap suc (length-keys m)

numbered_ids :
    (m : Dict Object) (next n : ℕ)
    → AreNumbered (keys m) next n
    → length m < 2 ^ 64
    → keys m ≡ iota 0 (length m)
numbered_ids m next n (inr many) few = absurd (omega (arith, length-keys m))
numbered_ids m next n (inl (lt, e, ids)) few =
    let size : n ≡ length m = omega (arith, ap length ids, length-iota 0 n, length-keys m) in
    rw (← size) ids

-- The IDs of the graph of a dump that parses are 0, 1, 2 and so on, as many as there are objects,
-- where these are fewer than 2^64.
pub parse_dump_ids :
    (input : List ℕ) (g : MemGraph) (rest : List ℕ)
    → num_objects g < 2 ^ 64
    → parse_dump input ≡ ok g rest
    → keys g.objects ≡ iota 0 (num_objects g)
unfolding num_objects
parse_dump_ids input g rest few e =
    let (p, (built, roots), same) = dump_state input e in
    let objects : p.g.objects ≡ g.objects = ap (λ h. h.objects) same in
    subst (λ m. keys m ≡ iota 0 (length m)) objects
      (numbered_ids p.g.objects p.next_obj_id p.stats.objects built.numbered (rw objects few))
