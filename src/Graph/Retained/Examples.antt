-- ===== src/Graph/Retained/Examples.antt =====
-- graph/retained.go: retained sizes of a small graph, and the theorems at concrete inputs.
use heaplens.Base.{List, suc, length, refl, ◌≤◌, ◌<◌, ◌≡◌, arith, [], ◌∷◌, All, some}
use heaplens.Base.Dict.{lookup, insert}
use heaplens.Run.{Outcome, ok, err, panic, stuck}
use heaplens.Graph.{ObjId, for_each_object, get_roots}
use heaplens.Graph.Dominators.{Forest, dominators, build_adj}
use heaplens.Graph.Dominators.Edges.{collected}
use heaplens.Graph.Dominators.Total.{nodes_of, number_of, IsAcyclic, dominators-IsAcyclic}
use heaplens.Graph.Tree.{Idom, children, add_child, empty_tree, dominator_tree}
use heaplens.Graph.Examples.{All-children, rank}
use heaplens.Graph.Examples.{in_order, diamond, diamond_dominators, diamond_idom, result_of}
use heaplens.Graph.Retained.{Sizes, Orders, object_sizes, retained_size, retained_size_subsets}
use heaplens.Graph.Keyed.{IsKeyed}
use heaplens.Graph.Retained.Memo.{IsRanked}
use heaplens.Graph.Retained.Subsets.{expected, retained_size_subsets-expected}
use heaplens.Graph.Retained.Whole.{HasSize}
use heaplens.Graph.Dominators.Reached.{IsSearched, dominators-IsSearched}
use heaplens.Graph.Dominators.Answers.{is_dominated-dominators}
use heaplens.Graph.Paths.{contains}
use heaplens.Graph.Tree.Levels.{level_of, dominator_depth-dominators}
use heaplens.Graph.Tree.Depths.{AreLevels}
use heaplens.Graph.Tree.{dominator_depth, dominator_path, is_dominated}
use heaplens.Graph.Retained.Total.{rank_of, retained_size_total}
use mathlib.Core.List.Perm

abbrev orders : Orders
orders = record {
  objects = in_order;
  sizes = in_order;
  nodes = record { arrange = λ xs. xs; arrange-perm = Perm.refl };
  edges = record { arrange = λ xs. xs; arrange-perm = Perm.refl };
  tree = record { arrange = λ xs. xs; arrange-perm = Perm.refl };
}

ok_state :
    {A : Type 0} (a : A) (o : Outcome ⊥ Forest A)
    → result_of o ≡ some a
    → (s : Forest) × (o ≡ ok a s)
ok_state a (ok b s) e = (s, cc)
ok_state a (err x s) e = absurd x
ok_state a panic e = absurd cc
ok_state a stuck e = absurd cc

diamond-IsRanked : IsRanked rank (dominator_tree orders.nodes orders.edges diamond_dominators)
unfolding dominator_tree empty_tree add_child children insert lookup
diamond-IsRanked =
    All-children (λ id child. rank child < rank id)
      (dominator_tree orders.nodes orders.edges diamond_dominators)
      (
        tt,
        (
          tt,
          (
            (omega arith, tt),
            (tt, ((omega arith, (omega arith, (omega arith, tt))), ((omega arith, tt), tt))),
          ),
        ),
      )

diamond-IsKeyed : IsKeyed diamond.objects
unfolding lookup
diamond-IsKeyed = (refl, refl, (refl, refl, (refl, refl, (refl, refl, tt))))

abbrev diamond_state : (s : Forest) × (dominators 10 in_order diamond ≡ ok diamond_dominators s)
diamond_state = ok_state diamond_dominators (dominators 10 in_order diamond) diamond_idom

retained_size_subsets-expected_example :
    (result after : Sizes) × (retained_size_subsets 10 orders diamond (4 ∷ 0 ∷ 9 ∷ 77 ∷ [])
      ≡ ok result after)
    × ((id : ObjId)
        → lookup id result
          ≡ expected
              (dominator_tree orders.nodes orders.edges diamond_dominators)
              (object_sizes in_order diamond)
              rank
              diamond-IsRanked
              diamond
              (4 ∷ 0 ∷ 9 ∷ 77 ∷ [])
              id)
retained_size_subsets-expected_example =
    retained_size_subsets-expected 10 orders diamond (4 ∷ 0 ∷ 9 ∷ 77 ∷ []) diamond_dominators
      diamond_state.0 rank diamond-IsRanked diamond-IsKeyed diamond_state.1
      (omega arith, (omega arith, (omega arith, (omega arith, tt))))

low : All (λ entry. rank entry.0 < 10) (dominator_tree orders.nodes orders.edges diamond_dominators)
unfolding dominator_tree empty_tree add_child children insert lookup
low = (omega arith, (omega arith, (omega arith, (omega arith, (omega arith, (omega arith, tt))))))

-- The vertices of the diamond: 0, the root, and the end of each of its six pointers.
diamond_nodes : length (nodes_of (collected in_order diamond) (get_roots diamond).ids) ≡ 8
unfolding for_each_object build_adj get_roots insert
diamond_nodes = refl

dominators-IsAcyclic_example :
    (idom : Idom) × (s : Forest) × (dominators 9 in_order diamond ≡ ok idom s)
    × IsAcyclic idom s
    × (length s.vertex ≤ length (nodes_of (collected in_order diamond) (get_roots diamond).ids))
dominators-IsAcyclic_example =
    dominators-IsAcyclic 9 in_order diamond (omega (arith, diamond_nodes))

dominators-IsSearched_example :
    (idom : Idom) × (s : Forest) × (dominators 9 in_order diamond ≡ ok idom s)
    × IsSearched (build_adj (collected in_order diamond) (get_roots diamond).ids) idom s
dominators-IsSearched_example =
    dominators-IsSearched 9 in_order diamond (omega (arith, diamond_nodes))

retained_size_total_example :
    (idom : Idom) × (s : Forest) × (dominators 9 orders.objects diamond ≡ ok idom s)
    × (ranked : IsRanked (rank_of s) (dominator_tree orders.nodes orders.edges idom))
    × (result : Sizes) × (after : Sizes) × (retained_size 9 orders diamond ≡ ok result after)
    × All
        (λ entry.
          HasSize
            (dominator_tree orders.nodes orders.edges idom)
            (object_sizes orders.sizes diamond)
            (rank_of s)
            ranked
            9
            result
            entry.0)
        (orders.tree.arrange (dominator_tree orders.nodes orders.edges idom))
retained_size_total_example = retained_size_total 9 orders diamond (omega (arith, diamond_nodes))

is_dominated-dominators_example :
    (idom : Idom) × (s : Forest) × (dominators 9 in_order diamond ≡ ok idom s)
    × (path : List ObjId) × (dominator_path (suc (number_of s 4)) idom 4 ≡ some path)
    × (is_dominated (suc (number_of s 4)) idom 4 1 ≡ some (contains path 1))
is_dominated-dominators_example =
    is_dominated-dominators 9 in_order diamond 4 1 (omega (arith, diamond_nodes)) (omega arith)

dominator_depth-dominators_example :
    (idom : Idom) × (s : Forest) × (dominators 9 in_order diamond ≡ ok idom s)
    × (depth : Sizes) × (dominator_depth 9 (dominator_tree orders.nodes orders.edges idom)
        ≡ some depth)
    × AreLevels (level_of idom s) depth
dominator_depth-dominators_example =
    dominator_depth-dominators 9 in_order orders.nodes orders.edges diamond
      (omega (arith, diamond_nodes))
