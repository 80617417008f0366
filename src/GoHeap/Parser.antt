-- ===== src/GoHeap/Parser.antt =====
-- heapdump/goheap/parser.go: the state of the parser, and how its methods read. `r` is the input that
-- is left. The counters of stats are kept without their mutex, since the parser has one goroutine.
pub mod Skip
pub mod Objects
pub mod Loop
pub mod Agree
pub mod Totality
pub mod Termination
pub mod Built
pub mod Items
pub mod Known
pub mod Reads
pub mod Runs
pub mod Written
pub mod Examples
use heaplens.Base.{ℕ, List, [], Bool, false, Option, none, some}
use heaplens.Base.Dict.{Dict}
use heaplens.Run.{Outcome, ok, err, panic, stuck, Run}
use heaplens.GoHeap.Wire.{Error, Context, wrap, Reader}
use heaplens.Graph.{MemGraph, ObjId, new_mem_graph}

pub record TypeInfo : Type 0 where
  pub address : ℕ
  pub size : ℕ
  pub name : List ℕ
  pub indirect : Bool

pub record Stats : Type 0 where
  pub objects : ℕ
  pub types : ℕ
  pub roots : ℕ
  pub goroutines : ℕ

pub record Parser : Type 0 where
  pub r : List ℕ
  pub g : MemGraph
  pub types : Dict TypeInfo
  pub addr_to_obj_id : Dict ObjId
  pub roots : List ObjId
  pub next_obj_id : ObjId
  pub big_endian : Bool
  pub pointer_size : ℕ
  pub heap_start : ℕ
  pub heap_end : ℕ
  pub arch : List ℕ
  pub go_version : List ℕ
  pub num_cpus : ℕ
  pub stats : Stats

abbrev pub Parse : Type 0 → Type 0
Parse A = Run Error Parser A

-- The parser that (*GoHeapParser).Parse makes over an input.
unfoldable pub new_parser : List ℕ → Parser
new_parser input = record {
  r = input;
  g = new_mem_graph;
  types = [];
  addr_to_obj_id = [];
  roots = [];
  next_obj_id = 0;
  big_endian = false;
  pointer_size = 0;
  heap_start = 0;
  heap_end = 0;
  arch = [];
  go_version = [];
  num_cpus = 0;
  stats = record { objects = 0; types = 0; roots = 0; goroutines = 0 };
}

abbrev pub resume : {A : Type 0} → Parser → Outcome Error (List ℕ) A → Outcome Error Parser A
resume p (ok a r) = ok a (record p { r = r })
resume p (err e r) = err e (record p { r = r })
resume p panic = panic
resume p stuck = stuck

-- A read from `p.r`.
unfoldable pub reading : {A : Type 0} → Reader A → Parse A
reading m p = resume p (m p.r)

unfoldable pub modify : (Parser → Parser) → Parse (Unit {0})
modify f p = ok tt (f p)

abbrev pub in_context : {A S : Type 0} → Context → Outcome Error S A → Outcome Error S A
in_context c (ok a p) = ok a p
in_context c (err e p) = err (wrap c e) p
in_context c panic = panic
in_context c stuck = stuck

-- `if err := m(); err != nil { return fmt.Errorf("c: %w", err) }`
unfoldable pub wrapping : {A S : Type 0} → Context → Run Error S A → Run Error S A
wrapping c m p = in_context c (m p)
