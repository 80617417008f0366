-- ===== src/Spikes/HeapParser.antt =====
-- spikes/goformat/heap_parser.go: the dump that the prototype builds, and how its methods read. readVarint,
-- readString and readBytes read as those of heapdump/goheap/parser.go do, and a Type and a Field have the
-- fields of TypeInfo and PointerField. `r` is the input that is left.
pub mod Records
pub mod Loop
pub mod Ending
pub mod Calm
pub mod Items
pub mod Reads
pub mod Runs
pub mod Whole
pub mod Keyed
mod Examples
use heaplens.Base.{ℕ, List, [], Bool, false, Option, none, some}
use heaplens.Base.Dict.{Dict}
use heaplens.Run.{Outcome, ok, err, panic, stuck, Run}
use heaplens.GoHeap.Wire.{Error, Reader}
use heaplens.GoHeap.Records.{PointerField}
use heaplens.GoHeap.Parser.{TypeInfo}

pub record HeapObject : Type 0 where
  pub address : ℕ
  pub size : ℕ
  pub type_addr : ℕ
  pub bytes : List ℕ
  pub fields : List PointerField

pub record Root : Type 0 where
  pub description : List ℕ
  pub pointer : ℕ

pub record Goroutine : Type 0 where
  pub address : ℕ
  pub stack_pointer : ℕ
  pub id : ℕ
  pub status : ℕ
  pub is_system : Bool
  pub is_background : Bool
  pub wait_since : ℕ
  pub wait_reason : List ℕ

pub record Frame : Type 0 where
  pub sp : ℕ
  pub depth : ℕ
  pub child_sp : ℕ
  pub bytes : List ℕ
  pub entry_pc : ℕ
  pub pc : ℕ
  pub cont_pc : ℕ
  pub name : List ℕ

pub record MemStats : Type 0 where
  pub alloc : ℕ
  pub total_alloc : ℕ
  pub sys : ℕ
  pub n_lookup : ℕ
  pub n_malloc : ℕ
  pub n_free : ℕ
  pub heap_alloc : ℕ
  pub heap_sys : ℕ

-- `mem_stats` is `none` where the pointer is nil.
pub record HeapDump : Type 0 where
  pub big_endian : Bool
  pub pointer_size : ℕ
  pub heap_start : ℕ
  pub heap_end : ℕ
  pub architecture : List ℕ
  pub go_version : List ℕ
  pub num_cpus : ℕ
  pub types : Dict TypeInfo
  pub objects : Dict HeapObject
  pub roots : List Root
  pub goroutines : List Goroutine
  pub stack_frames : List Frame
  pub mem_stats : Option MemStats

pub record Parser : Type 0 where
  pub r : List ℕ
  pub dump : HeapDump

abbrev pub empty_dump : HeapDump
empty_dump = record {
  big_endian = false;
  pointer_size = 0;
  heap_start = 0;
  heap_end = 0;
  architecture = [];
  go_version = [];
  num_cpus = 0;
  types = [];
  objects = [];
  roots = [];
  goroutines = [];
  stack_frames = [];
  mem_stats = none;
}

unfoldable pub new_parser : List ℕ → Parser
new_parser r = record { r = r; dump = empty_dump }

abbrev pub Parse : Type 0 → Type 0
Parse A = Run Error Parser A

abbrev pub resume : {A : Type 0} → HeapDump → Outcome Error (List ℕ) A → Outcome Error Parser A
resume dump (ok a r) = ok a (record { r = r; dump = dump })
resume dump (err e r) = err e (record { r = r; dump = dump })
resume dump panic = panic
resume dump stuck = stuck

-- A read from `p.r`.
unfoldable pub reading : {A : Type 0} → Reader A → Parse A
reading m p = resume p.dump (m p.r)

-- A change of `p.dump`.
unfoldable pub edit : (HeapDump → HeapDump) → Parse (Unit {0})
edit f p = ok tt (record p { dump = f p.dump })
