-- ===== src/GoHeap/Records.antt =====
-- heapdump/goheap/records.go: the records of a dump. A []byte and a string are lists of bytes, and
-- a field that the source calls Data is `bytes` here.
pub mod Parsers
pub mod Encode
pub mod RoundTrip
pub mod Full
use heaplens.Base.{ℕ, List, Bool}

pub record Finalizer : Type 0 where
  pub object : ℕ
  pub function : ℕ
  pub func_val : ℕ
  pub func_type : ℕ
  pub obj_type : ℕ

pub record Itab : Type 0 where
  pub interface : ℕ
  pub typ : ℕ

pub record PointerField : Type 0 where
  pub kind : ℕ
  pub offset : ℕ

pub record StackFrame : Type 0 where
  pub sp : ℕ
  pub depth : ℕ
  pub child_sp : ℕ
  pub bytes : List ℕ
  pub entry_pc : ℕ
  pub pc : ℕ
  pub cont_pc : ℕ
  pub name : List ℕ
  pub pointers : List PointerField

pub record OsThread : Type 0 where
  pub id : ℕ
  pub os_thread_id : ℕ
  pub go_id : ℕ

pub record MemProfFrame : Type 0 where
  pub function : List ℕ
  pub file : List ℕ
  pub line : ℕ

pub record MemProfRecord : Type 0 where
  pub bucket_id : ℕ
  pub size : ℕ
  pub allocs : ℕ
  pub frees : ℕ
  pub stack : List MemProfFrame

pub record DataSegment : Type 0 where
  pub address : ℕ
  pub bytes : List ℕ
  pub pointers : List PointerField

pub record DeferRecord : Type 0 where
  pub address : ℕ
  pub gp : ℕ
  pub argp : ℕ
  pub pc : ℕ
  pub fn : ℕ
  pub fn_entry : ℕ
  pub link : ℕ

pub record PanicRecord : Type 0 where
  pub address : ℕ
  pub gp : ℕ
  pub typ : ℕ
  pub bytes : ℕ
  pub defer : ℕ
  pub link : ℕ

pub record GoroutineFull : Type 0 where
  pub address : ℕ
  pub stack_top : ℕ
  pub id : ℕ
  pub status : ℕ
  pub is_system : Bool
  pub is_background : Bool
  pub wait_since : ℕ
  pub wait_reason : List ℕ
  pub ctxt_addr : ℕ
  pub m_addr : ℕ
  pub defer_addr : ℕ
  pub panic_addr : ℕ

-- The fields that the code fills. The seventeen that follow HeapObjects in the source are never
-- written and keep Go's zero value.
pub record MemStatsFull : Type 0 where
  pub alloc : ℕ
  pub total_alloc : ℕ
  pub sys : ℕ
  pub lookups : ℕ
  pub mallocs : ℕ
  pub frees : ℕ
  pub heap_alloc : ℕ
  pub heap_sys : ℕ
  pub heap_idle : ℕ
  pub heap_inuse : ℕ
  pub heap_released : ℕ
  pub heap_objects : ℕ

pub record AllocSample : Type 0 where
  pub address : ℕ
  pub profile : ℕ
  pub size : ℕ
  pub num_alloc : ℕ
  pub num_free : ℕ
