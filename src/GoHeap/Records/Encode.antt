-- ===== src/GoHeap/Records/Encode.antt =====
-- The writers of the records, field after field in the order of the format, and what a record must
-- satisfy to be written: numbers of 64 bits, lengths within the reader's limits.
use heaplens.Base.{ℕ, ◌≤◌, ◌≢◌, List, [], ◌∷◌, ◌++◌, Bool}
use heaplens.Base.{if◌then◌else◌, length, All, ◌≡◌}
use heaplens.GoHeap.Wire.{IsU64, max_string, max_bytes}
use heaplens.GoHeap.Wire.Encode.{put_varint, put_varints, put_string}
use heaplens.GoHeap.Records.{Finalizer, Itab, PointerField, StackFrame, OsThread, MemProfFrame}
use heaplens.GoHeap.Records.{MemProfRecord, DataSegment, DeferRecord, PanicRecord, GoroutineFull}
use heaplens.GoHeap.Records.{MemStatsFull, AllocSample}
use heaplens.GoHeap.Records.Parsers.{max_frames}

abbrev pub put_chunks : List (List ℕ) → List ℕ
put_chunks [] = []
put_chunks (c ∷ cs) = c ++ put_chunks cs

abbrev pub IsString : List ℕ → Type 0
IsString s = length s ≤ max_string

abbrev pub IsBytes : List ℕ → Type 0
IsBytes s = length s ≤ max_bytes

unfoldable pub put_finalizer : Finalizer → List ℕ
put_finalizer f = put_chunks (
    put_varint f.object
    ∷ put_varint f.function
    ∷ put_varint f.func_val
    ∷ put_varint f.func_type
    ∷ put_varint f.obj_type
    ∷ [])

pub record IsFinalizer (f : Finalizer) : Type 0 where
  pub object : IsU64 f.object
  pub function : IsU64 f.function
  pub func_val : IsU64 f.func_val
  pub func_type : IsU64 f.func_type
  pub obj_type : IsU64 f.obj_type

unfoldable pub put_itab : Itab → List ℕ
put_itab i = put_chunks (put_varint i.interface ∷ put_varint i.typ ∷ [])

pub record IsItab (i : Itab) : Type 0 where
  pub interface : IsU64 i.interface
  pub typ : IsU64 i.typ

-- The list of fields ends with the kind 0.
unfoldable pub put_pointer_fields : List PointerField → List ℕ
put_pointer_fields [] = put_varint 0 ++ []
put_pointer_fields (p ∷ ps) = put_varint p.kind ++ (put_varint p.offset ++ put_pointer_fields ps)

pub record IsPointerField (p : PointerField) : Type 0 where
  pub nonzero : p.kind ≢ 0
  pub kind : IsU64 p.kind
  pub offset : IsU64 p.offset

unfoldable pub put_stack_frame : StackFrame → List ℕ
put_stack_frame f = put_chunks (
    put_varint f.sp
    ∷ put_varint f.depth
    ∷ put_varint f.child_sp
    ∷ put_string f.bytes
    ∷ put_varint f.entry_pc
    ∷ put_varint f.pc
    ∷ put_varint f.cont_pc
    ∷ put_string f.name
    ∷ put_pointer_fields f.pointers
    ∷ [])

pub record IsStackFrame (f : StackFrame) : Type 0 where
  pub sp : IsU64 f.sp
  pub depth : IsU64 f.depth
  pub child_sp : IsU64 f.child_sp
  pub bytes : IsBytes f.bytes
  pub entry_pc : IsU64 f.entry_pc
  pub pc : IsU64 f.pc
  pub cont_pc : IsU64 f.cont_pc
  pub name : IsString f.name
  pub pointers : All IsPointerField f.pointers

unfoldable pub put_os_thread : OsThread → List ℕ
put_os_thread t = put_chunks (put_varint t.id ∷ put_varint t.os_thread_id ∷ put_varint t.go_id ∷ [])

pub record IsOsThread (t : OsThread) : Type 0 where
  pub id : IsU64 t.id
  pub os_thread_id : IsU64 t.os_thread_id
  pub go_id : IsU64 t.go_id

unfoldable pub put_frames : List MemProfFrame → List ℕ
put_frames [] = []
put_frames (f ∷ fs) =
    put_string f.function ++ (put_string f.file ++ (put_varint f.line ++ put_frames fs))

pub record IsMemProfFrame (f : MemProfFrame) : Type 0 where
  pub function : IsString f.function
  pub file : IsString f.file
  pub line : IsU64 f.line

unfoldable pub put_mem_prof : MemProfRecord → List ℕ
put_mem_prof m = put_chunks (
    put_varint m.bucket_id
    ∷ put_varint m.size
    ∷ put_varint (length m.stack)
    ∷ []
    ∷ put_frames m.stack
    ∷ put_varint m.allocs
    ∷ put_varint m.frees
    ∷ [])

pub record IsMemProfRecord (m : MemProfRecord) : Type 0 where
  pub bucket_id : IsU64 m.bucket_id
  pub size : IsU64 m.size
  pub allocs : IsU64 m.allocs
  pub frees : IsU64 m.frees
  pub depth : length m.stack ≤ max_frames
  pub stack : All IsMemProfFrame m.stack

unfoldable pub put_data_segment : DataSegment → List ℕ
put_data_segment d =
    put_chunks (put_varint d.address ∷ put_string d.bytes ∷ put_pointer_fields d.pointers ∷ [])

pub record IsDataSegment (d : DataSegment) : Type 0 where
  pub address : IsU64 d.address
  pub bytes : IsBytes d.bytes
  pub pointers : All IsPointerField d.pointers

unfoldable pub put_defer : DeferRecord → List ℕ
put_defer d = put_chunks (
    put_varint d.address
    ∷ put_varint d.gp
    ∷ put_varint d.argp
    ∷ put_varint d.pc
    ∷ put_varint d.fn
    ∷ put_varint d.fn_entry
    ∷ put_varint d.link
    ∷ [])

pub record IsDeferRecord (d : DeferRecord) : Type 0 where
  pub address : IsU64 d.address
  pub gp : IsU64 d.gp
  pub argp : IsU64 d.argp
  pub pc : IsU64 d.pc
  pub fn : IsU64 d.fn
  pub fn_entry : IsU64 d.fn_entry
  pub link : IsU64 d.link

unfoldable pub put_panic : PanicRecord → List ℕ
put_panic p = put_chunks (
    put_varint p.address
    ∷ put_varint p.gp
    ∷ put_varint p.typ
    ∷ put_varint p.bytes
    ∷ put_varint p.defer
    ∷ put_varint p.link
    ∷ [])

pub record IsPanicRecord (p : PanicRecord) : Type 0 where
  pub address : IsU64 p.address
  pub gp : IsU64 p.gp
  pub typ : IsU64 p.typ
  pub bytes : IsU64 p.bytes
  pub defer : IsU64 p.defer
  pub link : IsU64 p.link

abbrev pub put_bool : Bool → List ℕ
put_bool b = put_varint (if b then 1 else 0)

unfoldable pub put_goroutine : GoroutineFull → List ℕ
put_goroutine g = put_chunks (
    put_varint g.address
    ∷ put_varint g.stack_top
    ∷ put_varint g.id
    ∷ put_varint g.status
    ∷ put_bool g.is_system
    ∷ put_bool g.is_background
    ∷ put_varint g.wait_since
    ∷ put_string g.wait_reason
    ∷ put_varint g.ctxt_addr
    ∷ put_varint g.m_addr
    ∷ put_varint g.defer_addr
    ∷ put_varint g.panic_addr
    ∷ [])

pub record IsGoroutine (g : GoroutineFull) : Type 0 where
  pub address : IsU64 g.address
  pub stack_top : IsU64 g.stack_top
  pub id : IsU64 g.id
  pub status : IsU64 g.status
  pub wait_since : IsU64 g.wait_since
  pub wait_reason : IsString g.wait_reason
  pub ctxt_addr : IsU64 g.ctxt_addr
  pub m_addr : IsU64 g.m_addr
  pub defer_addr : IsU64 g.defer_addr
  pub panic_addr : IsU64 g.panic_addr

-- The twelve fields that the reader keeps, then the `others` that it skips.
unfoldable pub put_mem_stats : MemStatsFull → List ℕ → List ℕ
put_mem_stats m others = put_chunks (
    put_varint m.alloc
    ∷ put_varint m.total_alloc
    ∷ put_varint m.sys
    ∷ put_varint m.lookups
    ∷ put_varint m.mallocs
    ∷ put_varint m.frees
    ∷ put_varint m.heap_alloc
    ∷ put_varint m.heap_sys
    ∷ put_varint m.heap_idle
    ∷ put_varint m.heap_inuse
    ∷ put_varint m.heap_released
    ∷ put_varint m.heap_objects
    ∷ put_varints others
    ∷ [])

pub record IsMemStats (m : MemStatsFull) (others : List ℕ) : Type 0 where
  pub alloc : IsU64 m.alloc
  pub total_alloc : IsU64 m.total_alloc
  pub sys : IsU64 m.sys
  pub lookups : IsU64 m.lookups
  pub mallocs : IsU64 m.mallocs
  pub frees : IsU64 m.frees
  pub heap_alloc : IsU64 m.heap_alloc
  pub heap_sys : IsU64 m.heap_sys
  pub heap_idle : IsU64 m.heap_idle
  pub heap_inuse : IsU64 m.heap_inuse
  pub heap_released : IsU64 m.heap_released
  pub heap_objects : IsU64 m.heap_objects
  pub skipped : All IsU64 others
  pub count : length others ≡ 49

unfoldable pub put_alloc_sample : AllocSample → List ℕ
put_alloc_sample a = put_chunks (
    put_varint a.address
    ∷ put_varint a.profile
    ∷ put_varint a.size
    ∷ put_varint a.num_alloc
    ∷ put_varint a.num_free
    ∷ [])

pub record IsAllocSample (a : AllocSample) : Type 0 where
  pub address : IsU64 a.address
  pub profile : IsU64 a.profile
  pub size : IsU64 a.size
  pub num_alloc : IsU64 a.num_alloc
  pub num_free : IsU64 a.num_free
