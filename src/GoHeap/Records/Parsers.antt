-- ===== src/GoHeap/Records/Parsers.antt =====
-- heapdump/goheap/records.go: the parsers of complete records, one do block each, with a bind for
-- each `if err != nil { return nil, err }`.
use heaplens.Base.{ℕ, zero, suc, ◌/◌, ◌^◌, List, [], ◌∷◌, ◌++◌, true, false, not}
use heaplens.Base.{ltb, ◌==◌, if◌then◌else◌, length}
use heaplens.Run.{pure, crash, exhausted, ◌>>=◌, ◌>>◌}
use heaplens.GoHeap.Wire.{Reader, read_varint, read_string, read_bytes, skip_varints}
use heaplens.GoHeap.Records.{Finalizer, Itab, PointerField, StackFrame, OsThread, MemProfFrame}
use heaplens.GoHeap.Records.{MemProfRecord, DataSegment, DeferRecord, PanicRecord, GoroutineFull}
use heaplens.GoHeap.Records.{MemStatsFull, AllocSample}

unfoldable pub parse_finalizer_full : Reader Finalizer
parse_finalizer_full = do
  object ← read_varint
  function ← read_varint
  func_val ← read_varint
  func_type ← read_varint
  obj_type ← read_varint
  pure (record {
    object = object;
    function = function;
    func_val = func_val;
    func_type = func_type;
    obj_type = obj_type;
  })

unfoldable pub parse_itab_full : Reader Itab
parse_itab_full = do
  interface ← read_varint
  typ ← read_varint
  pure (record { interface = interface; typ = typ })

-- fieldKindEol and fieldKindPtr
abbrev pub field_kind_eol : ℕ
field_kind_eol = 0

abbrev pub field_kind_ptr : ℕ
field_kind_ptr = 1

-- The loop over pointer fields: a kind, then an offset unless the kind ends the list. A round takes
-- two bytes at least, so the length of the input bounds the rounds.
unfoldable pub read_pointer_fields_loop : ℕ → List PointerField → Reader (List PointerField)
read_pointer_fields_loop zero pointers = exhausted
read_pointer_fields_loop (suc fuel) pointers = do
  kind ← read_varint
  elim (kind == field_kind_eol) [
    | true ↦ pure pointers
    | false ↦ do
      offset ← read_varint
      read_pointer_fields_loop fuel (pointers ++ record { kind = kind; offset = offset } ∷ [])
  ]

unfoldable pub read_pointer_fields : Reader (List PointerField)
read_pointer_fields bytes = read_pointer_fields_loop (suc (length bytes)) [] bytes

unfoldable pub parse_stack_frame_full : Reader StackFrame
parse_stack_frame_full = do
  sp ← read_varint
  depth ← read_varint
  child_sp ← read_varint
  bytes ← read_bytes
  entry_pc ← read_varint
  pc ← read_varint
  cont_pc ← read_varint
  name ← read_string
  pointers ← read_pointer_fields
  pure (record {
    sp = sp;
    depth = depth;
    child_sp = child_sp;
    bytes = bytes;
    entry_pc = entry_pc;
    pc = pc;
    cont_pc = cont_pc;
    name = name;
    pointers = pointers;
  })

unfoldable pub parse_os_thread_full : Reader OsThread
parse_os_thread_full = do
  id ← read_varint
  os_thread_id ← read_varint
  go_id ← read_varint
  pure (record { id = id; os_thread_id = os_thread_id; go_id = go_id })

-- The longest []MemProfFrame that make allocates: a frame takes 40 bytes, and the address space of
-- a 64-bit Go program 2^48. A longer one is a run-time panic.
abbrev pub max_frames : ℕ
max_frames = 2 ^ 48 / 40

unfoldable pub read_frames : ℕ → List MemProfFrame → Reader (List MemProfFrame)
read_frames zero stack = pure stack
read_frames (suc n) stack = do
  function ← read_string
  file ← read_string
  line ← read_varint
  read_frames n (stack ++ record { function = function; file = file; line = line } ∷ [])

unfoldable pub make_frames : ℕ → Reader (Unit {0})
make_frames nstk = if ltb max_frames nstk then crash else pure tt

unfoldable pub parse_mem_prof_full : Reader MemProfRecord
parse_mem_prof_full = do
  bucket_id ← read_varint
  size ← read_varint
  nstk ← read_varint
  make_frames nstk
  stack ← read_frames nstk []
  allocs ← read_varint
  frees ← read_varint
  pure
      (record { bucket_id = bucket_id; size = size; allocs = allocs; frees = frees; stack = stack })

unfoldable pub parse_data_segment_full : Reader DataSegment
parse_data_segment_full = do
  address ← read_varint
  bytes ← read_bytes
  pointers ← read_pointer_fields
  pure (record { address = address; bytes = bytes; pointers = pointers })

unfoldable pub parse_defer_full : Reader DeferRecord
parse_defer_full = do
  address ← read_varint
  gp ← read_varint
  argp ← read_varint
  pc ← read_varint
  fn ← read_varint
  fn_entry ← read_varint
  link ← read_varint
  pure (record {
    address = address;
    gp = gp;
    argp = argp;
    pc = pc;
    fn = fn;
    fn_entry = fn_entry;
    link = link;
  })

unfoldable pub parse_panic_full : Reader PanicRecord
parse_panic_full = do
  address ← read_varint
  gp ← read_varint
  typ ← read_varint
  bytes ← read_varint
  defer ← read_varint
  link ← read_varint
  pure (record { address = address; gp = gp; typ = typ; bytes = bytes; defer = defer; link = link })

unfoldable pub parse_goroutine_full : Reader GoroutineFull
parse_goroutine_full = do
  address ← read_varint
  stack_top ← read_varint
  id ← read_varint
  status ← read_varint
  is_system ← read_varint
  is_background ← read_varint
  wait_since ← read_varint
  wait_reason ← read_string
  ctxt_addr ← read_varint
  m_addr ← read_varint
  defer_addr ← read_varint
  panic_addr ← read_varint
  pure (record {
    address = address;
    stack_top = stack_top;
    id = id;
    status = status;
    is_system = not (is_system == 0);
    is_background = not (is_background == 0);
    wait_since = wait_since;
    wait_reason = wait_reason;
    ctxt_addr = ctxt_addr;
    m_addr = m_addr;
    defer_addr = defer_addr;
    panic_addr = panic_addr;
  })

unfoldable pub parse_mem_stats_full : Reader MemStatsFull
parse_mem_stats_full = do
  alloc ← read_varint
  total_alloc ← read_varint
  sys ← read_varint
  lookups ← read_varint
  mallocs ← read_varint
  frees ← read_varint
  heap_alloc ← read_varint
  heap_sys ← read_varint
  heap_idle ← read_varint
  heap_inuse ← read_varint
  heap_released ← read_varint
  heap_objects ← read_varint
  skip_varints 49
  pure (record {
    alloc = alloc;
    total_alloc = total_alloc;
    sys = sys;
    lookups = lookups;
    mallocs = mallocs;
    frees = frees;
    heap_alloc = heap_alloc;
    heap_sys = heap_sys;
    heap_idle = heap_idle;
    heap_inuse = heap_inuse;
    heap_released = heap_released;
    heap_objects = heap_objects;
  })

unfoldable pub parse_alloc_sample_full : Reader AllocSample
parse_alloc_sample_full = do
  address ← read_varint
  profile ← read_varint
  size ← read_varint
  num_alloc ← read_varint
  num_free ← read_varint
  pure (record {
    address = address;
    profile = profile;
    size = size;
    num_alloc = num_alloc;
    num_free = num_free;
  })
