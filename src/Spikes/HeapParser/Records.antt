-- ===== src/Spikes/HeapParser/Records.antt =====
-- spikes/goformat/heap_parser.go: the methods that parse a record, and those that skip one.
use heaplens.Base.{ℕ, zero, suc, [], ◌∷◌, ◌++◌, some, not, ◌==◌, length}
use heaplens.Base.Dict.{insert}
use heaplens.Run.{pure, ◌>>=◌, ◌>>◌}
use heaplens.GoHeap.Wire.{Reader, read_varint, read_string, read_bytes, skip_varints}
use heaplens.GoHeap.Records.Parsers.{read_pointer_fields}
use heaplens.GoHeap.Parser.{TypeInfo}
use heaplens.GoHeap.Parser.Skip.{skip_fields}
use heaplens.Spikes.HeapParser.{HeapDump, HeapObject, Root, Goroutine, Frame, MemStats}
use heaplens.Spikes.HeapParser.{Parse, reading, edit}

-- What is read before an error stays in the dump.
unfoldable pub parse_params : Parse (Unit {0})
parse_params = do
  big_endian ← reading read_varint
  edit (λ d. record d { big_endian = not (big_endian == 0) })
  pointer_size ← reading read_varint
  edit (λ d. record d { pointer_size = pointer_size })
  heap_start ← reading read_varint
  edit (λ d. record d { heap_start = heap_start })
  heap_end ← reading read_varint
  edit (λ d. record d { heap_end = heap_end })
  architecture ← reading read_string
  edit (λ d. record d { architecture = architecture })
  go_version ← reading read_string
  edit (λ d. record d { go_version = go_version })
  num_cpus ← reading read_varint
  edit (λ d. record d { num_cpus = num_cpus })

unfoldable pub read_type : Reader TypeInfo
read_type = do
  addr ← read_varint
  size ← read_varint
  name ← read_string
  indirect ← read_varint
  pure (record { address = addr; size = size; name = name; indirect = not (indirect == 0) })

unfoldable pub add_type : TypeInfo → HeapDump → HeapDump
add_type t d = record d { types = insert t.address t d.types }

unfoldable pub parse_type : Parse (Unit {0})
parse_type = do t ← reading read_type; edit (add_type t)

unfoldable pub read_object : Reader HeapObject
read_object = do
  addr ← read_varint
  bytes ← read_bytes
  fields ← read_pointer_fields
  pure (record {
    address = addr;
    size = length bytes;
    type_addr = 0;
    bytes = bytes;
    fields = fields;
  })

unfoldable pub add_object : HeapObject → HeapDump → HeapDump
add_object o d = record d { objects = insert o.address o d.objects }

unfoldable pub parse_object : Parse (Unit {0})
parse_object = do o ← reading read_object; edit (add_object o)

unfoldable pub read_root : Reader Root
read_root = do
  desc ← read_string
  ptr ← read_varint
  pure (record { description = desc; pointer = ptr })

unfoldable pub add_root : Root → HeapDump → HeapDump
add_root o d = record d { roots = d.roots ++ o ∷ [] }

unfoldable pub parse_other_root : Parse (Unit {0})
parse_other_root = do o ← reading read_root; edit (add_root o)

unfoldable pub read_goroutine : Reader Goroutine
read_goroutine = do
  address ← read_varint
  stack_pointer ← read_varint
  id ← read_varint
  status ← read_varint
  is_system ← read_varint
  is_background ← read_varint
  wait_since ← read_varint
  wait_reason ← read_string
  skip_varints 4
  pure (record {
    address = address;
    stack_pointer = stack_pointer;
    id = id;
    status = status;
    is_system = not (is_system == 0);
    is_background = not (is_background == 0);
    wait_since = wait_since;
    wait_reason = wait_reason;
  })

unfoldable pub add_goroutine : Goroutine → HeapDump → HeapDump
add_goroutine g d = record d { goroutines = d.goroutines ++ g ∷ [] }

unfoldable pub parse_goroutine : Parse (Unit {0})
parse_goroutine = do g ← reading read_goroutine; edit (add_goroutine g)

unfoldable pub read_frame : Reader Frame
read_frame = do
  sp ← read_varint
  depth ← read_varint
  child_sp ← read_varint
  bytes ← read_bytes
  entry_pc ← read_varint
  pc ← read_varint
  cont_pc ← read_varint
  name ← read_string
  skip_fields
  pure (record {
    sp = sp;
    depth = depth;
    child_sp = child_sp;
    bytes = bytes;
    entry_pc = entry_pc;
    pc = pc;
    cont_pc = cont_pc;
    name = name;
  })

unfoldable pub add_frame : Frame → HeapDump → HeapDump
add_frame f d = record d { stack_frames = d.stack_frames ++ f ∷ [] }

unfoldable pub parse_stack_frame : Parse (Unit {0})
parse_stack_frame = do f ← reading read_frame; edit (add_frame f)

unfoldable pub read_mem_stats : Reader MemStats
read_mem_stats = do
  alloc ← read_varint
  total_alloc ← read_varint
  sys ← read_varint
  n_lookup ← read_varint
  n_malloc ← read_varint
  n_free ← read_varint
  heap_alloc ← read_varint
  heap_sys ← read_varint
  pure (record {
    alloc = alloc;
    total_alloc = total_alloc;
    sys = sys;
    n_lookup = n_lookup;
    n_malloc = n_malloc;
    n_free = n_free;
    heap_alloc = heap_alloc;
    heap_sys = heap_sys;
  })

unfoldable pub set_mem_stats : MemStats → HeapDump → HeapDump
set_mem_stats m d = record d { mem_stats = some m }

unfoldable pub parse_mem_stats : Parse (Unit {0})
parse_mem_stats = do m ← reading read_mem_stats; edit (set_mem_stats m)

unfoldable pub skip_itab : Reader (Unit {0})
skip_itab = do _ ← read_varint; _ ← read_varint; pure tt

unfoldable pub skip_finalizer : Reader (Unit {0})
skip_finalizer = skip_varints 5

unfoldable pub skip_data_segment : Reader (Unit {0})
skip_data_segment = do _ ← read_varint; _ ← read_bytes; skip_fields

unfoldable pub skip_defer_panic : Reader (Unit {0})
skip_defer_panic = skip_varints 5

unfoldable pub skip_os_thread : Reader (Unit {0})
skip_os_thread = skip_varints 3

-- The loop over the frames of a stack.
unfoldable pub skip_stack : ℕ → Reader (Unit {0})
skip_stack zero = pure tt
skip_stack (suc n) = do _ ← read_string; _ ← read_string; _ ← read_varint; skip_stack n

unfoldable pub skip_mem_prof : Reader (Unit {0})
skip_mem_prof = do
  _ ← read_varint
  _ ← read_varint
  nstk ← read_varint
  skip_stack nstk
  _ ← read_varint
  _ ← read_varint
  pure tt
