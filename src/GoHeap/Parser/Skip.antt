-- ===== src/GoHeap/Parser/Skip.antt =====
-- heapdump/goheap/parser.go: the methods that read past a record and keep nothing of it.
use heaplens.Base.{ℕ, zero, suc, true, false, ◌==◌, length}
use heaplens.Run.{pure, exhausted, ◌>>=◌, ◌>>◌}
use heaplens.GoHeap.Wire.{Reader, read_varint, read_string, read_bytes, skip_varints}
use heaplens.GoHeap.Records.Parsers.{field_kind_eol}

-- The loop that drops pointer fields, with the rounds bounded by the input as in
-- `read_pointer_fields`.
unfoldable pub skip_fields_loop : ℕ → Reader (Unit {0})
skip_fields_loop zero = exhausted
skip_fields_loop (suc fuel) = do
  kind ← read_varint
  elim (kind == field_kind_eol) [
    | true ↦ pure tt
    | false ↦ do _ ← read_varint; skip_fields_loop fuel
  ]

unfoldable pub skip_fields : Reader (Unit {0})
skip_fields r = skip_fields_loop (suc (length r)) r

-- What parseGoroutine reads; its counter stands in `parse_goroutine` of Loop.
unfoldable pub skip_goroutine : Reader (Unit {0})
skip_goroutine = do skip_varints 12; _ ← read_string; pure tt

unfoldable pub parse_stack_frame : Reader (Unit {0})
parse_stack_frame = do skip_varints 3; _ ← read_bytes; skip_varints 3; _ ← read_string; skip_fields

unfoldable pub parse_mem_stats : Reader (Unit {0})
parse_mem_stats = skip_varints 8

unfoldable pub skip_itab : Reader (Unit {0})
skip_itab = do _ ← read_varint; _ ← read_varint; pure tt

unfoldable pub skip_finalizer : Reader (Unit {0})
skip_finalizer = skip_varints 5

unfoldable pub skip_data_segment : Reader (Unit {0})
skip_data_segment = do _ ← read_varint; _ ← read_bytes; skip_fields

unfoldable pub skip_defer_panic : Reader (Unit {0})
skip_defer_panic = skip_varints 5

unfoldable pub skip_os_thread : Reader (Unit {0})
skip_os_thread = skip_varints 3

unfoldable pub skip_frames : ℕ → Reader (Unit {0})
skip_frames zero = pure tt
skip_frames (suc n) = do _ ← read_string; _ ← read_string; _ ← read_varint; skip_frames n

unfoldable pub skip_mem_prof : Reader (Unit {0})
skip_mem_prof = do
  _ ← read_varint
  _ ← read_varint
  nstk ← read_varint
  skip_frames nstk
  _ ← read_varint
  _ ← read_varint
  pure tt
