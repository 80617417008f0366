-- ===== src/GoHeap/Parser/Agree.antt =====
-- The methods of parser.go that skip a record against the parsers of complete records (records.go).
use heaplens.Base.{ℕ, zero, suc, ◌≡◌, ◌≢◌, refl, ◌∙◌, arith, List, [], ◌∷◌, ◌++◌}
use heaplens.Base.{Bool, true, false, Bool-cases, inl, inr, ◌==◌, length, ltb}
use heaplens.Run.{Outcome, ok, err, panic, stuck, pure, ◌>>=◌, ◌>>◌, continue}
use heaplens.GoHeap.Wire.{Error, Reader, read_varint, skip_varints}
use heaplens.GoHeap.Records.{PointerField, MemProfFrame}
use heaplens.GoHeap.Records.Parsers.{parse_finalizer_full, parse_itab_full, parse_stack_frame_full}
use heaplens.GoHeap.Records.Parsers.{parse_os_thread_full, parse_mem_prof_full}
use heaplens.GoHeap.Records.Parsers.{parse_data_segment_full, read_pointer_fields_loop}
use heaplens.GoHeap.Records.Parsers.{read_pointer_fields, read_frames, make_frames, field_kind_eol}
use heaplens.GoHeap.Records.Parsers.{max_frames}
use heaplens.GoHeap.Parser.Skip.{skip_fields_loop, skip_fields, skip_itab, skip_finalizer}
use heaplens.GoHeap.Parser.Skip.{skip_os_thread, skip_data_segment, parse_stack_frame}
use heaplens.GoHeap.Parser.Skip.{skip_frames, skip_mem_prof}

-- The outcome without its value.
abbrev pub forget : {A : Type 0} → Outcome Error (List ℕ) A → Outcome Error (List ℕ) (Unit {0})
forget (ok a r) = ok tt r
forget (err e r) = err e r
forget panic = panic
forget stuck = stuck

-- `m` reads, fails and panics exactly as `n` does, and returns nothing.
pub record Agrees {A : Type 0} (m : Reader (Unit {0})) (n : Reader A) : Type 0 where
  pub at : (r : List ℕ) → m r ≡ forget (n r)

Agrees-pure : {A : Type 0} (a : A) → Agrees (pure tt) (pure a)
unfolding ◌>>=◌
Agrees-pure a = record { at = λ r. refl }

-- The same read first, and then two actions that agree on its value.
continue-Agrees :
    {A B : Type 0} (f : A → Reader (Unit {0})) (g : A → Reader B)
    → ((a : A) → Agrees (f a) (g a))
    → (o : Outcome Error (List ℕ) A) → continue o f ≡ forget (continue o g)
continue-Agrees f g h (ok a r) = (h a).at r
continue-Agrees f g h (err e r) = refl
continue-Agrees f g h panic = refl
continue-Agrees f g h stuck = refl

continue-forget :
    {A B : Type 0} (k : Reader (Unit {0})) (g : A → Reader B)
    → ((a : A) → Agrees k (g a))
    → (o : Outcome Error (List ℕ) A) → continue (forget o) (λ _. k) ≡ forget (continue o g)
continue-forget k g h (ok a r) = (h a).at r
continue-forget k g h (err e r) = refl
continue-forget k g h panic = refl
continue-forget k g h stuck = refl

Agrees-bind :
    {A B : Type 0} (m : Reader A) (f : A → Reader (Unit {0})) (g : A → Reader B)
    → ((a : A) → Agrees (f a) (g a))
    → Agrees (m >>= f) (m >>= g)
unfolding ◌>>=◌
Agrees-bind m f g h = record { at = λ r. continue-Agrees f g h (m r) }

-- A first action that agrees with a reader, whose value the rest does not need.
Agrees-then :
    {A B : Type 0} (m : Reader (Unit {0})) (n : Reader A) (k : Reader (Unit {0})) (g : A → Reader B)
    → Agrees m n
    → ((a : A) → Agrees k (g a))
    → Agrees (m >> k) (n >>= g)
unfolding ◌>>=◌
Agrees-then m n k g hm hk = record { at = λ r. rw (hm.at r) (continue-forget k g hk (n r)) }

Agrees-itab : Agrees skip_itab parse_itab_full
unfolding skip_itab parse_itab_full ◌>>=◌
Agrees-itab = record { at = λ r. ground arith }

Agrees-finalizer : Agrees skip_finalizer parse_finalizer_full
unfolding skip_finalizer parse_finalizer_full ◌>>=◌ skip_varints
Agrees-finalizer = record { at = λ r. ground arith }

Agrees-os_thread : Agrees skip_os_thread parse_os_thread_full
unfolding skip_os_thread parse_os_thread_full ◌>>=◌ skip_varints
Agrees-os_thread = record { at = λ r. ground arith }

Agrees-round :
    (fuel kind : ℕ) (acc : List PointerField)
    → ((acc : List PointerField)
        → Agrees (skip_fields_loop fuel) (read_pointer_fields_loop fuel acc))
    → (b : Bool)
    → Agrees
        (elim b [ true ↦ pure tt | false ↦ (read_varint >>= λ _. skip_fields_loop fuel) ])
        (elim b [
          | true ↦ pure acc
          | false ↦ read_varint >>= λ offset.
              read_pointer_fields_loop fuel (acc ++ record { kind = kind; offset = offset } ∷ [])
        ])
Agrees-round fuel kind acc more true = Agrees-pure acc
Agrees-round fuel kind acc more false =
    Agrees-bind _ _ _ (λ offset. more (acc ++ record { kind = kind; offset = offset } ∷ []))

Agrees-fields_loop :
    (fuel : ℕ) (acc : List PointerField)
    → Agrees (skip_fields_loop fuel) (read_pointer_fields_loop fuel acc)
unfolding skip_fields_loop read_pointer_fields_loop
Agrees-fields_loop zero acc = unfold ◌>>=◌ in record { at = λ r. refl }
Agrees-fields_loop (suc fuel) acc =
    Agrees-bind _ _ _
      (λ kind. Agrees-round fuel kind acc (Agrees-fields_loop fuel) (kind == field_kind_eol))

Agrees-fields : Agrees skip_fields read_pointer_fields
unfolding skip_fields read_pointer_fields
Agrees-fields = record { at = λ r. (Agrees-fields_loop (suc (length r)) []).at r }

forget-pure :
    {A B : Type 0} (f : A → B) (o : Outcome Error (List ℕ) A)
    → forget o ≡ forget (continue o (λ a. pure (f a)))
unfolding ◌>>=◌
forget-pure f (ok a r) = refl
forget-pure f (err e r) = refl
forget-pure f panic = refl
forget-pure f stuck = refl

Agrees-last :
    {A B : Type 0} (m : Reader (Unit {0})) (n : Reader A) (f : A → B)
    → Agrees m n
    → Agrees m (n >>= λ a. pure (f a))
unfolding ◌>>=◌
Agrees-last m n f h = record { at = λ r. h.at r ∙ forget-pure f (n r) }

Agrees-data_segment : Agrees skip_data_segment parse_data_segment_full
unfolding skip_data_segment parse_data_segment_full
Agrees-data_segment =
    Agrees-bind _ _ _ (λ address. Agrees-bind _ _ _ (λ bytes. Agrees-last _ _ _ Agrees-fields))

continue_twice :
    {B : Type 0} (n : ℕ) (k : Reader (Unit {0})) (g : ℕ → Reader B)
    → ((a : ℕ) → Agrees (skip_varints n >> k) (g a))
    → (o : Outcome Error (List ℕ) ℕ)
    → continue (continue o (λ _. skip_varints n)) (λ _. k) ≡ forget (continue o g)
unfolding ◌>>=◌
continue_twice n k g h (ok a r) = (h a).at r
continue_twice n k g h (err e r) = refl
continue_twice n k g h panic = refl
continue_twice n k g h stuck = refl

-- A counted skip against a row of reads, one at a time.
Agrees-skip :
    {B : Type 0} (n : ℕ) (k : Reader (Unit {0})) (g : ℕ → Reader B)
    → ((a : ℕ) → Agrees (skip_varints n >> k) (g a))
    → Agrees (skip_varints (suc n) >> k) (read_varint >>= g)
unfolding ◌>>=◌ skip_varints
Agrees-skip n k g h = record { at = λ r. continue_twice n k g h (read_varint r) }

Agrees-skipped :
    {B : Type 0} (k : Reader (Unit {0})) (m : Reader B)
    → Agrees k m
    → Agrees (skip_varints 0 >> k) m
unfolding ◌>>=◌ skip_varints
Agrees-skipped k m h = record { at = λ r. h.at r }

-- Three skips against three reads.
Agrees-three :
    {B : Type 0} (k : Reader (Unit {0})) (g : ℕ → ℕ → ℕ → Reader B)
    → ((a b c : ℕ) → Agrees k (g a b c))
    → Agrees
        (skip_varints 3 >> k)
        (read_varint >>= λ a. read_varint >>= λ b. read_varint >>= λ c. g a b c)
Agrees-three k g h =
    Agrees-skip 2 k _
      (λ a. Agrees-skip 1 k _ (λ b. Agrees-skip 0 k _ (λ c. Agrees-skipped k _ (h a b c))))

Agrees-stack_frame : Agrees parse_stack_frame parse_stack_frame_full
unfolding parse_stack_frame parse_stack_frame_full
Agrees-stack_frame = Agrees-three _ _ (λ sp depth child_sp. Agrees-bind _ _ _ (λ bytes.
    Agrees-three _ _
      (λ entry_pc pc cont_pc. Agrees-bind _ _ _ (λ name. Agrees-last _ _ _ Agrees-fields))))

Agrees-frames : (n : ℕ) (acc : List MemProfFrame) → Agrees (skip_frames n) (read_frames n acc)
unfolding skip_frames read_frames
Agrees-frames zero acc = Agrees-pure acc
Agrees-frames (suc n) acc = Agrees-bind _ _ _ (λ function. Agrees-bind _ _ _ (λ file.
    Agrees-bind _ _ _ (λ line.
      Agrees-frames n (acc ++ record { function = function; file = file; line = line } ∷ []))))

-- The agreement where `n` does not panic.
record AgreesIfSafe {A : Type 0} (m : Reader (Unit {0})) (n : Reader A) : Type 0 where
  at : (r : List ℕ) → n r ≢ panic → m r ≡ forget (n r)

continue_safe :
    {A B : Type 0} (f : A → Reader (Unit {0})) (g : A → Reader B)
    → ((a : A) → AgreesIfSafe (f a) (g a))
    → (o : Outcome Error (List ℕ) A) → continue o g ≢ panic
    → continue o f ≡ forget (continue o g)
continue_safe f g h (ok a r) safe = (h a).at r safe
continue_safe f g h (err e r) safe = refl
continue_safe f g h panic safe = refl
continue_safe f g h stuck safe = refl

Safe-bind :
    {A B : Type 0} (m : Reader A) (f : A → Reader (Unit {0})) (g : A → Reader B)
    → ((a : A) → AgreesIfSafe (f a) (g a))
    → AgreesIfSafe (m >>= f) (m >>= g)
unfolding ◌>>=◌
Safe-bind m f g h = record { at = λ r safe. continue_safe f g h (m r) safe }

-- The allocation of the frames is the only step that the skip does not make.
Safe-frames :
    {B : Type 0} (n : ℕ) (k : Reader (Unit {0})) (m : Reader B)
    → Agrees k m
    → AgreesIfSafe k (make_frames n >> m)
unfolding make_frames ◌>>=◌
Safe-frames n k m h = record {
  at = λ r safe. elim (Bool-cases (ltb max_frames n)) [
    | inl e ↦ absurd (safe (rw e))
    | inr e ↦ rw e (h.at r)
  ];
}

Safe-mem_prof : AgreesIfSafe skip_mem_prof parse_mem_prof_full
unfolding skip_mem_prof parse_mem_prof_full
Safe-mem_prof = Safe-bind _ _ _ (λ bucket_id. Safe-bind _ _ _ (λ size. Safe-bind _ _ _ (λ nstk.
    Safe-frames nstk _ _ (
      Agrees-then _ _ _ _ (Agrees-frames nstk [])
        (λ stack. Agrees-bind _ _ _ (λ allocs. Agrees-bind _ _ _ (λ frees. Agrees-pure _)))))))

-- On every input, well formed or not, the methods of parser.go that skip an interface table, a
-- finalizer, an OS thread, a data segment or a stack frame stop at the same byte, with the same
-- error, as the parsers of records.go that keep the record.
pub skips_agree :
    (r : List ℕ)
    → (skip_itab r ≡ forget (parse_itab_full r))
      × (skip_finalizer r ≡ forget (parse_finalizer_full r))
      × (skip_os_thread r ≡ forget (parse_os_thread_full r))
      × (skip_data_segment r ≡ forget (parse_data_segment_full r))
      × (parse_stack_frame r ≡ forget (parse_stack_frame_full r))
skips_agree r = (
  Agrees-itab.at r,
  Agrees-finalizer.at r,
  Agrees-os_thread.at r,
  Agrees-data_segment.at r,
  Agrees-stack_frame.at r,
)

-- The same for a memory profiling record, where the parser that keeps it does not panic; it panics
-- on a stack too deep to allocate.
pub skip_mem_prof_agrees :
    (r : List ℕ) → parse_mem_prof_full r ≢ panic → skip_mem_prof r ≡ forget (parse_mem_prof_full r)
skip_mem_prof_agrees r safe = Safe-mem_prof.at r safe
