-- ===== src/Spikes/HeapParser/Keyed.antt =====
-- spikes/goformat/heap_parser.go: what holds of every dump that Parse returns.
use heaplens.Base.{ℕ, zero, suc, ◌≡◌, refl, arith, List, [], ◌∷◌, length, All}
use heaplens.Base.Dict.{Dict, insert}
use heaplens.Run.{Outcome, ok, err, panic, stuck, pure, continue, ◌>>=◌, ◌>>◌}
use heaplens.Run.Keeps.{KeepsAt, Keeps, Keeps-pure, Keeps-raise, Keeps-exhausted, Keeps-bind}
use heaplens.Run.Keeps.{Keeps-if, Keeps-bool}
use heaplens.GoHeap.Wire.{Error, Context, Reader, unknown_tag}
use heaplens.GoHeap.Parser.{TypeInfo, wrapping, in_context}
use heaplens.GoHeap.Parser.Loop.{record_case, RecordCase, params, typ, object}
use heaplens.GoHeap.Parser.Loop.{other_root, goroutine, stack_frame, mem_stats, itab, finalizer}
use heaplens.GoHeap.Parser.Loop.{data_segment, defer_panic, os_thread, mem_prof, unknown}
use heaplens.Spikes.HeapParser.{HeapDump, HeapObject, Parser, Parse, reading, resume, edit}
use heaplens.Spikes.HeapParser.{new_parser}
use heaplens.Spikes.HeapParser.Records.{parse_params, parse_type, parse_object, parse_other_root}
use heaplens.Spikes.HeapParser.Records.{parse_goroutine, parse_stack_frame, parse_mem_stats}
use heaplens.Spikes.HeapParser.Records.{read_object, add_type, add_object, add_root, add_goroutine}
use heaplens.Spikes.HeapParser.Records.{add_frame, set_mem_stats}
use heaplens.Spikes.HeapParser.Loop.{parse_case, parse_record, parse_loop, check_header, parse}
use heaplens.Spikes.HeapParser.Loop.{
  Answer, parsed, partial, failed, panics, runs_on, answer, parse_heap,
}

-- A type under its address, and an object under its address, with the size of its contents and no type.
abbrev IsKeyedType : ℕ × TypeInfo → Type 0
IsKeyedType (k, t) = k ≡ t.address

abbrev IsKeyedObject : ℕ × HeapObject → Type 0
IsKeyedObject (k, o) = (k ≡ o.address) × (o.size ≡ length o.bytes) × (o.type_addr ≡ 0)

abbrev pub IsKeyed : HeapDump → Type 0
IsKeyed d = All IsKeyedType d.types × All IsKeyedObject d.objects

-- Of the dump that comes back, alone or beside an error.
abbrev pub ReturnsKeyed : Answer → Type 0
ReturnsKeyed (parsed d) = IsKeyed d
ReturnsKeyed (partial d e) = IsKeyed d
ReturnsKeyed (failed e) = Unit {0}
ReturnsKeyed panics = Unit {0}
ReturnsKeyed runs_on = Unit {0}

All-insert :
    {V : Type 0} (P : ℕ × V → Type 0) (k : ℕ) (v : V) (m : Dict V)
    → P (k, v)
    → All P m
    → All P (insert k v m)
unfolding insert
All-insert P k v [] h hs = (h, tt)
All-insert P k v ((j, w) ∷ m) h (hw, hs) = ground (arith, All-insert P k v m h hs)

-- What an object that was read is, wherever it was read.
abbrev GivesObject : Outcome Error (List ℕ) HeapObject → Type 0
GivesObject (ok o r) = (o.size ≡ length o.bytes) × (o.type_addr ≡ 0)
GivesObject (err e r) = Unit {0}
GivesObject panic = Unit {0}
GivesObject stuck = Unit {0}

continue-GivesObject :
    {A : Type 0} (o : Outcome Error (List ℕ) A) (k : A → Reader HeapObject)
    → ((a : A) (r : List ℕ) → GivesObject (k a r))
    → GivesObject (continue o k)
continue-GivesObject (ok a r) k h = h a r
continue-GivesObject (err e r) k h = tt
continue-GivesObject panic k h = tt
continue-GivesObject stuck k h = tt

record GivesObjects (m : Reader HeapObject) : Type 0 where
  at : (r : List ℕ) → GivesObject (m r)

GivesObjects-bind :
    {A : Type 0} (m : Reader A) (k : A → Reader HeapObject)
    → ((a : A) → GivesObjects (k a))
    → GivesObjects (m >>= k)
unfolding ◌>>=◌
GivesObjects-bind m k h = record { at = λ r. continue-GivesObject (m r) k (λ a. (h a).at) }

GivesObjects-pure :
    (o : HeapObject) → o.size ≡ length o.bytes → o.type_addr ≡ 0 → GivesObjects (pure o)
unfolding ◌>>=◌
GivesObjects-pure o size untyped = record { at = λ r. (size, untyped) }

read_object-GivesObjects : GivesObjects read_object
unfolding read_object
read_object-GivesObjects = GivesObjects-bind _ _ (λ addr.
    GivesObjects-bind _ _
      (λ bytes. GivesObjects-bind _ _ (λ fields. GivesObjects-pure _ refl refl)))

kept_object :
    (d : HeapDump) (o : Outcome Error (List ℕ) HeapObject)
    → GivesObject o
    → IsKeyed d
    → KeepsAt (λ p. IsKeyed p.dump) (continue (resume d o) (λ o. edit (add_object o)))
unfolding edit add_object
kept_object d (ok o r) (size, untyped) (types, objects) =
    (types, All-insert IsKeyedObject o.address o d.objects (refl, size, untyped) objects)
kept_object d (err e r) h keyed = keyed
kept_object d panic h keyed = tt
kept_object d stuck h keyed = tt

abbrev Kept : {A : Type 0} → Parse A → Type 0
Kept = Keeps (λ p. IsKeyed p.dump)

Keeps-object : Kept parse_object
unfolding parse_object ◌>>=◌ reading
Keeps-object = record {
  at = λ p h. kept_object p.dump (read_object p.r) (read_object-GivesObjects.at p.r) h;
}

resume_keeps :
    {A : Type 0} (d : HeapDump) (o : Outcome Error (List ℕ) A)
    → IsKeyed d
    → KeepsAt (λ p. IsKeyed p.dump) (resume d o)
resume_keeps d (ok a r) h = h
resume_keeps d (err e r) h = h
resume_keeps d panic h = tt
resume_keeps d stuck h = tt

Keeps-reading : {A : Type 0} (m : Reader A) → Kept (reading m)
unfolding reading
Keeps-reading m = record { at = λ p h. resume_keeps p.dump (m p.r) h }

Keeps-edit :
    (f : HeapDump → HeapDump) → ((d : HeapDump) → IsKeyed d → IsKeyed (f d)) → Kept (edit f)
unfolding edit
Keeps-edit f h = record { at = λ p keyed. h p.dump keyed }

context_keeps :
    {A : Type 0} (c : Context) (o : Outcome Error Parser A)
    → KeepsAt (λ p. IsKeyed p.dump) o
    → KeepsAt (λ p. IsKeyed p.dump) (in_context c o)
context_keeps c (ok a p) h = h
context_keeps c (err e p) h = h
context_keeps c panic h = tt
context_keeps c stuck h = tt

Keeps-wrapping : {A : Type 0} (c : Context) (m : Parse A) → Kept m → Kept (wrapping c m)
unfolding wrapping
Keeps-wrapping c m h = record { at = λ p keyed. context_keeps c (m p) (h.at p keyed) }

-- A value that is read and then kept in a part of the dump.
Keeps-kept :
    {B : Type 0} (m : Reader B) (f : B → HeapDump → HeapDump)
    → ((b : B) (d : HeapDump) → IsKeyed d → IsKeyed (f b d))
    → Kept (reading m >>= λ b. edit (f b))
Keeps-kept m f h = Keeps-bind _ _ _ (Keeps-reading m) (λ b. Keeps-edit (f b) (h b))

Keeps-field :
    {B : Type 0} (m : Reader B) (f : B → HeapDump → HeapDump) (k : Parse (Unit {0}))
    → ((b : B) (d : HeapDump) → IsKeyed d → IsKeyed (f b d))
    → Kept k
    → Kept (reading m >>= λ b. edit (f b) >> k)
Keeps-field m f k h hk =
    Keeps-bind _ _ _ (Keeps-reading m) (λ b. Keeps-bind _ _ _ (Keeps-edit (f b) (h b)) (λ _. hk))

Keeps-params : Kept parse_params
unfolding parse_params
Keeps-params =
    Keeps-field _ _ _ (λ b d h. h)
      (Keeps-field _ _ _ (λ b d h. h)
        (Keeps-field _ _ _ (λ b d h. h)
          (Keeps-field _ _ _ (λ b d h. h)
            (Keeps-field _ _ _ (λ b d h. h)
              (Keeps-field _ _ _ (λ b d h. h) (Keeps-kept _ _ (λ b d h. h)))))))

Keeps-case : (c : RecordCase) (tag : ℕ) → Kept (parse_case c tag)
unfolding parse_case parse_type parse_other_root parse_goroutine parse_stack_frame parse_mem_stats
    add_type add_root add_goroutine add_frame set_mem_stats
Keeps-case params tag = Keeps-wrapping _ _ Keeps-params
Keeps-case typ tag = Keeps-wrapping _ _ (
    Keeps-kept _ _
      (λ t d (types, objects). (All-insert IsKeyedType t.address t d.types refl types, objects)))
Keeps-case object tag = Keeps-wrapping _ _ Keeps-object
Keeps-case other_root tag = Keeps-wrapping _ _ (Keeps-kept _ _ (λ b d h. h))
Keeps-case goroutine tag = Keeps-wrapping _ _ (Keeps-kept _ _ (λ b d h. h))
Keeps-case stack_frame tag = Keeps-wrapping _ _ (Keeps-kept _ _ (λ b d h. h))
Keeps-case mem_stats tag = Keeps-wrapping _ _ (Keeps-kept _ _ (λ b d h. h))
Keeps-case itab tag = Keeps-wrapping _ _ (Keeps-reading _)
Keeps-case finalizer tag = Keeps-wrapping _ _ (Keeps-reading _)
Keeps-case data_segment tag = Keeps-wrapping _ _ (Keeps-reading _)
Keeps-case defer_panic tag = Keeps-wrapping _ _ (Keeps-reading _)
Keeps-case os_thread tag = Keeps-wrapping _ _ (Keeps-reading _)
Keeps-case mem_prof tag = Keeps-wrapping _ _ (Keeps-reading _)
Keeps-case unknown tag = Keeps-raise _ _

Keeps-loop : (fuel : ℕ) → Kept (parse_loop fuel)
unfolding parse_loop parse_record
Keeps-loop zero = Keeps-exhausted _
Keeps-loop (suc fuel) = Keeps-bind _ _ _ (Keeps-wrapping _ _ (Keeps-reading _)) (λ tag.
    Keeps-bool _ _ _ _ (Keeps-pure _ tt)
      (Keeps-bind _ _ _ (Keeps-case (record_case tag) tag) (λ _. Keeps-loop fuel)))

Keeps-parse : Kept parse
unfolding parse check_header
Keeps-parse = record {
  at = λ p h.
      (Keeps-bind _ _ _ (Keeps-wrapping _ _ (Keeps-reading _)) (λ header.
          Keeps-bind _ _ _ (Keeps-if _ _ _ _ (Keeps-pure _ tt) (Keeps-raise _ _))
            (λ _. record { at = λ q. (Keeps-loop (suc (length q.r))).at q }))).at
        p h;
}

answer-ReturnsKeyed :
    (o : Outcome Error Parser (Unit {0}))
    → KeepsAt (λ p. IsKeyed p.dump) o
    → ReturnsKeyed (answer o)
answer-ReturnsKeyed (ok u p) h = h
answer-ReturnsKeyed (err (unknown_tag tag) p) h = h
answer-ReturnsKeyed (err e p) h = tt
answer-ReturnsKeyed panic h = tt
answer-ReturnsKeyed stuck h = tt

-- In every dump that comes back, alone or beside an error, each type and each object stands under its
-- own address, the size of an object is that of its contents, and its TypeAddr is 0.
pub parse_heap-ReturnsKeyed : (input : List ℕ) → ReturnsKeyed (parse_heap input)
unfolding parse_heap new_parser
parse_heap-ReturnsKeyed input =
    answer-ReturnsKeyed (parse (new_parser input)) (Keeps-parse.at (new_parser input) (tt, tt))
