-- ===== src/GoHeap/Parser/Built/Keeps.antt =====
-- Every record that is parsed keeps what `Built` says of the graph.
use heaplens.Base.{ℕ, List}
use heaplens.Base.{length}
use heaplens.Run.Yields.{YieldsAt, Yields, Yields-bind, Yields-raise}
use heaplens.Run.{Outcome, ok, err, panic, stuck, ◌>>=◌, ◌>>◌}
use heaplens.GoHeap.Wire.{Error, Context, Reader}
use heaplens.GoHeap.Parser.{Parser, Parse, reading, resume, modify, wrapping, in_context}
use heaplens.GoHeap.Parser.Objects.{parse_params, parse_type, parse_object, parse_other_root}
use heaplens.GoHeap.Parser.Objects.{read_object, add_type, add_heap_object, add_root, type_name}
use heaplens.GoHeap.Parser.Loop.{parse_goroutine, parse_record}
use heaplens.GoHeap.Parser.Loop.{RecordCase, params, typ, object, other_root, goroutine}
use heaplens.GoHeap.Parser.Loop.{unknown, record_case, parse_case}
use heaplens.GoHeap.Parser.Built.{IsBuilt, Built-object, Built-root}
use heaplens.Graph.{add_object}

abbrev pub Keeps : {A : Type 0} → Parse A → Type 0
Keeps m = Yields IsBuilt m (λ a. IsBuilt)

resume_keeps :
    {A : Type 0} (p : Parser) (o : Outcome Error (List ℕ) A)
    → IsBuilt p
    → YieldsAt (λ a. IsBuilt) (resume p o)
resume_keeps p (ok a r) h = h
resume_keeps p (err e r) h = tt
resume_keeps p panic h = tt
resume_keeps p stuck h = tt

pub Keeps-reading : {A : Type 0} (m : Reader A) → Keeps (reading m)
unfolding reading
Keeps-reading m = record { at = λ p h. resume_keeps p (m p.r) h }

Keeps-modify : (f : Parser → Parser) → ((p : Parser) → IsBuilt p → IsBuilt (f p)) → Keeps (modify f)
unfolding modify
Keeps-modify f h = record { at = h }

context_keeps :
    {A : Type 0} (c : Context) (o : Outcome Error Parser A)
    → YieldsAt (λ a. IsBuilt) o
    → YieldsAt (λ a. IsBuilt) (in_context c o)
context_keeps c (ok a p) h = h
context_keeps c (err e p) h = tt
context_keeps c panic h = tt
context_keeps c stuck h = tt

Keeps-wrapping : {A : Type 0} (c : Context) (m : Parse A) → Keeps m → Keeps (wrapping c m)
unfolding wrapping
Keeps-wrapping c m hm = record { at = λ p h. context_keeps c (m p) (hm.at p h) }

Keeps-kept :
    {B : Type 0} (m : Reader B) (f : B → Parser → Parser)
    → ((b : B) (p : Parser) → IsBuilt p → IsBuilt (f b p))
    → Keeps (reading m >>= λ b. modify (f b))
Keeps-kept m f h = Yields-bind (λ a. IsBuilt) (Keeps-reading m) (λ b. Keeps-modify (f b) (h b))

Keeps-field :
    {A B : Type 0} (m : Reader B) (f : B → Parser → Parser) (k : Parse A)
    → ((b : B) (p : Parser) → IsBuilt p → IsBuilt (f b p))
    → Keeps k
    → Keeps (reading m >>= λ b. modify (f b) >> k)
Keeps-field m f k h hk =
    Yields-bind (λ a. IsBuilt) (Keeps-reading m)
      (λ b. Yields-bind (λ a. IsBuilt) (Keeps-modify (f b) (h b)) (λ _. hk))

Keeps-params : Keeps parse_params
unfolding parse_params
Keeps-params =
    Keeps-field _ _ _ (λ b p h. h)
      (Keeps-field _ _ _ (λ b p h. h)
        (Keeps-field _ _ _ (λ b p h. h)
          (Keeps-field _ _ _ (λ b p h. h)
            (Keeps-field _ _ _ (λ b p h. h)
              (Keeps-field _ _ _ (λ b p h. h) (Keeps-kept _ _ (λ b p h. h)))))))

Keeps-type : Keeps parse_type
unfolding parse_type add_type
Keeps-type = Keeps-kept _ _ (λ b p h. h)

Keeps-object : Keeps parse_object
unfolding parse_object add_heap_object add_object
Keeps-object = record {
  at = λ p.
      (Keeps-kept (read_object p.pointer_size p.big_endian)
          (λ o q. add_heap_object o.addr o.bytes (type_name q.types o.type_addr) q)
          (λ o q h.
            Built-object q.g.objects q.addr_to_obj_id q.roots q.next_obj_id q.stats.objects o.addr
              (length o.bytes) (type_name q.types o.type_addr) h)).at
        p;
}

Keeps-root : Keeps parse_other_root
unfolding parse_other_root add_root
Keeps-root =
    Yields-bind (λ a. IsBuilt) (Keeps-reading _)
      (λ _. Keeps-kept _ _ (λ ptr p h.
        Built-root p.g.objects p.addr_to_obj_id p.roots p.next_obj_id p.stats.objects ptr h))

Keeps-goroutine : Keeps parse_goroutine
unfolding parse_goroutine
Keeps-goroutine = Keeps-kept _ _ (λ b p h. h)

Keeps-skipped : (c : Context) (m : Reader (Unit {0})) → Keeps (wrapping c (reading m))
Keeps-skipped c m = Keeps-wrapping c _ (Keeps-reading m)

Keeps-case : (c : RecordCase) (tag : ℕ) → Keeps (parse_case c tag)
unfolding parse_case
Keeps-case params tag = Keeps-wrapping _ _ Keeps-params
Keeps-case typ tag = Keeps-wrapping _ _ Keeps-type
Keeps-case object tag = Keeps-wrapping _ _ Keeps-object
Keeps-case other_root tag = Keeps-wrapping _ _ Keeps-root
Keeps-case goroutine tag = Keeps-wrapping _ _ Keeps-goroutine
Keeps-case unknown tag = Yields-raise _
Keeps-case _ tag = Keeps-skipped _ _

pub Keeps-record : (tag : ℕ) → Keeps (parse_record tag)
unfolding parse_record
Keeps-record tag = Keeps-case (record_case tag) tag
