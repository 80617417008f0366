-- ===== src/GoHeap/Stream/Quiet.antt =====
-- heapdump/goheap/streaming.go: the methods that read one record, the counter of errors, and the calls
-- of OnError.
use heaplens.Base.{ℕ, ◌+◌, ◌≡◌, refl, ◌∙◌, List, Bool, Option, none, some}
use mathlib.Core.Option
use heaplens.Run.{Outcome, ok, err, panic, stuck, continue, ◌>>=◌, ◌>>◌}
use heaplens.GoHeap.Wire.{Error, Context}
use heaplens.GoHeap.Parser.{wrapping, in_context}
use heaplens.GoHeap.Stream.{
  Input, Counted, DumpParams, StreamCallbacks, StreamingParser, Streaming, Callback,
}
use heaplens.GoHeap.Stream.{reading, resume, modify, answer, call, read_varint, read_string}
use heaplens.GoHeap.Stream.Records.{parse_params, parse_type, parse_object}
use heaplens.GoHeap.Stream.Records.{parse_root, parse_goroutine}

module _ {U : Type 0} (calls : U → ℕ) where
  -- A callback that does not change the number of calls of OnError that its owner has counted.
  abbrev IsSilent : Option (Callback U) → Type 0
  IsSilent none = Unit
  IsSilent (some callback) = (user : U) → calls (callback user).1 ≡ calls user

  abbrev pub IsSilentProgress : Option (ℕ → ℕ → U → U) → Type 0
  IsSilentProgress none = Unit
  IsSilentProgress (some on_progress) =
      (bytes records : ℕ) (user : U) → calls (on_progress bytes records user) ≡ calls user

  abbrev pub IsCounter : Option (Error → Bool → Callback U) → Type 0
  IsCounter none = ⊥
  IsCounter (some on_error) =
      (e : Error) (skip : Bool) (user : U) → calls (on_error e skip user).1 ≡ calls user + 1

  -- OnError is set, and counts in `calls` how often it is called; the other callbacks leave that be.
  pub record CountsErrors (callbacks : StreamCallbacks U) : Type 0 where
    pub on_params : (q : DumpParams) → IsSilent (Option.map (λ f. f q) callbacks.on_params)
    pub on_type :
        (addr size : ℕ) (name : List ℕ) (indirect : Bool)
        → IsSilent (Option.map (λ f. f addr size name indirect) callbacks.on_type)
    pub on_object :
        (addr type_addr : ℕ) (bytes ptrs : List ℕ)
        → IsSilent (Option.map (λ f. f addr type_addr bytes ptrs) callbacks.on_object)
    pub on_root :
        (desc : List ℕ) (ptr : ℕ) → IsSilent (Option.map (λ f. f desc ptr) callbacks.on_root)
    pub on_goroutine :
        (id status : ℕ) (wait_reason : List ℕ)
        → IsSilent (Option.map (λ f. f id status wait_reason) callbacks.on_goroutine)
    pub on_progress : IsSilentProgress callbacks.on_progress
    pub on_error : IsCounter callbacks.on_error

  -- The settings, the count of errors and the calls of OnError are as they were.
  abbrev pub Same : StreamingParser U → StreamingParser U → Type 0
  Same p q =
      (q.max_errors ≡ p.max_errors)
      × (q.skip_on_error ≡ p.skip_on_error)
      × (q.error_count ≡ p.error_count)
      × (calls q.user ≡ calls p.user)

  abbrev pub QuietAt :
      {A : Type 0} → StreamingParser U → Outcome Error (StreamingParser U) A → Type 0
  QuietAt p (ok a q) = Same p q
  QuietAt p (err e q) = Same p q
  QuietAt p panic = Unit {0}
  QuietAt p stuck = Unit {0}

  -- An action that handles no error.
  pub record Quiet {A : Type 0} (m : Streaming U A) : Type 0 where
    pub at : (p : StreamingParser U) → QuietAt p (m p)

  resume_quiet :
      {A : Type 0} (p : StreamingParser U) (o : Outcome Error Input A) → QuietAt p (resume p o)
  resume_quiet p (ok a s) = (refl, refl, refl, refl)
  resume_quiet p (err e s) = (refl, refl, refl, refl)
  resume_quiet p panic = tt
  resume_quiet p stuck = tt

  pub Quiet-reading : {A : Type 0} (m : Counted A) → Quiet (reading m)
  unfolding reading
  Quiet-reading m = record { at = λ p. resume_quiet p (m p.input) }

  pub Quiet-modify :
      (f : StreamingParser U → StreamingParser U)
      → ((p : StreamingParser U) → Same p (f p))
      → Quiet (modify f)
  unfolding modify
  Quiet-modify f h = record { at = h }

  answer_quiet :
      (reply : Option ℕ) (p q : StreamingParser U) → Same p q → QuietAt p (answer reply q)
  answer_quiet none p q h = h
  answer_quiet (some code) p q h = h

  Quiet-call : (callback : Option (Callback U)) → IsSilent callback → Quiet (call callback)
  unfolding call
  Quiet-call none silent = record { at = λ p. (refl, refl, refl, refl) }
  Quiet-call (some callback) silent = record {
    at = λ p.
        answer_quiet (callback p.user).0 p (record p { user = (callback p.user).1 })
          (refl, refl, refl, silent p.user);
  }

  later_quiet :
      {A : Type 0} (p q : StreamingParser U) (o : Outcome Error (StreamingParser U) A)
      → Same p q
      → QuietAt q o
      → QuietAt p o
  later_quiet p q (ok a t) h k = (k.0 ∙ h.0, k.1 ∙ h.1, k.2 ∙ h.2, k.3 ∙ h.3)
  later_quiet p q (err e t) h k = (k.0 ∙ h.0, k.1 ∙ h.1, k.2 ∙ h.2, k.3 ∙ h.3)
  later_quiet p q panic h k = tt
  later_quiet p q stuck h k = tt

  continue-Quiet :
      {A B : Type 0} (p : StreamingParser U) (o : Outcome Error (StreamingParser U) A)
      (f : A → Streaming U B)
      → QuietAt p o
      → ((a : A) → Quiet (f a))
      → QuietAt p (continue o f)
  continue-Quiet p (ok a q) f h k = later_quiet p q (f a q) h ((k a).at q)
  continue-Quiet p (err e q) f h k = h
  continue-Quiet p panic f h k = tt
  continue-Quiet p stuck f h k = tt

  Quiet-bind :
      {A B : Type 0} (m : Streaming U A) (f : A → Streaming U B)
      → Quiet m
      → ((a : A) → Quiet (f a))
      → Quiet (m >>= f)
  unfolding ◌>>=◌
  Quiet-bind m f h k = record { at = λ p. continue-Quiet p (m p) f (h.at p) k }

  context_quiet :
      {A : Type 0} (c : Context) (p : StreamingParser U) (o : Outcome Error (StreamingParser U) A)
      → QuietAt p o
      → QuietAt p (in_context c o)
  context_quiet c p (ok a q) h = h
  context_quiet c p (err e q) h = h
  context_quiet c p panic h = h
  context_quiet c p stuck h = h

  pub Quiet-wrapping :
      {A : Type 0} (c : Context) (m : Streaming U A) → Quiet m → Quiet (wrapping c m)
  unfolding wrapping
  Quiet-wrapping c m h = record { at = λ p. context_quiet c p (m p) (h.at p) }

  Quiet-field :
      {A B : Type 0} (m : Streaming U B) (f : B → StreamingParser U → StreamingParser U)
      (k : Streaming U A)
      → Quiet m
      → ((b : B) (p : StreamingParser U) → Same p (f b p))
      → Quiet k
      → Quiet (m >>= λ b. modify (f b) >> k)
  Quiet-field m f k hm hf hk =
      Quiet-bind m _ hm (λ b. Quiet-bind _ _ (Quiet-modify (f b) (hf b)) (λ _. hk))

  Quiet-called :
      {B : Type 0} (m : Counted B) (f : B → Option (Callback U))
      → ((b : B) → IsSilent (f b))
      → Quiet (reading m >>= λ b. call (f b))
  Quiet-called m f silent = Quiet-bind _ _ (Quiet-reading m) (λ b. Quiet-call (f b) (silent b))

  module _ (callbacks : StreamCallbacks U) (counts : CountsErrors callbacks) where
    pub Quiet-params : Quiet (parse_params callbacks)
    unfolding parse_params
    Quiet-params =
        let number = Quiet-reading read_varint in
        let text = λ (c : Context). Quiet-wrapping c _ (Quiet-reading read_string) in
        let same = λ (p : StreamingParser U). let s : Same p p = (refl, refl, refl, refl) in s in
        Quiet-field _ _ _ number (λ b p. same p)
          (Quiet-field _ _ _ number (λ b p. same p)
            (Quiet-field _ _ _ number (λ b p. same p)
              (Quiet-field _ _ _ number (λ b p. same p)
                (Quiet-field _ _ _ (text _) (λ b p. same p)
                  (Quiet-field _ _ _ (text _) (λ b p. same p)
                    (Quiet-field _ _ _ number (λ b p. same p)
                      (record { at = λ p. (Quiet-call _ (counts.on_params p.params)).at p })))))))

    pub Quiet-type : Quiet (parse_type callbacks)
    unfolding parse_type
    Quiet-type = Quiet-called _ _ (λ t. counts.on_type t.address t.size t.name t.indirect)

    pub Quiet-object : Quiet (parse_object callbacks)
    unfolding parse_object
    Quiet-object = record {
      at = λ p.
          (Quiet-called _ _ (λ o. counts.on_object o.addr o.type_addr o.bytes o.pointers)).at p;
    }

    pub Quiet-root : Quiet (parse_root callbacks)
    unfolding parse_root
    Quiet-root = Quiet-called _ _ (λ o. counts.on_root o.desc o.ptr)

    pub Quiet-goroutine : Quiet (parse_goroutine callbacks)
    unfolding parse_goroutine
    Quiet-goroutine = Quiet-called _ _ (λ o. counts.on_goroutine o.id o.status o.wait_reason)
