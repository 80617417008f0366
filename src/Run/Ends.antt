-- ===== src/Run/Ends.antt =====
-- Actions that end: they never run out of fuel and never give back input that was taken. `size`
-- measures the input that is left in a state.
use heaplens.Base.{ℕ, ◌≤◌, ◌<◌, ◌≡◌, refl, arith, Bool, true, false, if◌then◌else◌}
use heaplens.Run.{Outcome, ok, err, panic, stuck, Run, pure, raise, crash, continue, ◌>>=◌}

module _ {E S : Type 0} (size : S → ℕ) where
  -- The outcome leaves at most `n`.
  abbrev pub EndsAt : {A : Type 0} → ℕ → Outcome E S A → Type 0
  EndsAt n (ok a t) = size t ≤ n
  EndsAt n (err e t) = size t ≤ n
  EndsAt n panic = Unit {0}
  EndsAt n stuck = ⊥

  -- The same, and a success leaves less than `n`.
  abbrev pub TakesAt : {A : Type 0} → ℕ → Outcome E S A → Type 0
  TakesAt n (ok a t) = size t < n
  TakesAt n (err e t) = size t ≤ n
  TakesAt n panic = Unit {0}
  TakesAt n stuck = ⊥

  pub record Ends {A : Type 0} (m : Run E S A) : Type 0 where
    pub at : (s : S) → EndsAt (size s) (m s)

  pub record Takes {A : Type 0} (m : Run E S A) : Type 0 where
    pub at : (s : S) → TakesAt (size s) (m s)

  pub EndsAt-of_TakesAt : {A : Type 0} (n : ℕ) (o : Outcome E S A) → TakesAt n o → EndsAt n o
  EndsAt-of_TakesAt n (ok a t) h = omega arith
  EndsAt-of_TakesAt n (err e t) h = h
  EndsAt-of_TakesAt n panic h = h
  EndsAt-of_TakesAt n stuck h = h

  pub EndsAt-mono : {A : Type 0} (n k : ℕ) (o : Outcome E S A) → EndsAt k o → k ≤ n → EndsAt n o
  EndsAt-mono n k (ok a t) h le = omega arith
  EndsAt-mono n k (err e t) h le = omega arith
  EndsAt-mono n k panic h le = tt
  EndsAt-mono n k stuck h le = h

  pub TakesAt-of_EndsAt :
      {A : Type 0} (n k : ℕ) (o : Outcome E S A) → EndsAt k o → k < n → TakesAt n o
  TakesAt-of_EndsAt n k (ok a t) h lt = omega arith
  TakesAt-of_EndsAt n k (err e t) h lt = omega arith
  TakesAt-of_EndsAt n k panic h lt = tt
  TakesAt-of_EndsAt n k stuck h lt = h

  pub TakesAt-if :
      {A : Type 0} (n : ℕ) (b : Bool) (o p : Outcome E S A)
      → TakesAt n o
      → TakesAt n p
      → TakesAt n (if b then o else p)
  TakesAt-if n true o p ho hp = ho
  TakesAt-if n false o p ho hp = hp

  pub EndsAt-if :
      {A : Type 0} (n : ℕ) (b : Bool) (o p : Outcome E S A)
      → (b ≡ true → EndsAt n o)
      → (b ≡ false → EndsAt n p)
      → EndsAt n (if b then o else p)
  EndsAt-if n true o p ho hp = ho refl
  EndsAt-if n false o p ho hp = hp refl

  -- A case on a Boolean between two actions, at a state.
  pub EndsAt-bool :
      {A : Type 0} (n : ℕ) (m k : Run E S A) (b : Bool) (s : S)
      → EndsAt n (m s)
      → EndsAt n (k s)
      → EndsAt n ((elim b as (λ _. Run E S A) [ true ↦ m | false ↦ k ]) s)
  EndsAt-bool n m k true s hm hk = hm
  EndsAt-bool n m k false s hm hk = hk

  pub EndsAt-continue :
      {A B : Type 0} (n : ℕ) (o : Outcome E S A) (f : A → Run E S B)
      → EndsAt n o
      → ((a : A) (t : S) → size t ≤ n → EndsAt (size t) (f a t))
      → EndsAt n (continue o f)
  EndsAt-continue n (ok a t) f h k = EndsAt-mono n (size t) (f a t) (k a t h) h
  EndsAt-continue n (err e t) f h k = h
  EndsAt-continue n panic f h k = tt
  EndsAt-continue n stuck f h k = h

  -- After a success there is less left, which pays for a round of a loop.
  pub TakesAt-continue :
      {A B : Type 0} (n : ℕ) (o : Outcome E S A) (f : A → Run E S B)
      → TakesAt n o
      → ((a : A) (t : S) → size t < n → EndsAt (size t) (f a t))
      → TakesAt n (continue o f)
  TakesAt-continue n (ok a t) f h k = TakesAt-of_EndsAt n (size t) (f a t) (k a t h) h
  TakesAt-continue n (err e t) f h k = h
  TakesAt-continue n panic f h k = tt
  TakesAt-continue n stuck f h k = h

  pub Ends-of_Takes : {A : Type 0} (m : Run E S A) → Takes m → Ends m
  Ends-of_Takes m h = record { at = λ s. EndsAt-of_TakesAt (size s) (m s) (h.at s) }

  pub Ends-pure : {A : Type 0} (a : A) → Ends (pure a)
  unfolding ◌>>=◌
  Ends-pure a = record { at = λ s. omega arith }

  pub Ends-raise : {A : Type 0} (e : E) → Ends (raise {A = A} e)
  unfolding ◌>>=◌
  Ends-raise e = record { at = λ s. omega arith }

  pub Ends-crash : {A : Type 0} → Ends (crash {A = A})
  unfolding ◌>>=◌
  Ends-crash = record { at = λ s. tt }

  pub Ends-if :
      {A : Type 0} (b : Bool) (m n : Run E S A) → Ends m → Ends n → Ends (if b then m else n)
  Ends-if true m n hm hn = hm
  Ends-if false m n hm hn = hn

  pub Ends-bind :
      {A B : Type 0} (m : Run E S A) (f : A → Run E S B)
      → Ends m
      → ((a : A) → Ends (f a))
      → Ends (m >>= f)
  unfolding ◌>>=◌
  Ends-bind m f hm hf = record {
    at = λ s. EndsAt-continue (size s) (m s) f (hm.at s) (λ a t le. (hf a).at t);
  }

  pub Takes-bind :
      {A B : Type 0} (m : Run E S A) (f : A → Run E S B)
      → Takes m
      → ((a : A) → Ends (f a))
      → Takes (m >>= f)
  unfolding ◌>>=◌
  Takes-bind m f hm hf = record {
    at = λ s. TakesAt-continue (size s) (m s) f (hm.at s) (λ a t le. (hf a).at t);
  }
