-- ===== src/Run/Yields.antt =====
-- Actions that, where they return a result from a state in which `P` holds, leave `Q` of the result and
-- the state after.
use heaplens.Base.{Bool, true, false, if◌then◌else◌, ◌≡◌, refl, Option, none, some}
use heaplens.Run.{Outcome, ok, err, panic, stuck, Run, pure, raise, exhausted, continue, ◌>>=◌}

module _ {E S : Type 0} where
  abbrev pub YieldsAt : {A : Type 0} → (A → S → Type 0) → Outcome E S A → Type 0
  YieldsAt Q (ok a s) = Q a s
  YieldsAt Q (err e s) = Unit {0}
  YieldsAt Q panic = Unit {0}
  YieldsAt Q stuck = Unit {0}

  pub record Yields {A : Type 0} (P : S → Type 0) (m : Run E S A) (Q : A → S → Type 0)
      : Type 0 where
    pub at : (s : S) → P s → YieldsAt Q (m s)

  pub Yields-pure :
      {A : Type 0} {P : S → Type 0} {Q : A → S → Type 0} (a : A)
      → ((s : S) → P s → Q a s)
      → Yields P (pure a) Q
  unfolding ◌>>=◌
  Yields-pure a h = record { at = h }

  pub Yields-raise :
      {A : Type 0} {P : S → Type 0} {Q : A → S → Type 0} (e : E) → Yields P (raise e) Q
  unfolding ◌>>=◌
  Yields-raise e = record { at = λ s p. tt }

  pub Yields-exhausted : {A : Type 0} {P : S → Type 0} {Q : A → S → Type 0} → Yields P exhausted Q
  unfolding ◌>>=◌
  Yields-exhausted = record { at = λ s p. tt }

  continue-Yields :
      {A B : Type 0} {Q : A → S → Type 0} {R : B → S → Type 0} (o : Outcome E S A)
      (k : A → Run E S B)
      → YieldsAt Q o
      → ((a : A) → Yields (Q a) (k a) R)
      → YieldsAt R (continue o k)
  continue-Yields (ok a s) k h f = (f a).at s h
  continue-Yields (err e s) k h f = tt
  continue-Yields panic k h f = tt
  continue-Yields stuck k h f = tt

  pub Yields-bind :
      {A B : Type 0} {P : S → Type 0} {m : Run E S A} {k : A → Run E S B} (Q : A → S → Type 0)
      {R : B → S → Type 0}
      → Yields P m Q
      → ((a : A) → Yields (Q a) (k a) R)
      → Yields P (m >>= k) R
  unfolding ◌>>=◌
  Yields-bind {m = m} {k = k} Q h f = record { at = λ s p. continue-Yields (m s) k (h.at s p) f }

  at-Yields :
      {A : Type 0} {Q R : A → S → Type 0} (o : Outcome E S A)
      → YieldsAt Q o
      → ((a : A) (s : S) → Q a s → R a s)
      → YieldsAt R o
  at-Yields (ok a s) h f = f a s h
  at-Yields (err e s) h f = tt
  at-Yields panic h f = tt
  at-Yields stuck h f = tt

  pub Yields-then :
      {A : Type 0} {P : S → Type 0} {m : Run E S A} (Q : A → S → Type 0) {R : A → S → Type 0}
      → Yields P m Q
      → ((a : A) (s : S) → Q a s → R a s)
      → Yields P m R
  Yields-then {m = m} Q h f = record { at = λ s p. at-Yields (m s) (h.at s p) f }

  pub Yields-if :
      {A : Type 0} {P : S → Type 0} {Q : A → S → Type 0} (b : Bool) {m k : Run E S A}
      → Yields P m Q
      → Yields P k Q
      → Yields P (if b then m else k) Q
  Yields-if true h f = h
  Yields-if false h f = f

  pub Yields-bool :
      {A : Type 0} {P : S → Type 0} {Q : A → S → Type 0} (b : Bool) {m k : Run E S A}
      → (b ≡ true → Yields P m Q)
      → (b ≡ false → Yields P k Q)
      → Yields P (elim b [ true ↦ m | false ↦ k ]) Q
  Yields-bool true h f = h refl
  Yields-bool false h f = f refl

  pub Yields-option :
      {A B : Type 0} {P : S → Type 0} {Q : A → S → Type 0} (o : Option B) {m : Run E S A}
      {k : B → Run E S A}
      → Yields P m Q
      → ((b : B) → Yields P (k b) Q)
      → Yields P (elim o [ none ↦ m | some b ↦ k b ]) Q
  Yields-option none h f = h
  Yields-option (some b) h f = f b
