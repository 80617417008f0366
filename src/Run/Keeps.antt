-- ===== src/Run/Keeps.antt =====
-- Actions that keep what is true of the state, whether they return a result or an error.
use heaplens.Base.{Bool, true, false, if◌then◌else◌}
use heaplens.Run.{Outcome, ok, err, panic, stuck, Run, pure, raise, exhausted, continue, ◌>>=◌}

module _ {E S : Type 0} (P : S → Type 0) where
  abbrev pub KeepsAt : {A : Type 0} → Outcome E S A → Type 0
  KeepsAt (ok a s) = P s
  KeepsAt (err e s) = P s
  KeepsAt panic = Unit {0}
  KeepsAt stuck = Unit {0}

  pub record Keeps {A : Type 0} (m : Run E S A) : Type 0 where
    pub at : (s : S) → P s → KeepsAt (m s)

  pub Keeps-pure : {A : Type 0} (a : A) → Keeps (pure a)
  unfolding ◌>>=◌
  Keeps-pure a = record { at = λ s h. h }

  pub Keeps-raise : {A : Type 0} (e : E) → Keeps (raise {A = A} e)
  unfolding ◌>>=◌
  Keeps-raise e = record { at = λ s h. h }

  pub Keeps-exhausted : {A : Type 0} → Keeps (exhausted {A = A})
  unfolding ◌>>=◌
  Keeps-exhausted = record { at = λ s h. tt }

  continue-Keeps :
      {A B : Type 0} (o : Outcome E S A) (k : A → Run E S B)
      → KeepsAt o
      → ((a : A) → Keeps (k a))
      → KeepsAt (continue o k)
  continue-Keeps (ok a s) k h f = (f a).at s h
  continue-Keeps (err e s) k h f = h
  continue-Keeps panic k h f = tt
  continue-Keeps stuck k h f = tt

  pub Keeps-bind :
      {A B : Type 0} (m : Run E S A) (k : A → Run E S B)
      → Keeps m
      → ((a : A) → Keeps (k a))
      → Keeps (m >>= k)
  unfolding ◌>>=◌
  Keeps-bind m k h f = record { at = λ s p. continue-Keeps (m s) k (h.at s p) f }

  pub Keeps-if :
      {A : Type 0} (b : Bool) (m k : Run E S A) → Keeps m → Keeps k → Keeps (if b then m else k)
  Keeps-if true m k hm hk = hm
  Keeps-if false m k hm hk = hk

  pub Keeps-bool :
      {A : Type 0} (b : Bool) (m k : Run E S A)
      → Keeps m
      → Keeps k
      → Keeps (elim b [ true ↦ m | false ↦ k ])
  Keeps-bool true m k hm hk = hm
  Keeps-bool false m k hm hk = hk
