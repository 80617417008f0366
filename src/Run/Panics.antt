-- ===== src/Run/Panics.antt =====
-- Actions that never panic, from any state.
use heaplens.Base.{Bool, true, false, if◌then◌else◌}
use heaplens.Run.{Outcome, ok, err, panic, stuck, Run, pure, raise, exhausted, continue, ◌>>=◌}

module _ {E S : Type 0} where
  abbrev pub IsCalmAt : {A : Type 0} → Outcome E S A → Type 0
  IsCalmAt (ok a s) = Unit {0}
  IsCalmAt (err e s) = Unit {0}
  IsCalmAt panic = ⊥
  IsCalmAt stuck = Unit {0}

  pub record IsCalm {A : Type 0} (m : Run E S A) : Type 0 where
    pub at : (s : S) → IsCalmAt (m s)

  pub IsCalm-pure : {A : Type 0} (a : A) → IsCalm (pure a)
  unfolding ◌>>=◌
  IsCalm-pure a = record { at = λ s. tt }

  pub IsCalm-raise : {A : Type 0} (e : E) → IsCalm (raise {A = A} e)
  unfolding ◌>>=◌
  IsCalm-raise e = record { at = λ s. tt }

  pub IsCalm-exhausted : {A : Type 0} → IsCalm (exhausted {A = A})
  unfolding ◌>>=◌
  IsCalm-exhausted = record { at = λ s. tt }

  continue-IsCalm :
      {A B : Type 0} (o : Outcome E S A) (k : A → Run E S B)
      → IsCalmAt o
      → ((a : A) → IsCalm (k a))
      → IsCalmAt (continue o k)
  continue-IsCalm (ok a s) k h f = (f a).at s
  continue-IsCalm (err e s) k h f = tt
  continue-IsCalm panic k h f = h
  continue-IsCalm stuck k h f = tt

  pub IsCalm-bind :
      {A B : Type 0} (m : Run E S A) (k : A → Run E S B)
      → IsCalm m
      → ((a : A) → IsCalm (k a))
      → IsCalm (m >>= k)
  unfolding ◌>>=◌
  IsCalm-bind m k h f = record { at = λ s. continue-IsCalm (m s) k (h.at s) f }

  pub IsCalm-if :
      {A : Type 0} (b : Bool) (m k : Run E S A) → IsCalm m → IsCalm k → IsCalm (if b then m else k)
  IsCalm-if true m k hm hk = hm
  IsCalm-if false m k hm hk = hk

  pub IsCalm-bool :
      {A : Type 0} (b : Bool) (m k : Run E S A)
      → IsCalm m
      → IsCalm k
      → IsCalm (elim b [ true ↦ m | false ↦ k ])
  IsCalm-bool true m k hm hk = hm
  IsCalm-bool false m k hm hk = hk
