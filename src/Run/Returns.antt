-- ===== src/Run/Returns.antt =====
-- Actions that return: from every state in which `P` holds they give a result, no error, no panic and
-- no lack of fuel, and `Q` holds of the result and the state after.
use heaplens.Base.{◌≡◌, refl, Bool, true, false, Option, none, some, if◌then◌else◌}
use heaplens.Run.{Outcome, ok, err, panic, stuck, Run, pure, ◌>>=◌, continue}

module _ {E S : Type 0} where
  abbrev pub ReturnsAt : {A : Type 0} → (A → S → Type 0) → Outcome E S A → Type 0
  ReturnsAt Q (ok a s) = Q a s
  ReturnsAt Q (err e s) = ⊥
  ReturnsAt Q panic = ⊥
  ReturnsAt Q stuck = ⊥

  pub record Returns {A : Type 0} (P : S → Type 0) (m : Run E S A) (Q : A → S → Type 0)
      : Type 0 where
    pub at : (s : S) → P s → ReturnsAt Q (m s)

  continue-Returns :
      {A B : Type 0} {Q : A → S → Type 0} {R : B → S → Type 0} (o : Outcome E S A)
      (k : A → Run E S B)
      → ReturnsAt Q o
      → ((a : A) → Returns (Q a) (k a) R)
      → ReturnsAt R (continue o k)
  continue-Returns (ok a s) k h f = (f a).at s h
  continue-Returns (err e s) k h f = absurd h
  continue-Returns panic k h f = absurd h
  continue-Returns stuck k h f = absurd h

  pub Returns-bind :
      {A B : Type 0} {P : S → Type 0} {m : Run E S A} {k : A → Run E S B} (Q : A → S → Type 0)
      {R : B → S → Type 0}
      → Returns P m Q
      → ((a : A) → Returns (Q a) (k a) R)
      → Returns P (m >>= k) R
  unfolding ◌>>=◌
  Returns-bind {m = m} {k = k} Q h f = record { at = λ s p. continue-Returns (m s) k (h.at s p) f }

  pub Returns-pure :
      {A : Type 0} {P : S → Type 0} {Q : A → S → Type 0} (a : A)
      → ((s : S) → P s → Q a s)
      → Returns P (pure a) Q
  unfolding ◌>>=◌
  Returns-pure a h = record { at = h }

  pub Returns-if :
      {A : Type 0} {P : S → Type 0} {Q : A → S → Type 0} (b : Bool) {m k : Run E S A}
      → (b ≡ true → Returns P m Q)
      → (b ≡ false → Returns P k Q)
      → Returns P (if b then m else k) Q
  Returns-if true h f = h refl
  Returns-if false h f = f refl

  at-Returns :
      {A : Type 0} {Q R : A → S → Type 0} (o : Outcome E S A)
      → ReturnsAt Q o
      → ((a : A) (s : S) → Q a s → R a s)
      → ReturnsAt R o
  at-Returns (ok a s) h f = f a s h
  at-Returns (err e s) h f = h
  at-Returns panic h f = h
  at-Returns stuck h f = h

  pub Returns-then :
      {A : Type 0} {P : S → Type 0} {m : Run E S A} (Q : A → S → Type 0) {R : A → S → Type 0}
      → Returns P m Q
      → ((a : A) (s : S) → Q a s → R a s)
      → Returns P m R
  Returns-then {m = m} Q h f = record { at = λ s p. at-Returns (m s) (h.at s p) f }

  -- What the state before settles can be used, and the rest is forgotten.
  pub Returns-given :
      {A F : Type 0} {P R : S → Type 0} {m : Run E S A} {Q : A → S → Type 0}
      → ((s : S) → P s → R s × F)
      → (F → Returns R m Q)
      → Returns P m Q
  Returns-given f h = record { at = λ s p. (h (f s p).1).at s (f s p).0 }

  pub Returns-option :
      {A B : Type 0} {P : S → Type 0} {Q : A → S → Type 0} (o : Option B) {m : Run E S A}
      {k : B → Run E S A}
      → (o ≡ none → Returns P m Q)
      → ((b : B) → o ≡ some b → Returns P (k b) Q)
      → Returns P (elim o [ none ↦ m | some b ↦ k b ]) Q
  Returns-option none h f = h refl
  Returns-option (some b) h f = f b refl

  pub Returns-bool :
      {A : Type 0} {P : S → Type 0} {Q : A → S → Type 0} (b : Bool) {m k : Run E S A}
      → (b ≡ true → Returns P m Q)
      → (b ≡ false → Returns P k Q)
      → Returns P (elim b [ true ↦ m | false ↦ k ]) Q
  Returns-bool true h f = h refl
  Returns-bool false h f = f refl
