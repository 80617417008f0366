-- ===== src/Run.antt =====
-- Code that changes a state and may fail. A Go call that returns an error leaves its reader and its
-- receiver where they stood, so the state comes back beside the error. `panic` is a Go run-time
-- panic. `stuck` is no Go outcome: a loop of the model ran out of fuel.
pub mod Ends
pub mod Returns
pub mod Panics
pub mod Keeps
pub mod Yields

pub data Outcome {ℓ} (E S A : Type ℓ) : Type ℓ where
  ok : A → S → Outcome E S A
  err : E → S → Outcome E S A
  panic : Outcome E S A
  stuck : Outcome E S A

abbrev pub Run {ℓ} : Type ℓ → Type ℓ → Type ℓ → Type ℓ
Run E S A = S → Outcome E S A

module _ {ℓ} {E S A : Type ℓ} where
  pub pure : A → Run E S A
  pure a s = ok a s

  pub raise : E → Run E S A
  raise e s = err e s

  pub crash : Run E S A
  crash s = panic

  pub exhausted : Run E S A
  exhausted s = stuck

module _ {ℓ} {E S A B : Type ℓ} where
  abbrev pub continue : Outcome E S A → (A → Run E S B) → Outcome E S B
  continue (ok a s) f = f a s
  continue (err e s) f = err e s
  continue panic f = panic
  continue stuck f = stuck

  infixl 10 ◌>>=◌ ◌>>◌
  -- Opening this opens `pure`, `raise`, `crash` and `exhausted` too.
  unfoldable pub ◌>>=◌ : Run E S A → (A → Run E S B) → Run E S B
  unfolding pure raise crash exhausted
  ◌>>=◌ m f s = continue (m s) f

  abbrev pub ◌>>◌ : Run E S A → Run E S B → Run E S B
  m >> k = m >>= λ _. k
