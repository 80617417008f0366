-- ===== src/Graph/Dominators/Actions.antt =====
-- graph/dominators.go: the actions that read and change the shared maps, and the loop over a slice.
use heaplens.Base.{ℕ, zero, suc, ◌<◌, ◌≡◌, refl, arith, List, [], ◌∷◌, All}
use heaplens.Base.{some}
use heaplens.Base.{get_elem?, length}
use heaplens.Run.Returns.{Returns, Returns-bind, Returns-pure}
use heaplens.Graph.Dominators.{Forest, Build, gets, update, for_each}

pub Returns-gets :
    {A : Type 0} {P : Forest → Type 0} (f : Forest → A)
    → Returns P (gets f) (λ a s. P s × (a ≡ f s))
unfolding gets
Returns-gets f = record { at = λ s p. (p, refl) }

pub Returns-update :
    {P Q : Forest → Type 0} (f : Forest → Forest)
    → ((s : Forest) → P s → Q (f s))
    → Returns P (update f) (λ u s. Q s)
unfolding update
Returns-update f h = record { at = h }

pub Returns-for_each :
    {A : Type 0} {P : Forest → Type 0} (R : A → Type 0) (xs : List A) (body : A → Build (Unit {0}))
    → All R xs
    → ((x : A) → R x → Returns P (body x) (λ u. P))
    → Returns P (for_each xs body) (λ u. P)
unfolding for_each
Returns-for_each R [] body h keeps = Returns-pure tt (λ s p. p)
Returns-for_each R (x ∷ xs) body (h, hs) keeps =
    Returns-bind _ (keeps x h) (λ u. Returns-for_each R xs body hs keeps)

pub all_unit : {A : Type 0} (xs : List A) → All (λ x. Unit {0}) xs
all_unit [] = tt
all_unit (x ∷ xs) = (tt, all_unit xs)

pub get_elem?-some :
    {A : Type 0} (xs : List A) (i : ℕ) → i < length xs → (x : A) × (get_elem? xs i ≡ some x)
get_elem?-some [] i h = absurd (omega (arith, h))
get_elem?-some (x ∷ xs) zero h = (x, refl)
get_elem?-some (x ∷ xs) (suc i) h = get_elem?-some xs i (omega arith)
