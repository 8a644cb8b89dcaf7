-- ===== src/Base/Partial.antt =====
-- What holds of a result that is there.
use mathlib.Core.Path.{◌≡◌, subst}
use mathlib.Core.Option.{Option, none, some}
use openeuler_ummu.Base.Tests.{◌>>=◌}

module _ {ℓ} {A : Type ℓ} where
  abbrev pub After : Option A → (A → Type 0) → Type 0
  After none p = Unit
  After (some a) p = p a

  pub After-some : (o : Option A) (p : A → Type 0) (a : A) → After o p → o ≡ some a → p a
  After-some o p a h e = subst (λ (x : Option A). After x p) e h

module _ {ℓ κ} {A : Type ℓ} {B : Type κ} where
  pub After-bind :
      (o : Option A) (f : A → Option B) (p : A → Type 0) (q : B → Type 0)
      → After o p
      → ((a : A) → p a → After (f a) q)
      → After (o >>= f) q
  After-bind none f p q h k = tt
  After-bind (some a) f p q h k = k a h

pub After-any {ℓ} : {A : Type ℓ} (o : Option A) → After o (λ (_ : A). Unit)
After-any none = tt
After-any (some a) = tt
