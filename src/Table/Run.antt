-- ===== src/Table/Run.antt =====
-- Runs of steps that do not fault and end as a predicate says.
use openeuler_ummu.Base.{◌≡◌, refl, Option, none, some}
use openeuler_ummu.Table.{State, M, ◌>>=◌}

module _ {A : Type 0} where
  abbrev pub Ends : Option (A × State) → (A → State → Type 0) → Type 0
  Ends none q = ⊥
  Ends (some (a, s)) q = q a s

  -- `m` from `s` does not fault, and its result and final state satisfy `q`.
  abbrev pub Runs : M A → State → (A → State → Type 0) → Type 0
  Runs m s q = Ends (m s) q

  pub Ends-weaken :
      (p q : A → State → Type 0) (o : Option (A × State))
      → Ends o p
      → ((a : A) (s : State) → p a s → q a s)
      → Ends o q
  Ends-weaken p q none h k = h
  Ends-weaken p q (some (a, s)) h k = k a s h

  -- with the run itself
  pub Ends-run :
      (p : A → State → Type 0) (o : Option (A × State))
      → Ends o p
      → Ends o (λ a s. p a s × (o ≡ some (a, s)))
  Ends-run p none h = h
  Ends-run p (some (a, s)) h = (h, refl)

module _ {A B : Type 0} (p : A → State → Type 0) (q : B → State → Type 0) where
  Ends-bind :
      (o : Option (A × State)) (f : A → M B)
      → Ends o p
      → ((a : A) (s : State) → p a s → Runs (f a) s q)
      → Ends (elim o [ none ↦ none | some (a, s) ↦ f a s ]) q
  Ends-bind none f h k = absurd h
  Ends-bind (some (a, s)) f h k = k a s h

  -- A run of `m` up to `p` goes on to `q`.
  pub Runs-bind :
      (m : M A) (f : A → M B) (s : State)
      → Runs m s p
      → ((a : A) (s' : State) → p a s' → Runs (f a) s' q)
      → Runs (m >>= f) s q
  Runs-bind m f s h k = Ends-bind (m s) f h k

-- What holds if a run does not fault.
module _ {A : Type 0} where
  abbrev pub Yields : Option (A × State) → (A → State → Type 0) → Type 0
  Yields none q = Unit
  Yields (some (a, s)) q = q a s

  pub Yields-weaken :
      (p q : A → State → Type 0) (o : Option (A × State))
      → Yields o p
      → ((a : A) (s : State) → p a s → q a s)
      → Yields o q
  Yields-weaken p q none h k = tt
  Yields-weaken p q (some (a, s)) h k = k a s h

  pub Yields-both :
      (p q : A → State → Type 0) (o : Option (A × State))
      → Yields o p
      → Yields o q
      → Yields o (λ a s. p a s × q a s)
  Yields-both p q none h k = tt
  Yields-both p q (some (a, s)) h k = (h, k)

  pub Ends-Yields :
      (p q : A → State → Type 0) (o : Option (A × State))
      → Ends o p
      → Yields o q
      → Ends o (λ a s. p a s × q a s)
  Ends-Yields p q none h k = h
  Ends-Yields p q (some (a, s)) h k = (h, k)

module _ {A B : Type 0} (p : A → State → Type 0) (q : B → State → Type 0) where
  yields_on :
      (o : Option (A × State)) (f : A → M B)
      → Yields o p
      → ((a : A) (s : State) → p a s → Yields (f a s) q)
      → Yields (elim o [ none ↦ none | some (a, s) ↦ f a s ]) q
  yields_on none f h k = tt
  yields_on (some (a, s)) f h k = k a s h

  pub Yields-bind :
      (m : M A) (f : A → M B) (s : State)
      → Yields (m s) p
      → ((a : A) (s' : State) → p a s' → Yields (f a s') q)
      → Yields ((m >>= f) s) q
  Yields-bind m f s h k = yields_on (m s) f h k
