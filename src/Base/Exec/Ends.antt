-- ===== src/Base/Exec/Ends.antt =====
-- What a method leaves when it returns, and what is known when it fails.
use mathlib.Core.Path.{◌≡◌, refl, subst, sym}
use blockframe_rs.Base.{Error, Result, ok, err}
use blockframe_rs.Base.Exec.{Exec, proceed}

-- A run ends in a value and a state as `Q` says, or in an error, where `E` holds. With ⊥ for `E` it
-- does not end in an error.
pub data Ends {S A : Type 0} (E : Type 0) (Q : A → S → Type 0) (run : Result A × S) : Type 0 where
  returns : (a : A) → run.0 ≡ ok a → Q a run.1 → Ends E Q run
  fails : (e : Error) → run.0 ≡ err e → E → Ends E Q run

module _ {S A : Type 0} {E : Type 0} where
  pub Ends-weaken :
      {P Q : A → S → Type 0} {run : Result A × S}
      → Ends E P run
      → ((a : A) (s : S) → P a s → Q a s)
      → Ends E Q run
  Ends-weaken {run = run} (returns a e p) k = returns a e (k a run.1 p)
  Ends-weaken (fails e p x) k = fails e p x

  -- A result that is known to be a value.
  pub Ends-ok :
      {Q : A → S → Type 0} (r : Result A) (s : S) (a : A) → r ≡ ok a → Q a s → Ends E Q (r, s)
  Ends-ok r s a e q = returns a e q

module _ {S A B : Type 0} {E : Type 0} where
  -- The rest of a method runs on what the first step leaves.
  pub Ends-bind :
      {P : A → S → Type 0} {Q : B → S → Type 0} (run : Result A × S) (f : A → Exec S B)
      → Ends E P run
      → ((a : A) (s : S) → P a s → Ends E Q (f a s))
      → Ends E Q (proceed run f)
  Ends-bind {P} (ok b, s) f (returns a e p) k =
      let same : a ≡ b = cc in k b s (subst (λ c. P c s) same p)
  Ends-bind (ok b, s) f (fails e p x) k = absurd (cc)
  Ends-bind (err c, s) f (returns a e p) k = absurd (cc)
  Ends-bind (err c, s) f (fails e p x) k = fails c refl x

  -- A step that is known to return a value and to leave the state alone.
  pub Ends-step :
      {Q : B → S → Type 0} (r : Result A) (s : S) (a : A) (f : A → Exec S B)
      → r ≡ ok a
      → Ends E Q (f a s)
      → Ends E Q (proceed (r, s) f)
  Ends-step {Q} r s a f e q = subst (λ c. Ends E Q (proceed (c, s) f)) (sym e) q

-- Where no error is possible, a run returns.
pub Ends-returns :
    {S A : Type 0} {Q : A → S → Type 0} {run : Result A × S}
    → Ends ⊥ Q run
    → (a : A) × (run.0 ≡ ok a) × Q a run.1
Ends-returns (returns a e q) = (a, e, q)
Ends-returns (fails e p x) = elim x [ ]

-- What a run leaves that is known to return a value.
pub Ends-eq-ok :
    {S A : Type 0} {E : Type 0} {Q : A → S → Type 0} {run : Result A × S} (a : A)
    → Ends E Q run
    → run.0 ≡ ok a
    → Q a run.1
Ends-eq-ok {Q = Q} {run = run} a (returns b e q) done =
    let same : b ≡ a = cc in subst (λ c. Q c run.1) same q
Ends-eq-ok a (fails x e p) done = absurd (cc)
