-- ===== src/Base/Exec.antt =====
-- Methods that change an object and may fail: what was changed before an error stays changed.
pub mod Ends
use mathlib.Core.Path.{◌≡◌, refl}
use blockframe_rs.Base.{Result, ok, err, is_ok, false}

abbrev pub Exec : Type 0 → Type 0 → Type 0
Exec S A = S → Result A × S

abbrev pub pure : {S A : Type 0} → A → Exec S A
pure a s = (ok a, s)

-- A step that reads no state and changes none.
abbrev pub lift : {S A : Type 0} → Result A → Exec S A
lift r s = (r, s)

abbrev pub proceed : {S A B : Type 0} → Result A × S → (A → Exec S B) → Result B × S
proceed (ok a, s) f = f a s
proceed (err e, s) f = (err e, s)

infixl 5 ◌>>=◌ ◌>>◌
abbrev pub ◌>>=◌ : {S A B : Type 0} → Exec S A → (A → Exec S B) → Exec S B
◌>>=◌ m f s = proceed (m s) f

abbrev pub ◌>>◌ : {S A B : Type 0} → Exec S A → Exec S B → Exec S B
m >> k = m >>= λ _. k

-- The steps behind one that returned a value: the value, and the state that it left.
pub proceed-eq-ok :
    {S A B : Type 0} (r : Result A × S) (f : A → Exec S B) (b : B)
    → (proceed r f).0 ≡ ok b
    → (a : A) × (r ≡ (ok a, r.1)) × ((f a r.1).0 ≡ ok b) × ((proceed r f) ≡ f a r.1)
proceed-eq-ok (ok a, s) f b h = (a, refl, h, refl)
proceed-eq-ok (err e, s) f b h = absurd (cc)

-- What fails from every state fails behind another step.
pub proceed-fails :
    {S A B : Type 0} (r : Result A × S) (f : A → Exec S B)
    → ((a : A) (s : S) → is_ok (f a s).0 ≡ false)
    → is_ok (proceed r f).0 ≡ false
proceed-fails (ok a, s) f h = h a s
proceed-fails (err e, s) f h = refl

-- What fails, fails with what would come behind it.
pub proceed-failed :
    {S A B : Type 0} (r : Result A × S) (f : A → Exec S B)
    → is_ok r.0 ≡ false
    → is_ok (proceed r f).0 ≡ false
proceed-failed (ok a, s) f h = absurd (cc)
proceed-failed (err e, s) f h = refl

-- Behind a step that is known to return a value and to leave the state alone.
pub proceed-step-fails :
    {S A B : Type 0} (r : Result A) (a : A) (s : S) (f : A → Exec S B)
    → r ≡ ok a
    → is_ok (f a s).0 ≡ false
    → is_ok (proceed (r, s) f).0 ≡ false
proceed-step-fails r a s f e h = rw e h

-- What fails, with whatever value, from the state that a step leaves, fails behind that step.
pub proceed-left-fails :
    {S A B : Type 0} (r : Result A × S) (f : A → Exec S B)
    → ((a : A) → is_ok (f a r.1).0 ≡ false)
    → is_ok (proceed r f).0 ≡ false
proceed-left-fails (ok a, s) f h = h a
proceed-left-fails (err e, s) f h = refl
