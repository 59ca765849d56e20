-- ===== src/Base/Maps.antt =====
-- A `HashMap` is the list of its entries, in the order in which an iteration meets them; no key
-- stands twice. The key's test of equality is an instance.
use Prim.Native.Nat.{ℕ}
use mathlib.Core.Path.{◌≡◌, refl}
use mathlib.Core.Logic.{◌↔◌}
use mathlib.Core.Bool.{Bool, true}
use mathlib.Core.Option.{Option, none, some}
use mathlib.Core.List.{List, [], ◌∷◌}
use native.Mathlib.Omega.{arith}
use blockframe_rs.Base.Tests.{◌==◌, ==_iff, if◌then◌else◌}
use blockframe_rs.Base.Strings.{Text, text_eq, text_eq_iff}
use blockframe_rs.Base.Int.{ℤ, int_eq, int_eq_iff}

pub record Key (K : Type 0) : Type 0 where
  pub eq : K → K → Bool
  pub eq_iff : (a b : K) → (eq a b ≡ true) ↔ (a ≡ b)

instance abbrev pub usize_key : Key ℕ
usize_key = record { eq = ◌==◌; eq_iff = ==_iff }

instance abbrev pub i32_key : Key ℤ
i32_key = record { eq = int_eq; eq_iff = int_eq_iff }

instance abbrev pub string_key : Key Text
string_key = record { eq = text_eq; eq_iff = text_eq_iff }

abbrev pub HashMap : Type 0 → Type 0 → Type 0
HashMap K V = List (K × V)

abbrev pub keys : {K V : Type 0} → HashMap K V → List K
keys [] = []
keys ((k, v) ∷ m) = k ∷ keys m

abbrev pub values : {K V : Type 0} → HashMap K V → List V
values [] = []
values ((k, v) ∷ m) = v ∷ values m

module _ {K V : Type 0} ⦃e : Key K⦄ where
  unfoldable pub lookup : K → HashMap K V → Option V
  lookup k [] = none
  lookup k ((j, v) ∷ m) = if e.eq k j then some v else lookup k m

  unfoldable pub insert : K → V → HashMap K V → HashMap K V
  insert k v [] = (k, v) ∷ []
  insert k v ((j, w) ∷ m) = if e.eq k j then (k, v) ∷ m else (j, w) ∷ insert k v m

  unfoldable pub remove : K → HashMap K V → HashMap K V
  remove k [] = []
  remove k ((j, w) ∷ m) = let rest = remove k m in if e.eq k j then rest else (j, w) ∷ rest

  -- A map in which nothing is found is empty.
  pub empty-of_lookup : (m : HashMap K V) → ((k : K) → lookup k m ≡ none) → m ≡ []
  unfolding lookup
  empty-of_lookup [] h = refl
  empty-of_lookup ((k, v) ∷ m) h =
      let gone = h k in let same = (e.eq_iff k k).1 refl in absurd (ground arith)

  pub lookup-insert :
      (k j : K) (v : V) (m : HashMap K V)
      → lookup j (insert k v m) ≡ (if e.eq j k then some v else lookup j m)
  unfolding lookup insert
  lookup-insert k j v [] = refl
  lookup-insert k j v ((i, w) ∷ m) = ground (
    arith,
    e.eq_iff k j,
    e.eq_iff j k,
    e.eq_iff k i,
    e.eq_iff i k,
    e.eq_iff j i,
    lookup-insert k j v m,
  )

  pub lookup-remove :
      (k j : K) (m : HashMap K V) → lookup j (remove k m) ≡ (if e.eq j k then none else lookup j m)
  unfolding lookup remove
  lookup-remove k j [] = ground arith
  lookup-remove k j ((i, w) ∷ m) =
      ground (arith, e.eq_iff k j, e.eq_iff j k, e.eq_iff k i, e.eq_iff j i, lookup-remove k j m)
