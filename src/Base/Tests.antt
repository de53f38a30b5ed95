-- ===== src/Base/Tests.antt =====
-- Boolean tests on the native numbers, the conditional, and case splits on computed values.
use Prim.Native.Nat.{ℕ, zero, suc, ◌<◌, compare, Ordering}
use mathlib.Core.Path.{◌≡◌, refl}
use mathlib.Core.Logic.{◌≢◌, ◌↔◌, ◌⊎◌, inl, inr}
use mathlib.Core.Bool.{Bool, true, false}
use mathlib.Core.Option.{Option, none, some}
use native.Mathlib.Omega.{arith}

abbrev pub ltb : ℕ → ℕ → Bool
ltb a b = elim (compare a b) [ Ordering.lt ↦ true | _ ↦ false ]

abbrev pub leb : ℕ → ℕ → Bool
leb a b = elim (compare a b) [ Ordering.gt ↦ false | _ ↦ true ]

infix 50 ◌==◌
abbrev pub ◌==◌ : ℕ → ℕ → Bool
a == b = elim (compare a b) [ Ordering.eq ↦ true | _ ↦ false ]

infix 1 if◌then◌else◌
abbrev pub if◌then◌else◌ {ℓ} : {A : Type ℓ} → Bool → A → A → A
if true then x else y = x
if false then x else y = y

pub ltb→lt : (a b : ℕ) → ltb a b ≡ true → a < b
ltb→lt a b h = ground arith

pub lt→ltb : (a b : ℕ) → a < b → ltb a b ≡ true
lt→ltb a b h = ground arith

pub ne→eqb : (a b : ℕ) → a ≢ b → (a == b) ≡ false
ne→eqb a b h = ground arith

pub ==_iff : (a b : ℕ) → ((a == b) ≡ true) ↔ (a ≡ b)
==_iff a b = ground arith

pub Bool-cases : (b : Bool) → (b ≡ true) ⊎ (b ≡ false)
Bool-cases true = inl refl
Bool-cases false = inr refl

pub Option-cases {ℓ} : {A : Type ℓ} (o : Option A) → (o ≡ none) ⊎ ((a : A) × (o ≡ some a))
Option-cases none = inl refl
Option-cases (some a) = inr (a, refl)

-- Two functions compared by evaluation, at each of the first `bound` numbers.
unfoldable pub same_table : (ℕ → ℕ) → (ℕ → ℕ) → ℕ → Bool
same_table f g zero = true
same_table f g (suc bound) =
    let lower = same_table f g bound in if f bound == g bound then lower else false

pub same_table_lem :
    (f g : ℕ → ℕ) (bound k : ℕ) → same_table f g bound ≡ true → k < bound → f k ≡ g k
unfolding same_table
same_table_lem f g zero k table small = absurd (omega arith)
same_table_lem f g (suc bound) k table small = elim (Bool-cases (k == bound)) [
  | inl last ↦ ground (arith, (==_iff k bound).0 last)
  | inr before ↦ same_table_lem f g bound k (ground arith) (ground arith)
]
