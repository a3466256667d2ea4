-- ===== src/Prelude/Equality.antt =====
-- Go's `==` as an interface, for texts, numbers and pairs of comparable values.
use Prim.Native.Nat.{ℕ}
use Prim.Native.String.{String}
use mathlib.Core.Bool.{Bool, true, ◌&&◌}
use mathlib.Core.Path.{◌≡◌}
use mathlib.Core.Logic.{◌↔◌}
use native.Mathlib.Omega.{arith}
use text.Mathlib.Text.{◌==◌ as text_test}
use text.Mathlib.TextEquality.{eq_iff}
use heuristic.Prelude.Tests.{number_test}

-- A comparable type of Go, with its test.
pub record Eq {ℓ} (K : Type ℓ) : Type ℓ where
  pub same : K → K → Bool
  pub same_iff : (j k : K) → (same j k ≡ true) ↔ (j ≡ k)

instance abbrev pub string_eq : Eq String
string_eq = record { same = text_test; same_iff = eq_iff }

pub same_number : (n m : ℕ) → (number_test n m ≡ true) ↔ (n ≡ m)
same_number n m = (λ h. ground arith, λ h. ground arith)

instance abbrev pub nat_eq : Eq ℕ
nat_eq = record { same = number_test; same_iff = same_number }

-- The test at whichever type its arguments have.
infix 50 ◌==◌
abbrev pub ◌==◌ {κ} : {K : Type κ} ⦃c : Eq K⦄ → K → K → Bool
◌==◌ ⦃c⦄ j k = c.same j k

module _ {ℓ κ} {A : Type ℓ} {B : Type κ} ⦃d : Eq A⦄ ⦃e : Eq B⦄ where
  abbrev pub pairwise : A × B → A × B → Bool
  pairwise p q = d.same p.0 q.0 && e.same p.1 q.1

  pub same_pair : (p q : A × B) → (pairwise p q ≡ true) ↔ (p ≡ q)
  same_pair (a, b) (c, f) = (
    λ h. ground (arith, d.same_iff a c, e.same_iff b f),
    λ h. ground (arith, d.same_iff a c, e.same_iff b f),
  )

  instance abbrev pub pair_eq : Eq (A × B)
  pair_eq = record { same = pairwise; same_iff = same_pair }
