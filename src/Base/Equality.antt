-- ===== src/Base/Equality.antt =====
-- Equality tests as an interface, with the instances that the components use.
use Prim.Native.Nat.{ℕ}
use Prim.Native.String.{String}
use mathlib.Core.Path.{◌≡◌, refl}
use mathlib.Core.Logic.{◌↔◌, ◌≢◌}
use mathlib.Core.Bool.{Bool, true, false, ◌&&◌}
use native.Mathlib.Omega.{arith}
use text.Mathlib.Text.{◌==◌ as str_eq}
use text.Mathlib.TextEquality.{eq_iff}
use trading_hub.Base.Tests.{eqb, eqb_iff}

-- A test of equality that decides it.
pub record HasEq {ℓ} (A : Type ℓ) : Type ℓ where
  pub is_same : A → A → Bool
  pub is_same_iff : (x y : A) → (is_same x y ≡ true) ↔ (x ≡ y)

instance abbrev pub string_eq : HasEq String
string_eq = record { is_same = str_eq; is_same_iff = eq_iff }

instance abbrev pub nat_eq : HasEq ℕ
nat_eq = record { is_same = eqb; is_same_iff = eqb_iff }

-- `==` on any such type.
module _ {ℓ} {A : Type ℓ} ⦃e : HasEq A⦄ where
  infix 50 ◌==◌
  abbrev pub ◌==◌ : A → A → Bool
  x == y = e.is_same x y

module _ {ℓ κ} {A : Type ℓ} {B : Type κ} ⦃e : HasEq A⦄ ⦃f : HasEq B⦄ where
  abbrev pub pair_beq : A × B → A × B → Bool
  pair_beq (a, b) (c, d) = e.is_same a c && f.is_same b d

  pub pair_beq_iff : (p q : A × B) → (pair_beq p q ≡ true) ↔ (p ≡ q)
  pair_beq_iff (a, b) (c, d) = ground (arith, e.is_same_iff a c, f.is_same_iff b d)

  instance abbrev pub pair_eq : HasEq (A × B)
  pair_eq = record { is_same = pair_beq; is_same_iff = pair_beq_iff }

module _ {ℓ} {A : Type ℓ} ⦃e : HasEq A⦄ where
  pub eq_of_beq : (a b : A) → (a == b) ≡ true → a ≡ b
  eq_of_beq a b h = (e.is_same_iff a b).0 h

  pub beq_self : (a : A) → (a == a) ≡ true
  beq_self a = (e.is_same_iff a a).1 refl

  pub beq_of_ne : (a b : A) → a ≢ b → (a == b) ≡ false
  beq_of_ne a b h = ground (arith, e.is_same_iff a b)

  pub ne_of_beq : (a b : A) → (a == b) ≡ false → a ≢ b
  ne_of_beq a b h = ground (arith, e.is_same_iff a b)
