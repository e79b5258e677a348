-- ===== src/Prelude/Classes.antt =====
-- Equality tests as an interface, `==` on every type that has an instance.
use Prim.Native.Nat.{ℕ}
use Prim.Native.String.{String}
use text.Mathlib.Text.{◌==◌ as str_eq}
use text.Mathlib.TextEquality.{eq_iff}
use mathlib.Core.Path.{◌≡◌}
use mathlib.Core.Logic.{◌↔◌}
use mathlib.Core.Bool.{Bool, true}
use repo_mcp.Prelude.Tests.{nat_eq, nat_eq_iff}

infix 50 ◌==◌
pub record Eq {ℓ} (A : Type ℓ) : Type ℓ where
  pub test : A → A → Bool
  pub test_iff : (a b : A) → (test a b ≡ true) ↔ (a ≡ b)

abbrev pub ◌==◌ {ℓ} : {X : Type ℓ} ⦃class : Eq X⦄ → X → X → Bool
◌==◌ ⦃class⦄ x y = class.test x y

instance abbrev pub ℕ_eq : Eq ℕ
ℕ_eq = record { test = nat_eq; test_iff = nat_eq_iff }

instance abbrev pub String_eq : Eq String
String_eq = record { test = str_eq; test_iff = eq_iff }
