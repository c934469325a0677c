-- ===== src/Base/Keys.antt =====
-- Keys that can be compared: the `==` of the source on identifiers.
use Prim.Native.Nat.{ℕ}
use Prim.Native.String.{String}
use mathlib.Core.Path.{◌≡◌, refl}
use mathlib.Core.Logic.{◌↔◌}
use mathlib.Core.Bool.{Bool, true, ◌&&◌}
use text.Mathlib.Text.{◌==◌ as str_eq}
use text.Mathlib.TextEquality.{eq_iff}
use native.Mathlib.Omega.{arith}
use core_engine_ge_m.Base.Tests.{nat_beq, nat_beq_iff}

pub record Equality {ℓ} (A : Type ℓ) : Type ℓ where
  pub equals : A → A → Bool
  pub equals_iff : (x y : A) → (equals x y ≡ true) ↔ (x ≡ y)

infix 50 ◌==◌
abbrev pub ◌==◌ {ℓ} : {A : Type ℓ} ⦃e : Equality A⦄ → A → A → Bool
◌==◌ ⦃e⦄ = e.equals

pub ==-self {ℓ} : {A : Type ℓ} ⦃e : Equality A⦄ (a : A) → (a == a) ≡ true
==-self ⦃e⦄ a = (e.equals_iff a a).1 refl

pub ==-eq {ℓ} : {A : Type ℓ} ⦃e : Equality A⦄ (a b : A) → (a == b) ≡ true → a ≡ b
==-eq ⦃e⦄ a b h = (e.equals_iff a b).0 h

instance abbrev pub string_eq : Equality String
string_eq = record { equals = str_eq; equals_iff = eq_iff }

instance abbrev pub nat_eq : Equality ℕ
nat_eq = record { equals = nat_beq; equals_iff = nat_beq_iff }

abbrev pub pair_beq {ℓ κ} :
    {A : Type ℓ} {B : Type κ} ⦃e : Equality A⦄ ⦃f : Equality B⦄ → A × B → A × B → Bool
pair_beq (a, b) (c, d) = a == c && b == d

pub pair_beq_iff {ℓ κ} :
    {A : Type ℓ} {B : Type κ} ⦃e : Equality A⦄ ⦃f : Equality B⦄ (p q : A × B)
    → (pair_beq p q ≡ true) ↔ (p ≡ q)
pair_beq_iff ⦃e⦄ ⦃f⦄ (a, b) (c, d) = ground (arith, e.equals_iff a c, f.equals_iff b d)

instance abbrev pub pair_eq {ℓ κ} :
    {A : Type ℓ} {B : Type κ} ⦃e : Equality A⦄ ⦃f : Equality B⦄ → Equality (A × B)
pair_eq = record { equals = pair_beq; equals_iff = pair_beq_iff }

abbrev pub triple_beq {ℓ κ μ} :
    {A : Type ℓ} {B : Type κ} {C : Type μ} ⦃e : Equality A⦄ ⦃f : Equality B⦄ ⦃g : Equality C⦄
    → A × B × C
    → A × B × C
    → Bool
triple_beq (a, b, c) (i, j, k) = a == i && b == j && c == k

pub triple_beq_iff {ℓ κ μ} :
    {A : Type ℓ} {B : Type κ} {C : Type μ} ⦃e : Equality A⦄ ⦃f : Equality B⦄ ⦃g : Equality C⦄
    (p q : A × B × C)
    → (triple_beq p q ≡ true) ↔ (p ≡ q)
triple_beq_iff ⦃e⦄ ⦃f⦄ ⦃g⦄ (a, b, c) (i, j, k) =
    ground (arith, e.equals_iff a i, f.equals_iff b j, g.equals_iff c k)

instance abbrev pub triple_eq {ℓ κ μ} :
    {A : Type ℓ} {B : Type κ} {C : Type μ} ⦃e : Equality A⦄ ⦃f : Equality B⦄ ⦃g : Equality C⦄
    → Equality (A × B × C)
triple_eq = record { equals = triple_beq; equals_iff = triple_beq_iff }
