-- ===== src/Base/Eq.antt =====
-- Types with a Boolean equality, as an interface: numbers, pairs and options of such.
use Prim.Native.Nat.{ℕ}
use mathlib.Core.Path.{◌≡◌}
use mathlib.Core.Logic.{◌↔◌}
use mathlib.Core.Bool.{Bool, true, false, ◌&&◌}
use mathlib.Core.Option.{Option, none, some}
use native.Mathlib.Omega.{arith}
use bacnet_profile_example_b.Base.Tests.{◌==◌, ==_iff}

pub record Eq {ℓ} (A : Type ℓ) : Type ℓ where
  pub beq : A → A → Bool
  pub beq_iff : (a b : A) → (beq a b ≡ true) ↔ (a ≡ b)

instance abbrev pub nat_eq : Eq ℕ
nat_eq = record { beq = ◌==◌; beq_iff = ==_iff }

abbrev pub pair_beq {ℓ κ} : {A : Type ℓ} {B : Type κ} → Eq A → Eq B → A × B → A × B → Bool
pair_beq e f (a, b) (c, d) = e.beq a c && f.beq b d

pub pair_beq_iff {ℓ κ} :
    {A : Type ℓ} {B : Type κ} (e : Eq A) (f : Eq B) (p q : A × B)
    → (pair_beq e f p q ≡ true) ↔ (p ≡ q)
pair_beq_iff e f (a, b) (c, d) = ground (arith, e.beq_iff a c, f.beq_iff b d)

instance abbrev pub pair_eq {ℓ κ} : {A : Type ℓ} {B : Type κ} ⦃e : Eq A⦄ ⦃f : Eq B⦄ → Eq (A × B)
pair_eq ⦃e⦄ ⦃f⦄ = record { beq = pair_beq e f; beq_iff = pair_beq_iff e f }

abbrev pub option_beq {ℓ} : {A : Type ℓ} → Eq A → Option A → Option A → Bool
option_beq e none none = true
option_beq e (some a) (some b) = e.beq a b
option_beq e _ _ = false

pub option_beq_iff {ℓ} :
    {A : Type ℓ} (e : Eq A) (p q : Option A) → (option_beq e p q ≡ true) ↔ (p ≡ q)
option_beq_iff e none none = ground arith
option_beq_iff e (some a) (some b) = ground (arith, e.beq_iff a b)
option_beq_iff e none (some b) = ground arith
option_beq_iff e (some a) none = ground arith

instance abbrev pub option_eq {ℓ} : {A : Type ℓ} ⦃e : Eq A⦄ → Eq (Option A)
option_eq ⦃e⦄ = record { beq = option_beq e; beq_iff = option_beq_iff e }
