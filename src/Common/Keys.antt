-- ===== src/Common/Keys.antt =====
-- Equality of keys, as an interface: a Boolean test that decides equality.
use Prim.Native.Nat.{ℕ}
use mathlib.Core.Path.{◌≡◌, refl, sym, ap, ◌∙◌}
use mathlib.Core.Logic.{◌↔◌}
use mathlib.Core.Bool.{Bool, true, false, ◌&&◌}
use mathlib.Core.Option.{Option, none, some}
use mathlib.Core.List.{List, [], ◌∷◌}
use native.Mathlib.Omega.{arith}
use weather_app.Common.Tests.{eqb, eqb_iff}

-- A type of keys: what a HashMap asks of its keys by `Eq`.
pub record Key {κ} (K : Type κ) : Type κ where
  pub same : K → K → Bool
  pub same_iff : (j k : K) → (same j k ≡ true) ↔ (j ≡ k)

instance abbrev pub nat_eq : Key ℕ
nat_eq = record { same = eqb; same_iff = eqb_iff }

abbrev pub ◌==◌ {κ} : {K : Type κ} ⦃key : Key K⦄ → K → K → Bool
◌==◌ ⦃key⦄ = key.same

infix 50 ◌==◌
module _ {ℓ} {A : Type ℓ} ⦃e : Key A⦄ where
  pub ==_iff : (a b : A) → ((a == b) ≡ true) ↔ (a ≡ b)
  ==_iff a b = e.same_iff a b

  pub ==_refl : (a : A) → (a == a) ≡ true
  ==_refl a = (e.same_iff a a).1 refl

module _ {ℓ} {A : Type ℓ} ⦃e : Key A⦄ where
  abbrev pub list_beq : List A → List A → Bool
  list_beq [] [] = true
  list_beq [] (y ∷ ys) = false
  list_beq (x ∷ xs) [] = false
  list_beq (x ∷ xs) (y ∷ ys) = x == y && list_beq xs ys

  pub list_beq_iff : (xs ys : List A) → (list_beq xs ys ≡ true) ↔ (xs ≡ ys)
  list_beq_iff [] [] = (λ h. refl, λ h. refl)
  list_beq_iff [] (y ∷ ys) = (λ h. cc, λ h. cc)
  list_beq_iff (x ∷ xs) [] = (λ h. cc, λ h. cc)
  list_beq_iff (x ∷ xs) (y ∷ ys) = ground (arith, e.same_iff x y, list_beq_iff xs ys)

  instance abbrev pub list_eq : Key (List A)
  list_eq = record { same = list_beq; same_iff = list_beq_iff }

module _ {ℓ κ} {A : Type ℓ} {B : Type κ} ⦃d : Key A⦄ ⦃e : Key B⦄ where
  abbrev pub pair_beq : A × B → A × B → Bool
  pair_beq (a, b) (a', b') = d.same a a' && e.same b b'

  pub pair_beq_iff : (p q : A × B) → (pair_beq p q ≡ true) ↔ (p ≡ q)
  pair_beq_iff (a, b) (a', b') = ground (arith, d.same_iff a a', e.same_iff b b')

  instance abbrev pub pair_eq : Key (A × B)
  pair_eq = record { same = pair_beq; same_iff = pair_beq_iff }

abbrev pub bool_same : Bool → Bool → Bool
bool_same true b = b
bool_same false true = false
bool_same false false = true

pub bool_same_iff : (a b : Bool) → (bool_same a b ≡ true) ↔ (a ≡ b)
bool_same_iff a b = ground arith

instance abbrev pub bool_eq : Key Bool
bool_eq = record { same = bool_same; same_iff = bool_same_iff }

module _ {ℓ} {A : Type ℓ} ⦃e : Key A⦄ where
  abbrev pub option_same : Option A → Option A → Bool
  option_same none none = true
  option_same none (some b) = false
  option_same (some a) none = false
  option_same (some a) (some b) = e.same a b

  pub option_same_iff : (a b : Option A) → (option_same a b ≡ true) ↔ (a ≡ b)
  option_same_iff none none = (λ h. refl, λ h. refl)
  option_same_iff none (some b) = (λ h. cc, λ h. cc)
  option_same_iff (some a) none = (λ h. cc, λ h. cc)
  option_same_iff (some a) (some b) = ground (arith, e.same_iff a b)

  instance abbrev pub option_eq : Key (Option A)
  option_eq = record { same = option_same; same_iff = option_same_iff }

-- The derived equality of a record: that of its fields.
module _ {ℓ κ} {A : Type ℓ} {B : Type κ} ⦃e : Key B⦄ where
  abbrev pub key_by : (fields : A → B) (build : B → A) → ((a : A) → build (fields a) ≡ a) → Key A
  key_by fields build back = record {
    same = λ a b. e.same (fields a) (fields b);
    same_iff = λ a b. (
      λ h. sym (back a) ∙ ap build ((e.same_iff (fields a) (fields b)).0 h) ∙ back b,
      λ h. (e.same_iff (fields a) (fields b)).1 (ap fields h),
    );
  }
