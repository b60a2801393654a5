-- ===== src/Prelude/Classes.antt =====
-- Equality tests as instances: numbers, text, and pairs of such.
use Prim.Native.Nat.{ℕ}
use Prim.Native.Char.{code}
use Prim.Native.String.{String}
use mathlib.Core.Path.{◌≡◌, refl}
use mathlib.Core.Logic.{◌↔◌, ◌≢◌, inl, inr}
use mathlib.Core.Bool.{Bool, true, false, ◌&&◌}
use mathlib.Core.List.{List, [], ◌∷◌}
use native.Mathlib.Omega.{arith}
use bqemulator.Prelude.Tests.{Bool-cases, nat_eq, nat_eq_iff}

-- A type with a test that decides its equality.
pub record Eq {ℓ} (T : Type ℓ) : Type ℓ where
  pub same : T → T → Bool
  pub same_iff : (x y : T) → (same x y ≡ true) ↔ (x ≡ y)

infix 50 ◌==◌
abbrev pub ◌==◌ {ℓ} : {T : Type ℓ} ⦃q : Eq T⦄ → T → T → Bool
◌==◌ ⦃q⦄ x y = q.same x y

module _ {ℓ} {T : Type ℓ} ⦃q : Eq T⦄ where
  pub ==_iff : (x y : T) → ((x == y) ≡ true) ↔ (x ≡ y)
  ==_iff x y = q.same_iff x y

  pub ==_refl : (x : T) → (x == x) ≡ true
  ==_refl x = (q.same_iff x x).1 refl

  pub ne_of_different : (x y : T) → (x == y) ≡ false → x ≢ y
  ne_of_different x y h p = cc (h, (==_iff x y).1 p)

  pub different_of_ne : (x y : T) → x ≢ y → (x == y) ≡ false
  different_of_ne x y h = elim (Bool-cases (x == y)) [
    | inl same ↦ absurd (h ((==_iff x y).0 same))
    | inr other ↦ other
  ]

instance abbrev pub ℕ_eq : Eq ℕ
ℕ_eq = record { same = nat_eq; same_iff = nat_eq_iff }

-- Text as a list of code points.
abbrev pub Text : Type 0
Text = List ℕ

abbrev pub text : String → Text
text String.[] = []
text (String.◌∷◌ c s) = code c ∷ text s

module _ {ℓ} {A : Type ℓ} ⦃e : Eq A⦄ where
  unfoldable pub list_beq : List A → List A → Bool
  list_beq [] [] = true
  list_beq (x ∷ xs) (y ∷ ys) = x == y && list_beq xs ys
  list_beq _ _ = false

  pub list_beq_iff : (xs ys : List A) → (list_beq xs ys ≡ true) ↔ (xs ≡ ys)
  unfolding list_beq
  list_beq_iff [] [] = ground arith
  list_beq_iff [] (y ∷ ys) = ground arith
  list_beq_iff (x ∷ xs) [] = ground arith
  list_beq_iff (x ∷ xs) (y ∷ ys) = ground (arith, ==_iff x y, list_beq_iff xs ys)

instance abbrev pub text_eq : Eq Text
text_eq = record { same = list_beq; same_iff = list_beq_iff }

module _ {ℓ κ} {A : Type ℓ} {B : Type κ} ⦃e : Eq A⦄ ⦃f : Eq B⦄ where
  unfoldable pub pair_beq : A × B → A × B → Bool
  pair_beq p q = p.0 == q.0 && p.1 == q.1

  pub pair_beq_iff : (p q : A × B) → (pair_beq p q ≡ true) ↔ (p ≡ q)
  unfolding pair_beq
  pair_beq_iff p q = ground (arith, ==_iff p.0 q.0, ==_iff p.1 q.1)

  instance abbrev pub pair_eq : Eq (A × B)
  pair_eq = record { same = pair_beq; same_iff = pair_beq_iff }

module _ {ℓ κ μ} {A : Type ℓ} {B : Type κ} {C : Type μ} ⦃e : Eq A⦄ ⦃f : Eq B⦄ ⦃g : Eq C⦄ where
  unfoldable pub triple_beq : A × B × C → A × B × C → Bool
  triple_beq p q = p.0 == q.0 && (p.1 == q.1 && p.2 == q.2)

  pub triple_beq_iff : (p q : A × B × C) → (triple_beq p q ≡ true) ↔ (p ≡ q)
  unfolding triple_beq
  triple_beq_iff p q = ground (arith, ==_iff p.0 q.0, ==_iff p.1 q.1, ==_iff p.2 q.2)

  instance abbrev pub triple_eq : Eq (A × B × C)
  triple_eq = record { same = triple_beq; same_iff = triple_beq_iff }

module _ {ℓ} {A : Type ℓ} {B : Type ℓ} {C : Type ℓ} {D : Type ℓ} ⦃e : Eq A⦄ ⦃f : Eq B⦄ ⦃g : Eq C⦄
    ⦃h : Eq D⦄ where
  unfoldable pub quadruple_beq : A × B × C × D → A × B × C × D → Bool
  quadruple_beq p q = p.0 == q.0 && (p.1 == q.1 && (p.2 == q.2 && p.3 == q.3))

  pub quadruple_beq_iff : (p q : A × B × C × D) → (quadruple_beq p q ≡ true) ↔ (p ≡ q)
  unfolding quadruple_beq
  quadruple_beq_iff p q =
      ground (arith, ==_iff p.0 q.0, ==_iff p.1 q.1, ==_iff p.2 q.2, ==_iff p.3 q.3)

  instance abbrev pub quadruple_eq : Eq (A × B × C × D)
  quadruple_eq = record { same = quadruple_beq; same_iff = quadruple_beq_iff }
