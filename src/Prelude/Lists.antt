-- ===== src/Prelude/Lists.antt =====
-- Lists measured and cut by native numbers, under the library's names.
use Prim.Native.Nat.{ℕ, zero, suc, ◌+◌, ◌-◌, ◌≤◌, min}
use mathlib.Core.Path.{◌≡◌, refl, sym, ap, ◌∙◌}
use mathlib.Core.Logic.{◌⊎◌, ◌↔◌, inl, inr}
use mathlib.Core.Bool.{Bool, true, false}
use bqemulator.Prelude.Tests.{if◌then◌else◌, Bool-cases}
use mathlib.Core.List.{List, [], ◌∷◌, ◌++◌, append-nil, append_assoc}
use native.Mathlib.Nat.{zero-add, suc-add}
use native.Mathlib.Omega.{arith}

module _ {ℓ} {A : Type ℓ} where
  abbrev pub length : List A → ℕ
  length [] = 0
  length (x ∷ xs) = suc (length xs)

  abbrev pub take : ℕ → List A → List A
  take zero xs = []
  take (suc n) [] = []
  take (suc n) (x ∷ xs) = x ∷ take n xs

  abbrev pub drop : ℕ → List A → List A
  drop zero xs = xs
  drop (suc n) [] = []
  drop (suc n) (x ∷ xs) = drop n xs

  abbrev pub concat : List (List A) → List A
  concat [] = []
  concat (xs ∷ xss) = xs ++ concat xss

  abbrev pub All {κ} : (A → Type κ) → List A → Type κ
  All P [] = Unit
  All P (x ∷ xs) = P x × All P xs

module _ {A : Type 0} where
  -- The element is in the list; one proof for each place.
  abbrev pub Member : A → List A → Type 0
  Member a [] = ⊥
  Member a (x ∷ xs) = (a ≡ x) ⊎ Member a xs

module _ {ℓ} {A : Type ℓ} where
  pub length-append : (xs ys : List A) → length (xs ++ ys) ≡ length xs + length ys
  length-append [] ys = omega arith
  length-append (x ∷ xs) ys = omega (arith, length-append xs ys)

  pub length-take : (n : ℕ) (xs : List A) → length (take n xs) ≡ min n (length xs)
  length-take zero xs = omega arith
  length-take (suc n) [] = omega arith
  length-take (suc n) (x ∷ xs) = omega (arith, length-take n xs)

  pub take-append-take-drop :
      (m n : ℕ) (xs : List A) → take m xs ++ take n (drop m xs) ≡ take (m + n) xs
  take-append-take-drop zero n xs = rw zero-add
  take-append-take-drop (suc m) zero [] = rw suc-add refl
  take-append-take-drop (suc m) (suc n) [] = simp suc-add
  take-append-take-drop (suc m) n (x ∷ xs) =
      rw suc-add (ap (λ t. x ∷ t) (take-append-take-drop m n xs))

  pub length-drop : (n : ℕ) (xs : List A) → length (drop n xs) ≡ length xs - n
  length-drop zero xs = omega arith
  length-drop (suc n) [] = omega arith
  length-drop (suc n) (x ∷ xs) = omega (arith, length-drop n xs)

  pub drop-drop : (m n : ℕ) (xs : List A) → drop m (drop n xs) ≡ drop (n + m) xs
  drop-drop m zero xs = ap (λ k. drop k xs) (omega arith)
  drop-drop zero (suc n) [] = rw suc-add refl
  drop-drop (suc m) (suc n) [] = rw suc-add refl
  drop-drop m (suc n) (x ∷ xs) = rw suc-add (drop-drop m n xs)

  pub take-append-drop : (n : ℕ) (xs : List A) → take n xs ++ drop n xs ≡ xs
  take-append-drop zero xs = refl
  take-append-drop (suc n) [] = refl
  take-append-drop (suc n) (x ∷ xs) = ap (λ t. x ∷ t) (take-append-drop n xs)

  -- A prefix is not changed by what is appended behind it.
  pub take-append_le : (n : ℕ) (xs ys : List A) → n ≤ length xs → take n (xs ++ ys) ≡ take n xs
  take-append_le zero xs ys h = refl
  take-append_le (suc n) [] ys h = elim h [ ]
  take-append_le (suc n) (x ∷ xs) ys h = ap (λ t. x ∷ t) (take-append_le n xs ys (omega arith))

  pub take-length : (xs : List A) → take (length xs) xs ≡ xs
  take-length [] = refl
  take-length (x ∷ xs) = ap (λ t. x ∷ t) (take-length xs)

  pub concat-append :
      (xss : List (List A)) (ys : List A) → concat (xss ++ ys ∷ []) ≡ concat xss ++ ys
  concat-append [] ys = append-nil ys
  concat-append (xs ∷ xss) ys = rw (concat-append xss ys) (sym (append_assoc xs (concat xss) ys))

module _ {A : Type 0} (p : A → Bool) where
  -- [x for x in xs if p(x)]
  unfoldable pub select : List A → List A
  select [] = []
  select (x ∷ xs) = let rest = select xs in if p x then x ∷ rest else rest

  pub Member-select : (a : A) (xs : List A) → Member a (select xs) ↔ (Member a xs × (p a ≡ true))
  unfolding select
  Member-select a [] = ((λ m. elim m [ ]), (λ m. elim (m.0) [ ]))
  Member-select a (x ∷ xs) = elim (Bool-cases (p x)) [
    | inl e ↦ rw e (
      (λ m. elim m [
        | inl same ↦ (inl same, ap p same ∙ e)
        | inr n ↦ (inr ((Member-select a xs).0 n).0, ((Member-select a xs).0 n).1)
      ]),
      (λ m. elim (m.0) [ inl same ↦ inl same | inr n ↦ inr ((Member-select a xs).1 (n, m.1)) ]),
    )
    | inr e ↦ rw e (
      (λ m. (inr ((Member-select a xs).0 m).0, ((Member-select a xs).0 m).1)),
      (λ m. elim (m.0) [
        | inl same ↦ absurd (no_both (sym (ap p same) ∙ (m.1)) e)
        | inr n ↦ (Member-select a xs).1 (n, m.1)
      ]),
    )
  ]
    where
      no_both : {b : Bool} → b ≡ true → b ≡ false → ⊥
      no_both h k = cc
