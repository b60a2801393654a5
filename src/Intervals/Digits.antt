-- ===== src/Intervals/Digits.antt =====
-- types/interval.py: the fraction of the seconds, padded to six digits and stripped of its zeros.
use bqemulator.Prelude.{
  ℕ, zero, suc, ◌+◌, ◌-◌, ◌*◌, ◌/◌, ◌%◌, ◌≤◌, ◌<◌, ◌≡◌, refl, ap, ◌∙◌, inl, inr, true, false, [],
  ◌∷◌, ◌++◌, length, length-append, arith, nat_eq, nat_eq_iff, ltb, Text, Bool-cases,
}
use bqemulator.Identifiers.{is_digit, all_chars}
use bqemulator.Numerals.{digits_of, to_digits, of_digits, of_digits-to_digits}
use bqemulator.Intervals.Printed.{zeros, six_digits, rstrip_char, rstrip_onto}

-- n * 10 ^ k
shifted : ℕ → ℕ → ℕ
shifted n zero = n
shifted n (suc k) = shifted (n * 10) k

shifted-add : (a b k : ℕ) → shifted (a + b) k ≡ shifted a k + shifted b k
unfolding shifted
shifted-add a b zero = refl
shifted-add a b (suc k) = ap (λ n. shifted n k) (omega arith) ∙ shifted-add (a * 10) (b * 10) k

shifted-zero : (k : ℕ) → shifted 0 k ≡ 0
unfolding shifted
shifted-zero zero = refl
shifted-zero (suc k) = shifted-zero k

of_digits-shift : (a : ℕ) (s : Text) → of_digits a s ≡ shifted a (length s) + of_digits 0 s
unfolding of_digits shifted
of_digits-shift a [] = omega arith
of_digits-shift a (c ∷ s) =
    let d = c - b'0' in
    let step : of_digits (a * 10 + d) s ≡ shifted (a * 10) (length s) + of_digits d s = omega (
      arith,
      of_digits-shift (a * 10 + d) s,
      of_digits-shift d s,
      shifted-add (a * 10) d (length s),
    ) in
    step ∙ ap (λ n. shifted (a * 10) (length s) + of_digits n s) (omega arith)

shifted-ten : (n k : ℕ) → shifted (n * 10) k ≡ shifted n k * 10
unfolding shifted
shifted-ten n zero = refl
shifted-ten n (suc k) = shifted-ten (n * 10) k

pub of_digits-append : (a : ℕ) (s t : Text) → of_digits a (s ++ t) ≡ of_digits (of_digits a s) t
unfolding of_digits
of_digits-append a [] t = refl
of_digits-append a (c ∷ s) t = of_digits-append (a * 10 + (c - b'0')) s t

of_digits-zeros : (k : ℕ) (s : Text) → of_digits 0 (zeros k ++ s) ≡ of_digits 0 s
unfolding of_digits
of_digits-zeros zero s = refl
of_digits-zeros (suc k) s = of_digits-zeros k s

pub le-of_digits : (a k : ℕ) → a ≤ of_digits a (zeros k)
unfolding of_digits
le-of_digits a zero = omega arith
le-of_digits a (suc k) = omega (arith, le-of_digits (a * 10 + (b'0' - b'0')) k)

length-digits_of : (f n k : ℕ) → n < shifted 1 (suc k) → length (digits_of f n) ≤ suc k
unfolding digits_of shifted
length-digits_of zero n k h = omega arith
length-digits_of (suc f) n k h = elim (Bool-cases (ltb n 10)) [
  | inl e ↦ rw e (omega arith)
  | inr e ↦ rw e (long (length-digits_of f (n / 10)) k h e)
]
  where
    long :
        ((k : ℕ) → n / 10 < shifted 1 (suc k) → length (digits_of f (n / 10)) ≤ suc k)
        → (k : ℕ) → n < shifted 1 (suc k)
        → ltb n 10 ≡ false
        → length (digits_of f (n / 10) ++ (b'0' + n % 10) ∷ []) ≤ suc k
    long ih zero h e = absurd (ground (arith, h, e))
    long ih (suc k) h e =
        let smaller : n / 10 < shifted 1 (suc k) = ground (arith, h, e, shifted-ten (1 * 10) k) in
        omega (arith, length-append (digits_of f (n / 10)) ((b'0' + n % 10) ∷ []), ih k smaller)

pub length-zeros : (k : ℕ) → length (zeros k) ≡ k
length-zeros zero = refl
length-zeros (suc k) = ap suc (length-zeros k)

-- The six digits of a number of microseconds.
pub length-six_digits : (micro : ℕ) → micro < 1000000 → length (six_digits micro) ≡ 6
unfolding to_digits shifted
length-six_digits micro h =
    let short = length-digits_of (suc micro) micro 5 h in
    omega (
      arith,
      length-append (zeros (6 - length (to_digits micro))) (to_digits micro),
      length-zeros (6 - length (to_digits micro)),
      short,
    )

pub of_digits-six_digits :
    (a micro : ℕ) → micro < 1000000 → of_digits a (six_digits micro) ≡ a * 1000000 + micro
unfolding shifted
of_digits-six_digits a micro h =
    let shift = of_digits-shift a (six_digits micro) in
    let value =
      of_digits-zeros (6 - length (to_digits micro)) (to_digits micro)
      ∙ of_digits-to_digits micro in
    let six : shifted a (length (six_digits micro)) ≡ a * 1000000 =
      ap (shifted a) (length-six_digits micro h) ∙ omega arith in
    omega (arith, shift, value, six)

rstrip_onto-zeros :
    (c : ℕ) (t : Text) (k : ℕ) → (j : ℕ) × (c ∷ (t ++ zeros k) ≡ rstrip_onto b'0' c t ++ zeros j)
rstrip_onto-zeros c [] k = elim (Bool-cases (nat_eq c b'0')) [
  | inl e ↦ rw e (suc k, ap (λ d. d ∷ zeros k) ((nat_eq_iff c b'0').0 e))
  | inr e ↦ rw e (k, refl)
]
rstrip_onto-zeros c (d ∷ t) k = (k, refl)

-- What is stripped are zeros.
pub rstrip_char-zeros : (s : Text) → (k : ℕ) × (s ≡ rstrip_char b'0' s ++ zeros k)
unfolding rstrip_char
rstrip_char-zeros [] = (0, refl)
rstrip_char-zeros (c ∷ s) =
    let (k, e) = rstrip_char-zeros s in
    let (j, e') = rstrip_onto-zeros c (rstrip_char b'0' s) k in (j, ap (λ t. c ∷ t) e ∙ e')

-- A character that does not go keeps what is in front of it.
pub rstrip_char-keep :
    (sep d : ℕ) (s t : Text)
    → nat_eq d sep ≡ false
    → rstrip_char sep (s ++ d ∷ t) ≡ s ++ d ∷ rstrip_char sep t
unfolding rstrip_char
rstrip_char-keep sep d [] [] h = rw h refl
rstrip_char-keep sep d [] (c ∷ t) h = kept (rstrip_char sep (c ∷ t))
  where
    kept : (u : Text) → rstrip_onto sep d u ≡ d ∷ u
    kept [] = rw h refl
    kept (c ∷ u) = refl
rstrip_char-keep sep d (c ∷ s) t h = ap (rstrip_onto sep c) (rstrip_char-keep sep d s t h) ∙ kept s
  where
    kept :
        (s : Text)
        → rstrip_onto sep c (s ++ d ∷ rstrip_char sep t) ≡ c ∷ (s ++ d ∷ rstrip_char sep t)
    kept [] = refl
    kept (e ∷ s) = refl

-- Digits do not go with the points.
pub rstrip_char-digits :
    (sep : ℕ) (s : Text)
    → is_digit sep ≡ false
    → all_chars is_digit s ≡ true
    → rstrip_char sep s ≡ s
unfolding rstrip_char all_chars
rstrip_char-digits sep [] h k = refl
rstrip_char-digits sep (c ∷ s) h k =
    ap (rstrip_onto sep c) (rstrip_char-digits sep s h (ground arith)) ∙ kept s
  where
    other : nat_eq c sep ≡ false
    other = ground (arith, h, k, nat_eq_iff c sep)

    kept : (s : Text) → rstrip_onto sep c s ≡ c ∷ s
    kept [] = rw other refl
    kept (d ∷ s) = refl
