-- ===== src/Intervals/Seconds.antt =====
-- types/interval.py: the seconds that are printed are read back to the microsecond.
use bqemulator.Prelude.{
  ℕ, zero, suc, ◌+◌, ◌-◌, ◌*◌, ◌/◌, ◌≤◌, ◌<◌, ◌≡◌, ◌≢◌, refl, sym, ap, ◌∙◌, inl, inr, Bool, true,
  false, some, [], ◌∷◌, ◌++◌, length, length-append, arith, nat_eq, nat_eq_iff, Text, Bool-cases,
  append_assoc, append-nil, pos,
}
use mathlib.Core.Path.{subst}
use bqemulator.Identifiers.{is_digit, all_chars}
use bqemulator.Numerals.{
  digits_of, to_digits, of_digits, of_digits-to_digits, is_digit-to_digits, to_digits-ne-nil,
  all_chars-append,
}
use bqemulator.RowAccess.Strings.{Lacks, cut-append, cut-Lacks}
use bqemulator.Intervals.{Numbers, is_number}
use bqemulator.Intervals.Literals.{int_of, decimal_of, decimal_parts}
use bqemulator.Intervals.Printed.{zeros, six_digits, rstrip_char, rstrip_onto, seconds_text}
use bqemulator.Intervals.Digits.{
  of_digits-append, length-six_digits, of_digits-six_digits, rstrip_char-zeros, rstrip_char-keep,
  rstrip_char-digits, length-zeros,
}

abbrev pub Digits : Text → Type 0
Digits s = all_chars is_digit s ≡ true

pub Digits-Lacks : (c : ℕ) (s : Text) → is_digit c ≡ false → Digits s → Lacks c s
unfolding all_chars
Digits-Lacks c [] h k = refl
Digits-Lacks c (d ∷ s) h k = ground (arith, Digits-Lacks c s, nat_eq_iff d c)

pub Digits-number : (s : Text) → s ≢ [] → Digits s → is_number s ≡ true
Digits-number [] n h = absurd (n refl)
Digits-number (c ∷ s) n h = h

pub to_digits-number : (n : ℕ) → is_number (to_digits n) ≡ true
to_digits-number n = Digits-number (to_digits n) (to_digits-ne-nil n) (is_digit-to_digits n)

Digits-prefix : (s t : Text) → Digits (s ++ t) → Digits s
unfolding all_chars
Digits-prefix [] t h = refl
Digits-prefix (c ∷ s) t h = ground (arith, Digits-prefix s t)

zeros-Digits : (k : ℕ) → Digits (zeros k)
unfolding all_chars
zeros-Digits zero = refl
zeros-Digits (suc k) = zeros-Digits k

six_digits-Digits : (n : ℕ) → Digits (six_digits n)
six_digits-Digits n =
    all_chars-append is_digit (zeros (6 - length (to_digits n))) (to_digits n)
      (zeros-Digits (6 - length (to_digits n))) (is_digit-to_digits n)

six_zeros : six_digits 0 ≡ [] ++ zeros 6
unfolding to_digits digits_of
six_zeros = refl

-- A point at the end goes, and nothing in front of it.
rstrip_char-point : (s : Text) → Digits s → rstrip_char b'.' (s ++ b'.' ∷ []) ≡ s
unfolding rstrip_char all_chars
rstrip_char-point [] h = refl
rstrip_char-point (c ∷ s) h = ap (rstrip_onto b'.' c) (rstrip_char-point s (ground arith)) ∙ kept s
  where
    other : nat_eq c b'.' ≡ false
    other = ground (arith, h, nat_eq_iff c b'.')

    kept : (s : Text) → rstrip_onto b'.' c s ≡ c ∷ s
    kept [] = rw other refl
    kept (d ∷ s) = refl

-- The whole seconds with the places that are left, or without a point if there are none.
abbrev pub pointed : Text → Text → Text
pointed s [] = s
pointed s (c ∷ g) = s ++ b'.' ∷ c ∷ g

rstrip-pointed : (s g : Text) → Digits s → Digits g → rstrip_char b'.' (s ++ b'.' ∷ g) ≡ pointed s g
unfolding all_chars
rstrip-pointed s [] h k = rstrip_char-point s h
rstrip-pointed s (c ∷ g) h k =
    ap (rstrip_char b'.') (sym (append_assoc s (b'.' ∷ []) (c ∷ g)))
    ∙ rstrip_char-keep b'.' c (s ++ b'.' ∷ []) g (ground (arith, k, nat_eq_iff c b'.'))
    ∙ ap (λ t. (s ++ b'.' ∷ []) ++ c ∷ t) (rstrip_char-digits b'.' g refl (ground arith))
    ∙ append_assoc s (b'.' ∷ []) (c ∷ g)

module _ (N : Numbers) where
  open N use {plain}

  decimal_of-pointed :
      (s g : Text)
      → is_number s ≡ true
      → Digits s
      → Digits g
      → decimal_of N (pointed s g) ≡ some (plain false (of_digits 0 (s ++ g)) (length g))
  unfolding decimal_of decimal_parts
  decimal_of-pointed s [] n h k =
      rw (cut-Lacks b'.' s (Digits-Lacks b'.' s refl h), n, append-nil s) refl
  decimal_of-pointed s (c ∷ g) n h k =
      rw (cut-append b'.' s (c ∷ g) (Digits-Lacks b'.' s refl h), n, k) refl

  -- With the zeros that were stripped behind them, the digits of the seconds and of `g` are those of
  -- the microseconds.
  padded :
      (s micro k : ℕ) (g : Text)
      → micro < 1000000
      → six_digits micro ≡ g ++ zeros k
      → (length g ≤ 6)
        × (of_digits (of_digits 0 (to_digits s ++ g)) (zeros (6 - length g)) ≡ s * 1000000 + micro)
  padded s micro k g h e =
      let all : 6 ≡ length g + k =
        sym (length-six_digits micro h)
        ∙ ap length e
        ∙ length-append g (zeros k)
        ∙ ap (λ n. length g + n) (length-zeros k) in
      let left : 6 - length g ≡ k = omega (arith, all) in
      (
        omega (arith, all),
        ap (λ n. of_digits (of_digits 0 (to_digits s ++ g)) (zeros n)) left
            ∙ ap (λ n. of_digits n (zeros k))
                (of_digits-append 0 (to_digits s) g
                  ∙ ap (λ n. of_digits n g) (of_digits-to_digits s))
            ∙ sym (of_digits-append s g (zeros k))
            ∙ ap (of_digits s) (sym e)
            ∙ of_digits-six_digits s micro h,
      )

  -- The printed seconds as a decimal: to the microsecond, they are the seconds and the fraction.
  pub decimal_of-seconds_text :
      (s frac_nanos : ℕ)
      → frac_nanos < 1000000000
      → (c : ℕ) × (places : ℕ) × (decimal_of N (seconds_text s frac_nanos)
          ≡ some (plain false c places))
        × (places ≤ 6)
        × (of_digits c (zeros (6 - places)) ≡ s * 1000000 + frac_nanos / 1000)
  unfolding seconds_text all_chars
  decimal_of-seconds_text s frac_nanos h = elim (Bool-cases (nat_eq frac_nanos 0)) [
    | inl e ↦
        let nothing : frac_nanos / 1000 ≡ 0 = ground (arith, e) in
        let (few, value) = padded s 0 6 [] (omega arith) six_zeros in
        (
          of_digits 0 (to_digits s ++ []),
          0,
          rw e (
              decimal_of-pointed (to_digits s) [] (to_digits-number s) (is_digit-to_digits s) refl),
          omega arith,
          value ∙ ap (λ n. s * 1000000 + n) (sym nothing),
        )
    | inr e ↦
        let micro = frac_nanos / 1000 in
        let g = rstrip_char b'0' (six_digits micro) in
        let (k, stripped) = rstrip_char-zeros (six_digits micro) in
        let (few, value) = padded s micro k g (omega (arith, h)) stripped in
        let digits : Digits g =
          Digits-prefix g (zeros k) (subst Digits stripped (six_digits-Digits micro)) in
        (
          of_digits 0 (to_digits s ++ g),
          length g,
          rw (e, rstrip_char-keep b'0' b'.' (to_digits s) (six_digits micro) refl)
              (ap (decimal_of N) (rstrip-pointed (to_digits s) g (is_digit-to_digits s) digits)
                ∙ decimal_of-pointed (to_digits s) g (to_digits-number s) (is_digit-to_digits s)
                    digits),
          few,
          value,
        )
  ]

  pub int_of-to_digits : (n : ℕ) → int_of N (to_digits n) ≡ some (pos n)
  unfolding int_of
  int_of-to_digits n =
      go (to_digits n) (to_digits-number n) ∙ ap (λ m. some (pos m)) (of_digits-to_digits n)
    where
      go : (s : Text) → is_number s ≡ true → int_of N s ≡ some (pos (of_digits 0 s))
      go [] h = cc
      go (c ∷ s) h = rw h refl

seconds_text-pointed :
    (s frac_nanos : ℕ)
    → (g : Text) × (seconds_text s frac_nanos ≡ pointed (to_digits s) g) × Digits g
unfolding seconds_text all_chars
seconds_text-pointed s frac_nanos = elim (Bool-cases (nat_eq frac_nanos 0)) [
  | inl e ↦ ([], rw e refl, refl)
  | inr e ↦
      let micro = frac_nanos / 1000 in
      let g = rstrip_char b'0' (six_digits micro) in
      let (k, stripped) = rstrip_char-zeros (six_digits micro) in
      let digits : Digits g =
        Digits-prefix g (zeros k) (subst Digits stripped (six_digits-Digits micro)) in
      (
        g,
        rw (e, rstrip_char-keep b'0' b'.' (to_digits s) (six_digits micro) refl)
            (rstrip-pointed (to_digits s) g (is_digit-to_digits s) digits),
        digits,
      )
]

all_chars-Digits :
    (p : ℕ → Bool) (s : Text)
    → ((c : ℕ) → is_digit c ≡ true → p c ≡ true)
    → Digits s
    → all_chars p s ≡ true
unfolding all_chars
all_chars-Digits p [] digit h = refl
all_chars-Digits p (c ∷ s) digit h =
    let first : p c ≡ true = digit c (ground arith) in
    rw first (all_chars-Digits p s digit (ground arith))

pub all_chars-to_digits :
    (p : ℕ → Bool) (n : ℕ)
    → ((c : ℕ) → is_digit c ≡ true → p c ≡ true)
    → all_chars p (to_digits n) ≡ true
all_chars-to_digits p n digit = all_chars-Digits p (to_digits n) digit (is_digit-to_digits n)

all_chars-pointed :
    (p : ℕ → Bool) (s g : Text)
    → p b'.' ≡ true
    → all_chars p s ≡ true
    → all_chars p g ≡ true
    → all_chars p (pointed s g) ≡ true
unfolding all_chars
all_chars-pointed p s [] point h k = h
all_chars-pointed p s (c ∷ g) point h k = all_chars-append p s (b'.' ∷ c ∷ g) h (rw point k)

-- The printed seconds are digits and points.
pub seconds_text-chars :
    (p : ℕ → Bool) (s frac_nanos : ℕ)
    → ((c : ℕ) → is_digit c ≡ true → p c ≡ true)
    → p b'.' ≡ true
    → all_chars p (seconds_text s frac_nanos) ≡ true
seconds_text-chars p s frac_nanos digit point =
    let (g, e, digits) = seconds_text-pointed s frac_nanos in
    rw e (
      all_chars-pointed p (to_digits s) g point (all_chars-to_digits p s digit)
        (all_chars-Digits p g digit digits))
