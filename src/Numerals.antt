-- ===== src/Numerals.antt =====
-- Python's str(n) and int(s) for numbers that are not negative, in ASCII digits.
use bqemulator.Prelude.{
  ℕ, zero, suc, ◌+◌, ◌-◌, ◌*◌, ◌/◌, ◌%◌, ◌<◌, ◌≡◌, refl, ap, Bool, true, false, [], ◌∷◌, ◌++◌,
  append_assoc, arith, ltb, if◌then◌else◌, Text, append-nil, Bool-cases, inl, inr, ◌≢◌,
}
use bqemulator.Identifiers.{is_digit, all_chars}

-- The digits of `n`, for a fuel above it.
unfoldable pub digits_of : ℕ → ℕ → Text
digits_of zero n = []
digits_of (suc f) n =
    let more = digits_of f (n / 10) ++ (b'0' + n % 10) ∷ [] in
    if ltb n 10 then (b'0' + n) ∷ [] else more

-- str(n)
unfoldable pub to_digits : ℕ → Text
unfolding digits_of
to_digits n = digits_of (suc n) n

-- int(s) behind the digits read so far, where `s` is digits.
unfoldable pub of_digits : ℕ → Text → ℕ
of_digits n [] = n
of_digits n (c ∷ s) = of_digits (n * 10 + (c - b'0')) s

-- The longest prefix of digits, and the rest.
unfoldable pub span_digits : Text → Text × Text
span_digits [] = ([], [])
span_digits (c ∷ s) =
    let rest = span_digits s in
    let cut : Text × Text = (c ∷ rest.0, rest.1) in if is_digit c then cut else ([], c ∷ s)

-- What stands behind the digits does not begin with one.
abbrev pub EndsDigits : Text → Type 0
EndsDigits [] = Unit
EndsDigits (c ∷ s) = is_digit c ≡ false

of_digits-digits_of :
    (f n : ℕ) (rest : Text) → n < f → of_digits 0 (digits_of f n ++ rest) ≡ of_digits n rest
unfolding digits_of of_digits
of_digits-digits_of zero n rest h = elim h [ ]
of_digits-digits_of (suc f) n rest h = elim (Bool-cases (ltb n 10)) [
  | inl small ↦ rw small (ap (λ m. of_digits m rest) (omega arith))
  | inr large ↦
      rw
        (
          large,
          append_assoc (digits_of f (n / 10)) ((b'0' + n % 10) ∷ []) rest,
          of_digits-digits_of f (n / 10) ((b'0' + n % 10) ∷ rest) (ground arith),
        )
        (ap (λ m. of_digits m rest) (omega arith))
]

snoc-ne-nil : (s : Text) (c : ℕ) → s ++ c ∷ [] ≢ []
snoc-ne-nil [] c e = cc
snoc-ne-nil (d ∷ s) c e = cc

pub all_chars-append :
    (p : ℕ → Bool) (s t : Text)
    → all_chars p s ≡ true
    → all_chars p t ≡ true
    → all_chars p (s ++ t) ≡ true
unfolding all_chars
all_chars-append p [] t h k = k
all_chars-append p (c ∷ s) t h k = ground (arith, all_chars-append p s t)

is_digit-digits_of : (f n : ℕ) → all_chars is_digit (digits_of f n) ≡ true
unfolding digits_of all_chars
is_digit-digits_of zero n = refl
is_digit-digits_of (suc f) n = elim (Bool-cases (ltb n 10)) [
  | inl small ↦ rw small (ground arith)
  | inr large ↦ rw large (
      all_chars-append is_digit (digits_of f (n / 10)) ((b'0' + n % 10) ∷ [])
        (is_digit-digits_of f (n / 10)) (ground arith))
]

span_digits-append :
    (s rest : Text)
    → all_chars is_digit s ≡ true
    → EndsDigits rest
    → span_digits (s ++ rest) ≡ (s, rest)
unfolding all_chars span_digits
span_digits-append [] [] h e = refl
span_digits-append [] (c ∷ rest) h e = rw e refl
span_digits-append (c ∷ s) rest h e = ground (arith, span_digits-append s rest)

pub of_digits-to_digits : (n : ℕ) → of_digits 0 (to_digits n) ≡ n
unfolding to_digits of_digits
of_digits-to_digits n =
    rw (← append-nil (digits_of (suc n) n)) (of_digits-digits_of (suc n) n [] (omega arith))

pub span_digits-to_digits :
    (n : ℕ) (rest : Text)
    → EndsDigits rest
    → span_digits (to_digits n ++ rest) ≡ (to_digits n, rest)
unfolding to_digits
span_digits-to_digits n rest e =
    span_digits-append (digits_of (suc n) n) rest (is_digit-digits_of (suc n) n) e

pub is_digit-to_digits : (n : ℕ) → all_chars is_digit (to_digits n) ≡ true
unfolding to_digits
is_digit-to_digits n = is_digit-digits_of (suc n) n

-- A number has a digit.
pub to_digits-ne-nil : (n : ℕ) → to_digits n ≢ []
unfolding to_digits digits_of
to_digits-ne-nil n = elim (Bool-cases (ltb n 10)) [
  | inl small ↦ rw small (λ e. cc)
  | inr large ↦ rw large (snoc-ne-nil (digits_of n (n / 10)) (b'0' + n % 10))
]
