-- ===== src/Scripting/Lexer/Lengths.antt =====
-- scripting/lexer.py: the loops over the source stay inside it.
use bqemulator.Prelude.{
  ℕ, suc, ◌≤◌, ◌≡◌, refl, inl, inr, Bool, true, false, not, ◌&&◌, ◌||◌, Option, none, some, [], ◌∷◌,
  length, take, arith, nat_eq, Text, Bool-cases,
}
use bqemulator.Scripting.Lexer.{
  Chars, starts_with, count_while, one_more, string_end, number_length,
}

pub starts_with-length :
    (p s : Text) → starts_with p s ≡ true → (length p ≤ length s) × (take (length p) s ≡ p)
unfolding starts_with
starts_with-length [] s h = (omega arith, refl)
starts_with-length (c ∷ p) [] h = cc
starts_with-length (c ∷ p) (d ∷ s) h =
    let (fits, same) = starts_with-length p s (ground arith) in
    let first : d ≡ c = ground arith in (omega (arith, fits), rw (first, same) refl)

pub count_while_le : (p : ℕ → Bool) (s : Text) → count_while p s ≤ length s
unfolding count_while
count_while_le p [] = omega arith
count_while_le p (c ∷ s) = ground (arith, count_while_le p s)

pub count_while-pos : (p : ℕ → Bool) (c : ℕ) (s : Text) → p c ≡ true → 1 ≤ count_while p (c ∷ s)
unfolding count_while
count_while-pos p c s h = rw h (omega arith)

-- A result that is inside the text, or none.
abbrev pub Within : ℕ → Option ℕ → Type 0
Within n none = Unit
Within n (some m) = m ≤ n

Within-one_more : (n : ℕ) (o : Option ℕ) → Within n o → Within (suc n) (one_more o)
Within-one_more n none h = tt
Within-one_more n (some m) h = omega (arith, h)

Within-suc : (n : ℕ) (o : Option ℕ) → Within n o → Within (suc n) o
Within-suc n none h = tt
Within-suc n (some m) h = omega (arith, h)

pub string_end_le :
    (raw : Bool) (end_marker s : Text) → Within (length s) (string_end raw end_marker s)
unfolding string_end
string_end_le raw end_marker [] = tt
string_end_le raw end_marker (c ∷ []) = elim (Bool-cases (not raw && nat_eq c b'\\')) [
  | inl e ↦ rw e tt
  | inr e ↦ rw e (elim (Bool-cases (starts_with end_marker (c ∷ []))) [
    | inl k ↦ rw k (starts_with-length end_marker (c ∷ []) k).0
    | inr k ↦ rw k tt
  ])
]
string_end_le raw end_marker (c ∷ d ∷ s) = elim (Bool-cases (not raw && nat_eq c b'\\')) [
  | inl e ↦
      rw (string_end, e)
        (Within-one_more _ _ (Within-one_more _ _ (string_end_le raw end_marker s)))
  | inr e ↦
      rw (string_end, e)
        (elim (Bool-cases (starts_with end_marker (c ∷ d ∷ s))) [
          | inl k ↦ rw (string_end, k) (starts_with-length end_marker (c ∷ d ∷ s) k).0
          | inr k ↦ rw (string_end, k) (Within-one_more _ _ (string_end_le raw end_marker (d ∷ s)))
        ])
]

module _ (C : Chars) where
  open C use {is_digit}

  pub number_length_le :
      (has_dot has_exp signed : Bool) (s : Text)
      → number_length C has_dot has_exp signed s ≤ length s
  unfolding number_length
  number_length_le has_dot has_exp signed [] = omega arith
  number_length_le has_dot has_exp signed (c ∷ s) =
      elim (Bool-cases (signed && (nat_eq c b'+' || nat_eq c b'-'))) [
        | inl e ↦ rw (number_length, e) (omega (arith, number_length_le has_dot has_exp false s))
        | inr e ↦
            rw (number_length, e)
              (elim (Bool-cases (is_digit c)) [
                | inl f ↦
                    rw (number_length, f) (omega (arith, number_length_le has_dot has_exp false s))
                | inr f ↦
                    rw (number_length, f)
                      (elim (Bool-cases (nat_eq c b'.' && (not has_dot && not has_exp))) [
                        | inl g ↦
                            rw (number_length, g)
                              (omega (arith, number_length_le true has_exp false s))
                        | inr g ↦
                            rw (number_length, g)
                              (elim (Bool-cases ((nat_eq c b'e' || nat_eq c b'E') && not has_exp)) [
                                | inl h ↦
                                    rw (number_length, h)
                                      (omega (arith, number_length_le has_dot true true s))
                                | inr h ↦ rw (number_length, h) (omega arith)
                              ])
                      ])
              ])
      ]
