-- ===== src/Intervals/Texts.antt =====
-- types/interval.py: how the text that format_bq_interval prints is cut into words.
use bqemulator.Prelude.{
  ℕ, ◌/◌, ◌%◌, ◌≡◌, ◌≢◌, refl, ap, ◌∙◌, true, false, not, [], ◌∷◌, ◌++◌, arith, Text,
}
use bqemulator.Identifiers.{is_digit, all_chars}
use bqemulator.Numerals.{to_digits, to_digits-ne-nil, all_chars-append}
use bqemulator.RowAccess.Strings.{is_space, strip, lstrip, rstrip, rstrip-append}
use bqemulator.Intervals.{split_words}
use bqemulator.Intervals.Printed.{time_text, unsigned_text}
use bqemulator.Intervals.Words.{
  Solid, digit-solid, rstrip-Solid, split_words-word, split_words-last,
}
use bqemulator.Intervals.Seconds.{Digits, seconds_text-chars, all_chars-to_digits}

-- The block of the years and months.
abbrev pub ym_text : ℕ → ℕ → Text
ym_text years months = to_digits years ++ b'-' ∷ to_digits months

pub digits-Solid : (n : ℕ) → Solid (to_digits n)
digits-Solid n = all_chars-to_digits (λ c. not (is_space c)) n digit-solid

pub join-Solid : (s t : Text) (c : ℕ) → is_space c ≡ false → Solid s → Solid t → Solid (s ++ c ∷ t)
unfolding all_chars
join-Solid s t c h k l = all_chars-append (λ d. not (is_space d)) s (c ∷ t) k (rw h l)

pub append-ne-nil : (s : Text) (c : ℕ) (t : Text) → s ++ c ∷ t ≢ []
append-ne-nil [] c t e = cc
append-ne-nil (d ∷ s) c t e = cc

-- A text that begins with a digit.
abbrev pub Begins : Text → Type 0
Begins [] = ⊥
Begins (c ∷ s) = is_digit c ≡ true

pub Begins-ne-nil : (s : Text) → Begins s → s ≢ []
Begins-ne-nil [] b = elim b [ ]
Begins-ne-nil (c ∷ s) b = λ e. cc

pub Digits-Begins : (s t : Text) → s ≢ [] → Digits s → Begins (s ++ t)
unfolding all_chars
Digits-Begins [] t n h = absurd (n refl)
Digits-Begins (c ∷ s) t n h = ground arith

pub Begins-append : (s t : Text) → Begins s → Begins (s ++ t)
Begins-append [] t b = elim b [ ]
Begins-append (c ∷ s) t b = b

pub time_text-Solid : (total frac_nanos : ℕ) → Solid (time_text total frac_nanos)
unfolding is_space
time_text-Solid total frac_nanos =
    join-Solid (to_digits (total / 3600)) _ b':' refl (digits-Solid (total / 3600)) (
      join-Solid (to_digits (total % 3600 / 60)) _ b':' refl (digits-Solid (total % 3600 / 60)) (
        seconds_text-chars (λ c. not (is_space c)) (total % 3600 % 60) frac_nanos digit-solid refl))

pub split_words-unsigned_text :
    (months days nanoseconds : ℕ)
    → split_words (unsigned_text months days nanoseconds)
      ≡ ym_text (months / 12) (months % 12)
        ∷ to_digits days
        ∷ time_text (nanoseconds / 1000000000) (nanoseconds % 1000000000)
        ∷ []
unfolding is_space
split_words-unsigned_text months days nanoseconds =
    let time = time_text (nanoseconds / 1000000000) (nanoseconds % 1000000000) in
    let ym = ym_text (months / 12) (months % 12) in
    split_words-word ym (to_digits days ++ b' ' ∷ time)
      (append-ne-nil (to_digits (months / 12)) b'-' (to_digits (months % 12)))
      (join-Solid (to_digits (months / 12)) (to_digits (months % 12)) b'-' refl
        (digits-Solid (months / 12)) (digits-Solid (months % 12)))
    ∙ ap (λ ws. ym ∷ ws)
        (split_words-word (to_digits days) time (to_digits-ne-nil days) (digits-Solid days)
          ∙ ap (λ ws. to_digits days ∷ ws)
              (split_words-last time
                (append-ne-nil (to_digits (nanoseconds / 1000000000 / 3600)) b':' _)
                (time_text-Solid (nanoseconds / 1000000000) (nanoseconds % 1000000000))))

-- Nothing is stripped of what is printed.
pub rstrip-unsigned_text :
    (months days nanoseconds : ℕ)
    → rstrip (unsigned_text months days nanoseconds) ≡ unsigned_text months days nanoseconds
rstrip-unsigned_text months days nanoseconds =
    let total = nanoseconds / 1000000000 in
    let time = time_text total (nanoseconds % 1000000000) in
    let time-ne-nil : time ≢ [] = append-ne-nil (to_digits (total / 3600)) b':' _ in
    rstrip-append (ym_text (months / 12) (months % 12)) (b' ' ∷ (to_digits days ++ b' ' ∷ time))
      (λ e. cc)
      (rstrip-append (b' ' ∷ []) (to_digits days ++ b' ' ∷ time)
        (append-ne-nil (to_digits days) b' ' time)
        (rstrip-append (to_digits days) (b' ' ∷ time) (λ e. cc)
          (rstrip-append (b' ' ∷ []) time time-ne-nil
            (rstrip-Solid time (time_text-Solid total (nanoseconds % 1000000000))))))

pub strip-Begins : (s : Text) → Begins s → rstrip s ≡ s → strip s ≡ s
unfolding strip lstrip
strip-Begins [] b h = elim b [ ]
strip-Begins (c ∷ s) b h =
    let first : is_space c ≡ false = ground (arith, digit-solid c b) in rw first h

pub strip-minus : (s : Text) → rstrip (b'-' ∷ s) ≡ b'-' ∷ s → strip (b'-' ∷ s) ≡ b'-' ∷ s
unfolding strip lstrip is_space
strip-minus s h = h
