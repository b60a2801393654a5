-- ===== src/Intervals/Printed.antt =====
-- types/interval.py: format_bq_interval.
use bqemulator.Prelude.{
  ℕ, zero, suc, ◌-◌, ◌/◌, ◌%◌, Bool, true, false, ◌||◌, [], ◌∷◌, ◌++◌, length, nat_eq,
  if◌then◌else◌, Text, ℤ, pos, negsuc,
}
use bqemulator.Numerals.{to_digits}

abbrev pub is_negative : ℤ → Bool
is_negative (pos n) = false
is_negative (negsuc n) = true

-- abs(i)
abbrev pub abs : ℤ → ℕ
abs (pos n) = n
abs (negsuc n) = suc n

abbrev pub zeros : ℕ → Text
zeros zero = []
zeros (suc n) = b'0' ∷ zeros n

-- f"{n:06d}"
abbrev pub six_digits : ℕ → Text
six_digits n = zeros (6 - length (to_digits n)) ++ to_digits n

abbrev pub rstrip_onto : ℕ → ℕ → Text → Text
rstrip_onto sep c [] = if nat_eq c sep then [] else c ∷ []
rstrip_onto sep c (d ∷ s) = c ∷ d ∷ s

-- s.rstrip(sep)
unfoldable pub rstrip_char : ℕ → Text → Text
rstrip_char sep [] = []
rstrip_char sep (c ∷ s) = rstrip_onto sep c (rstrip_char sep s)

-- secs_str
unfoldable pub seconds_text : ℕ → ℕ → Text
unfolding rstrip_char
seconds_text seconds frac_nanos =
    if nat_eq frac_nanos 0
    then to_digits seconds
    else rstrip_char b'.'
        (rstrip_char b'0' (to_digits seconds ++ b'.' ∷ six_digits (frac_nanos / 1000)))

abbrev pub time_text : ℕ → ℕ → Text
time_text total_seconds frac_nanos =
    to_digits (total_seconds / 3600)
    ++ b':'
      ∷ (to_digits (total_seconds % 3600 / 60)
          ++ b':' ∷ seconds_text (total_seconds % 3600 % 60) frac_nanos)

-- The text behind the sign.
abbrev pub unsigned_text : ℕ → ℕ → ℕ → Text
unsigned_text months days nanoseconds =
    (to_digits (months / 12) ++ b'-' ∷ to_digits (months % 12))
    ++ b' '
      ∷ (to_digits days ++ b' ' ∷ time_text (nanoseconds / 1000000000) (nanoseconds % 1000000000))

-- format_bq_interval
unfoldable pub format_bq_interval : ℤ → ℤ → ℤ → Text
unfolding seconds_text
format_bq_interval months days nanoseconds =
    let rest = unsigned_text (abs months) (abs days) (abs nanoseconds) in
    if is_negative months || is_negative days || is_negative nanoseconds then b'-' ∷ rest else rest
