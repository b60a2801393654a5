-- ===== src/Intervals/RoundTrip.antt =====
-- types/interval.py: what format_bq_interval prints is read back by parse_interval_literal.
use bqemulator.Prelude.{
  ℕ, ◌+◌, ◌-◌, ◌*◌, ◌/◌, ◌%◌, ◌≤◌, ◌<◌, ◌≡◌, ◌≢◌, refl, ap, ◌∙◌, Bool, true, false, not, ◌||◌, some,
  List, [], ◌∷◌, ◌++◌, arith, nat_eq, nat_eq_iff, if◌then◌else◌, Text, text, list_beq, select, pos,
  ℤ,
}
use bqemulator.Numerals.{to_digits, of_digits, is_digit-to_digits, to_digits-ne-nil}
use bqemulator.RowAccess.Strings.{is_space, cut, Lacks, cut-append, cut-Lacks, rstrip-append}
use bqemulator.Intervals.{
  Numbers, Field, in_years, in_months, in_days, in_hours, in_minutes, in_seconds, ok, split_words,
  split_at, join_spaces, find_entry, single_units, span_fields, signed_int,
}
use bqemulator.Intervals.Literals.{
  IntervalParts, Found, dash_parts, decimal_of, parse_int_token, year_month,
  consume_year_month_block, consume_day_block, take_segments, consume_time_block_segments,
  time_block, consume_time_block, consume_blocks, compound_blocks, parse_compound, of_span,
  signed_literal, parse_interval_literal,
}
use bqemulator.Intervals.Printed.{
  zeros, seconds_text, time_text, unsigned_text, format_bq_interval, is_negative, abs,
}
use bqemulator.Intervals.Digits.{le-of_digits}
use bqemulator.Intervals.Words.{Lacks-head, split_at-append, split_at-last}
use bqemulator.Intervals.Seconds.{
  Digits, Digits-Lacks, decimal_of-seconds_text, int_of-to_digits, seconds_text-chars,
}
use bqemulator.Intervals.Texts.{
  ym_text, Begins, Begins-ne-nil, Digits-Begins, Begins-append, split_words-unsigned_text,
  rstrip-unsigned_text, strip-Begins, strip-minus,
}

abbrev year_to_second : List Field
year_to_second = in_years ∷ in_months ∷ in_days ∷ in_hours ∷ in_minutes ∷ in_seconds ∷ []

module _ (N : Numbers) where
  open N use {D, plain, signed, upper}

  parse_int_token-to_digits :
      (n : ℕ) (field : Field) → parse_int_token N (to_digits n) field ≡ ok (pos n)
  unfolding parse_int_token
  parse_int_token-to_digits n field = rw (int_of-to_digits N n) refl

  dash_parts-ym_text :
      (years months : ℕ)
      → dash_parts N (ym_text years months) ≡ some (to_digits years, to_digits months)
  dash_parts-ym_text years months =
      go (to_digits years) (to_digits-ne-nil years) (is_digit-to_digits years)
    where
      go :
          (s : Text)
          → s ≢ []
          → Digits s
          → dash_parts N (s ++ b'-' ∷ to_digits months) ≡ some (s, to_digits months)
      go [] n h = absurd (n refl)
      go (c ∷ s) n h =
          rw (Lacks-head b'-' c s (Digits-Lacks b'-' (c ∷ s) refl h))
            (cut-append b'-' (c ∷ s) (to_digits months) (Digits-Lacks b'-' (c ∷ s) refl h))

  printed_found : ℕ → ℕ → ℕ → ℕ → ℕ → D → Found N
  printed_found years months days hours minutes seconds = record {
    years = some (pos years);
    months = some (pos months);
    days = some (pos days);
    hours = some (pos hours);
    minutes = some (pos minutes);
    seconds = some seconds;
  }

  digits-colon : (n : ℕ) → Lacks b':' (to_digits n)
  digits-colon n = Digits-Lacks b':' (to_digits n) refl (is_digit-to_digits n)

  seconds-colon : (s frac_nanos : ℕ) → Lacks b':' (seconds_text s frac_nanos)
  seconds-colon s frac_nanos =
      seconds_text-chars (λ c. not (nat_eq c b':')) s frac_nanos
        (λ c h. ground (arith, h, nat_eq_iff c b':')) refl

  split_time_text :
      (total frac_nanos : ℕ)
      → split_at b':' (time_text total frac_nanos)
        ≡ to_digits (total / 3600)
          ∷ to_digits (total % 3600 / 60)
          ∷ seconds_text (total % 3600 % 60) frac_nanos
          ∷ []
  split_time_text total frac_nanos =
      split_at-append b':' (to_digits (total / 3600)) _ (digits-colon (total / 3600))
      ∙ ap (λ ws. to_digits (total / 3600) ∷ ws)
          (split_at-append b':' (to_digits (total % 3600 / 60)) _ (digits-colon (total % 3600 / 60))
            ∙ ap (λ ws. to_digits (total % 3600 / 60) ∷ ws)
                (split_at-last b':' _ (seconds-colon (total % 3600 % 60) frac_nanos)))

  -- The three blocks that are printed, read back.
  consume_blocks-printed :
      (years months days total frac_nanos : ℕ) (d : D)
      → decimal_of N (seconds_text (total % 3600 % 60) frac_nanos) ≡ some d
      → consume_blocks N
          (ym_text years months ∷ to_digits days ∷ time_text total frac_nanos ∷ [])
          year_to_second
        ≡ ok (printed_found years months days (total / 3600) (total % 3600 / 60) d)
  unfolding consume_blocks consume_year_month_block year_month consume_day_block consume_time_block
      time_block consume_time_block_segments take_segments printed_found select
  consume_blocks-printed years months days total frac_nanos d h =
      let time = split_time_text total frac_nanos in
      let colon : cut b':' (time_text total frac_nanos) ≡ some (to_digits (total / 3600), _) =
        cut-append b':' (to_digits (total / 3600)) _ (digits-colon (total / 3600)) in
      rw
        (
          dash_parts-ym_text years months,
          parse_int_token-to_digits years in_years,
          parse_int_token-to_digits months in_months,
          cut-Lacks b':' (to_digits days) (digits-colon days),
          parse_int_token-to_digits days in_days,
        )
        (rw
          (
            colon,
            time,
            parse_int_token-to_digits (total / 3600) in_hours,
            parse_int_token-to_digits (total % 3600 / 60) in_minutes,
            h,
          )
          refl)

  -- The parts that are read back from what is printed with a sign.
  unfoldable pub printed_parts : Bool → ℕ → ℕ → ℕ → D → IntervalParts N
  printed_parts negative months days nanoseconds seconds = record {
    years = signed_int negative (pos (months / 12));
    months = signed_int negative (pos (months % 12));
    days = signed_int negative (pos days);
    hours = signed_int negative (pos (nanoseconds / 1000000000 / 3600));
    minutes = signed_int negative (pos (nanoseconds / 1000000000 % 3600 / 60));
    seconds = seconds;
  }

  parse_compound-printed :
      (negative : Bool) (months days nanoseconds : ℕ) (d : D)
      → decimal_of N
          (seconds_text (nanoseconds / 1000000000 % 3600 % 60) (nanoseconds % 1000000000))
        ≡ some d
      → parse_compound N (unsigned_text months days nanoseconds) year_to_second negative
        ≡ ok (printed_parts negative months days nanoseconds (signed negative d))
  unfolding parse_compound compound_blocks printed_parts printed_found
  parse_compound-printed negative months days nanoseconds d h =
      rw
        (
          split_words-unsigned_text months days nanoseconds,
          consume_blocks-printed (months / 12) (months % 12) days (nanoseconds / 1000000000)
              (nanoseconds % 1000000000) d h,
        )
        refl

  unsigned_text-Begins :
      (months days nanoseconds : ℕ) → Begins (unsigned_text months days nanoseconds)
  unsigned_text-Begins months days nanoseconds =
      Begins-append (ym_text (months / 12) (months % 12)) _ (
        Digits-Begins (to_digits (months / 12)) (b'-' ∷ to_digits (months % 12))
          (to_digits-ne-nil (months / 12)) (is_digit-to_digits (months / 12)))

  signed_literal-plain :
      (span span_norm s : Text)
      → Begins s
      → signed_literal N span span_norm s
        ≡ of_span N s false span
            (find_entry single_units span_norm)
            (find_entry span_fields span_norm)
  unfolding signed_literal
  signed_literal-plain span span_norm [] b = elim b [ ]
  signed_literal-plain span span_norm (c ∷ s) b =
      let other : nat_eq c b'-' ≡ false = ground (arith, b, nat_eq_iff c b'-') in rw other refl

  span_norm : join_spaces (split_words (text "YEAR TO SECOND")) ≡ text "YEAR TO SECOND"
  unfolding join_spaces split_words is_space
  span_norm = refl

  of_span-compound :
      (raw : Text) (negative : Bool) (span : Text)
      → of_span N raw negative span
          (find_entry single_units (text "YEAR TO SECOND"))
          (find_entry span_fields (text "YEAR TO SECOND"))
        ≡ parse_compound N raw year_to_second negative
  unfolding of_span find_entry list_beq
  of_span-compound raw negative span = refl

  parse-unsigned :
      (negative : Bool) (months days nanoseconds : ℕ) (span : Text) (d : D)
      → upper span ≡ text "YEAR TO SECOND"
      → decimal_of N
          (seconds_text (nanoseconds / 1000000000 % 3600 % 60) (nanoseconds % 1000000000))
        ≡ some d
      → let rest = unsigned_text months days nanoseconds in
        parse_interval_literal N (if negative then b'-' ∷ rest else rest) span
        ≡ ok (printed_parts negative months days nanoseconds (signed negative d))
  unfolding parse_interval_literal signed_literal
  parse-unsigned true months days nanoseconds span d h k =
      let rest = unsigned_text months days nanoseconds in
      let ends = rstrip-unsigned_text months days nanoseconds in
      let minus = strip-minus rest (
        rstrip-append (b'-' ∷ []) rest
          (Begins-ne-nil rest (unsigned_text-Begins months days nanoseconds)) ends) in
      rw (h, span_norm, minus)
        (rw (strip-Begins rest (unsigned_text-Begins months days nanoseconds) ends) (
          of_span-compound rest true span
          ∙ parse_compound-printed true months days nanoseconds d k))
  parse-unsigned false months days nanoseconds span d h k =
      let rest = unsigned_text months days nanoseconds in
      let begins = unsigned_text-Begins months days nanoseconds in
      rw (h, span_norm, strip-Begins rest begins (rstrip-unsigned_text months days nanoseconds))
        (signed_literal-plain span (text "YEAR TO SECOND") rest begins
          ∙ of_span-compound rest false span
          ∙ parse_compound-printed false months days nanoseconds d k)

  -- What format_bq_interval prints of any interval is read back as YEAR TO SECOND: the months as years
  -- and months, the time of day as hours, minutes and seconds to the microsecond, and every part with
  -- the one sign of the text, which is negative if any of the three components is.
  pub parse-format :
      (months days nanoseconds : ℤ) (span : Text)
      → upper span ≡ text "YEAR TO SECOND"
      → let negative = is_negative months || is_negative days || is_negative nanoseconds in
        (c : ℕ) × (places : ℕ) × (parse_interval_literal N
            (format_bq_interval months days nanoseconds)
            span
          ≡ ok (
              printed_parts negative
                (abs months)
                (abs days)
                (abs nanoseconds)
                (plain negative c places)))
        × (places ≤ 6)
        × (of_digits c (zeros (6 - places))
            ≡ abs nanoseconds / 1000000000 % 3600 % 60 * 1000000
              + abs nanoseconds % 1000000000 / 1000)
  unfolding format_bq_interval
  parse-format months days nanoseconds span h =
      let negative = is_negative months || is_negative days || is_negative nanoseconds in
      let s = abs nanoseconds / 1000000000 % 3600 % 60 in
      let frac = abs nanoseconds % 1000000000 in
      let (c, places, read, few, value) = decimal_of-seconds_text N s frac (omega arith) in
      let small : c < 10000000000000000000000000000 =
        omega (arith, value, le-of_digits c (6 - places)) in
      (
        c,
        places,
        parse-unsigned negative (abs months) (abs days) (abs nanoseconds) span
              (plain false c places) h read
            ∙ ap
                (λ (d : D). ok (printed_parts negative (abs months) (abs days) (abs nanoseconds) d))
                (N.signed-plain negative false c places small
                  ∙ ap (λ b. plain b c places) (sign negative)),
        few,
        value,
      )
    where
      sign : (b : Bool) → (if b then not false else false) ≡ b
      sign true = refl
      sign false = refl
