-- ===== src/Intervals/Literals.antt =====
-- types/interval.py: parse_interval_literal.
use bqemulator.Prelude.{
  suc, Bool, true, false, not, ◌&&◌, ◌||◌, Option, none, some, List, [], ◌∷◌, ◌++◌, length, nat_eq,
  ltb, if◌then◌else◌, Text, text_eq, ℤ, pos, negsuc, is_some, select,
}
use bqemulator.Numerals.{of_digits}
use bqemulator.RowAccess.Strings.{strip, cut}
use bqemulator.Intervals.{
  Numbers, Field, in_years, in_months, in_days, in_hours, in_minutes, in_seconds, has_field,
  unsupported_span, bad_seconds, no_time_block, too_many_parts, bad_number, empty_literal,
  extra_tokens, Result, ok, raised, chained, single_units, span_fields, find_entry, split_words,
  join_spaces, split_at, is_number, signed_nat, signed_int,
}

abbrev opt_map : {A B : Type 0} → (A → B) → Option A → Option B
opt_map f none = none
opt_map f (some a) = some (f a)

module _ (N : Numbers) where
  open N use {D, plain, signed, other_int, other_decimal, upper}

  -- IntervalParts
  pub record IntervalParts : Type 0 where
    pub years : ℤ
    pub months : ℤ
    pub days : ℤ
    pub hours : ℤ
    pub minutes : ℤ
    pub seconds : D

  -- The dict `out` of the components found.
  pub record Found : Type 0 where
    pub years : Option ℤ
    pub months : Option ℤ
    pub days : Option ℤ
    pub hours : Option ℤ
    pub minutes : Option ℤ
    pub seconds : Option D

  abbrev nothing_found : Found
  nothing_found = record {
    years = none;
    months = none;
    days = none;
    hours = none;
    minutes = none;
    seconds = none;
  }

  -- out[field] = n, for a field that holds an int
  abbrev pub put_int : Found → Field → ℤ → Found
  put_int out in_years n = record out { years = some n }
  put_int out in_months n = record out { months = some n }
  put_int out in_days n = record out { days = some n }
  put_int out in_hours n = record out { hours = some n }
  put_int out in_minutes n = record out { minutes = some n }
  put_int out in_seconds (pos n) = record out { seconds = some (plain false n 0) }
  put_int out in_seconds (negsuc n) = record out { seconds = some (plain true (suc n) 0) }

  -- int(raw)
  unfoldable pub int_of : Text → Option ℤ
  unfolding of_digits
  int_of [] = other_int []
  int_of (c ∷ s) =
      if is_number (c ∷ s)
      then some (pos (of_digits 0 (c ∷ s)))
      else (if nat_eq c b'-' && is_number s
          then some (signed_nat true (of_digits 0 s))
          else other_int (c ∷ s))

  unfoldable pub decimal_parts : Text → Option (Text × Text) → Option D
  decimal_parts s none =
      if is_number s then some (plain false (of_digits 0 s) 0) else other_decimal s
  decimal_parts s (some (whole, places)) =
      if is_number whole && is_number places
      then some (plain false (of_digits 0 (whole ++ places)) (length places))
      else other_decimal s

  -- Decimal(raw)
  unfoldable pub decimal_of : Text → Option D
  unfolding decimal_parts cut
  decimal_of s = decimal_parts s (cut b'.' s)

  abbrev int_or_raise : Field → Text → Option ℤ → Result ℤ
  int_or_raise field raw none = raised (bad_number field raw)
  int_or_raise field raw (some n) = ok n

  -- _parse_int_token
  unfoldable pub parse_int_token : Text → Field → Result ℤ
  unfolding int_of
  parse_int_token raw field = int_or_raise field raw (int_of raw)

  abbrev decimal_or_raise : Text → Option D → Result D
  decimal_or_raise raw none = raised (bad_seconds raw)
  decimal_or_raise raw (some d) = ok d

  -- One int token of `out`.
  abbrev take_int : Text → Field → Found → Result Found
  take_int raw field out = chained (parse_int_token raw field) (λ n. ok (put_int out field n))

  unfoldable pub year_month : Text → List Field → Found → Option (Text × Text) → Result Found
  unfolding parse_int_token
  year_month token fields out none =
      if has_field fields in_years
      then take_int token in_years out
      else take_int token in_months out
  year_month token fields out (some (years, months)) =
      if has_field fields in_years && has_field fields in_months
      then chained (take_int years in_years out) (take_int months in_months)
      else (if has_field fields in_years
          then take_int token in_years out
          else take_int token in_months out)

  -- token.split("-", 1) of a token that has a dash and does not start with one.
  abbrev pub dash_parts : Text → Option (Text × Text)
  dash_parts [] = none
  dash_parts (c ∷ s) = if nat_eq c b'-' then none else cut b'-' (c ∷ s)

  -- _consume_year_month_block
  unfoldable pub consume_year_month_block :
      List Text → List Field → Found → Result (List Text × Found)
  unfolding year_month cut
  consume_year_month_block [] fields out = ok ([], out)
  consume_year_month_block (token ∷ blocks) fields out =
      if has_field fields in_years || has_field fields in_months
      then chained (year_month token fields out (dash_parts token)) (λ out'. ok (blocks, out'))
      else ok (token ∷ blocks, out)

  -- _consume_day_block
  unfoldable pub consume_day_block : List Text → List Field → Found → Result (List Text × Found)
  unfolding parse_int_token cut
  consume_day_block [] fields out = ok ([], out)
  consume_day_block (token ∷ blocks) fields out =
      if has_field fields in_days && not (is_some (cut b':' token))
      then chained (take_int token in_days out) (λ out'. ok (blocks, out'))
      else ok (token ∷ blocks, out)

  abbrev take_segment : Text → Field → Found → Result Found
  take_segment raw in_seconds out =
      chained (decimal_or_raise raw (decimal_of raw)) (λ d. ok (record out { seconds = some d }))
  take_segment raw field out = take_int raw field out

  -- The loop over zip(time_fields, segs)
  unfoldable pub take_segments : List Field → List Text → Found → Result Found
  unfolding decimal_of parse_int_token
  take_segments [] segs out = ok out
  take_segments (f ∷ fields) [] out = ok out
  take_segments (f ∷ fields) (raw ∷ segs) out =
      chained (take_segment raw f out) (take_segments fields segs)

  -- _consume_time_block_segments
  unfoldable pub consume_time_block_segments : Text → List Field → Found → Result Found
  unfolding take_segments cut split_at
  consume_time_block_segments token time_fields out =
      if is_some (cut b':' token)
      then (if ltb (length time_fields) (length (split_at b':' token))
          then raised (too_many_parts token)
          else take_segments time_fields (split_at b':' token) out)
      else raised (no_time_block token)

  unfoldable pub time_block : Text → List Text → List Field → Found → Result (List Text × Found)
  unfolding consume_time_block_segments parse_int_token
  time_block token blocks [] out = ok (token ∷ blocks, out)
  time_block token blocks (f ∷ []) out = chained (take_int token f out) (λ out'. ok (blocks, out'))
  time_block token blocks (f ∷ g ∷ fields) out =
      chained (consume_time_block_segments token (f ∷ g ∷ fields) out) (λ out'. ok (blocks, out'))

  -- _consume_time_block
  unfoldable pub consume_time_block : List Text → List Field → Found → Result (List Text × Found)
  unfolding time_block select
  consume_time_block [] fields out = ok ([], out)
  consume_time_block (token ∷ blocks) fields out =
      time_block token blocks (select (has_field fields) (in_hours ∷ in_minutes ∷ in_seconds ∷ []))
        out

  abbrev all_consumed : List Text × Found → Result Found
  all_consumed ([], out) = ok out
  all_consumed (b ∷ blocks, out) = raised (extra_tokens (b ∷ blocks))

  -- _consume_blocks
  unfoldable pub consume_blocks : List Text → List Field → Result Found
  unfolding consume_year_month_block consume_day_block consume_time_block
  consume_blocks blocks fields =
      chained (consume_year_month_block blocks fields nothing_found) (λ (r : List Text × Found).
        chained (consume_day_block (r.0) fields (r.1)) (λ (r' : List Text × Found).
          chained (consume_time_block (r'.0) fields (r'.1)) all_consumed))

  abbrev int_or_zero : Bool → Option ℤ → ℤ
  int_or_zero negative none = pos 0
  int_or_zero negative (some n) = signed_int negative n

  abbrev decimal_or_zero : Bool → Option D → D
  decimal_or_zero negative none = plain false 0 0
  decimal_or_zero negative (some d) = signed negative d

  -- IntervalParts(**parts), each part times the sign
  abbrev pub parts_of : Bool → Found → IntervalParts
  parts_of negative out = record {
    years = int_or_zero negative out.years;
    months = int_or_zero negative out.months;
    days = int_or_zero negative out.days;
    hours = int_or_zero negative out.hours;
    minutes = int_or_zero negative out.minutes;
    seconds = decimal_or_zero negative out.seconds;
  }

  unfoldable pub compound_blocks : List Text → List Field → Bool → Result IntervalParts
  unfolding consume_blocks
  compound_blocks [] fields negative = raised empty_literal
  compound_blocks (b ∷ blocks) fields negative =
      chained (consume_blocks (b ∷ blocks) fields) (λ out. ok (parts_of negative out))

  -- _parse_compound
  unfoldable pub parse_compound : Text → List Field → Bool → Result IntervalParts
  unfolding compound_blocks split_words
  parse_compound raw fields negative = compound_blocks (split_words raw) fields negative

  -- _parse_single_unit
  unfoldable pub parse_single_unit : Text → Field → Bool → Result IntervalParts
  unfolding take_segments
  parse_single_unit raw field negative =
      chained (take_segment raw field nothing_found) (λ out. ok (parts_of negative out))

  unfoldable pub of_span :
      Text → Bool → Text → Option Field → Option (List Field) → Result IntervalParts
  unfolding parse_single_unit parse_compound
  of_span raw negative span (some field) o = parse_single_unit raw field negative
  of_span raw negative span none none = raised (unsupported_span span)
  of_span raw negative span none (some fields) = parse_compound raw fields negative

  unfoldable pub signed_literal : Text → Text → Text → Result IntervalParts
  unfolding of_span strip find_entry
  signed_literal span span_norm [] =
      of_span [] false span (find_entry single_units span_norm) (find_entry span_fields span_norm)
  signed_literal span span_norm (c ∷ s) =
      if nat_eq c b'-'
      then of_span (strip s) true span (find_entry single_units span_norm)
          (find_entry span_fields span_norm)
      else of_span (c ∷ s) false span (find_entry single_units span_norm)
          (find_entry span_fields span_norm)

  -- parse_interval_literal
  unfoldable pub parse_interval_literal : Text → Text → Result IntervalParts
  unfolding signed_literal split_words join_spaces strip
  parse_interval_literal literal span =
      signed_literal span (join_spaces (split_words (upper span))) (strip literal)
