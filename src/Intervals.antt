-- ===== src/Intervals.antt =====
-- src/bqemulator/types/interval.py: the literals of INTERVAL and how an interval is printed. A block
-- that is consumed is taken off the list of blocks, in place of a position that moves on.
pub mod Printed
pub mod Literals
pub mod Digits
pub mod Seconds
pub mod Words
pub mod Texts
pub mod RoundTrip
use bqemulator.Prelude.{
  ℕ, zero, suc, ◌+◌, ◌-◌, ◌*◌, ◌/◌, ◌%◌, ◌≤◌, ◌<◌, ◌≡◌, Bool, true, false, not, ◌&&◌, ◌||◌, Option,
  none, some, List, [], ◌∷◌, ◌++◌, length, nat_eq, ltb, if◌then◌else◌, Text, text, text_eq, ◌==◌, ℤ,
  pos, negsuc, is_some,
}
use bqemulator.Identifiers.{is_digit, all_chars}
use bqemulator.Numerals.{to_digits, of_digits}
use bqemulator.RowAccess.Strings.{is_space, strip, cut}

-- What the parser asks of Python: str.upper, int and Decimal. Only the texts of ASCII digits are
-- written out; `other_int` and `other_decimal` stand for what the two make of any other text.
pub record Numbers : Type 1 where
  pub upper : Text → Text
  pub other_int : Text → Option ℤ
  pub D : Type 0
  -- (-1)^negative * coefficient * 10^(-places)
  pub plain : Bool → ℕ → ℕ → D
  pub other_decimal : Text → Option D
  -- d * -1, d * 1; a signalling NaN, for which they raise, is left out.
  pub signed : Bool → D → D
  -- The product is exact within the 28 digits of the context.
  pub signed-plain :
      (negative b : Bool) (coefficient places : ℕ)
      → coefficient < 10000000000000000000000000000
      → signed negative (plain b coefficient places)
        ≡ plain (if negative then not b else b) coefficient places

-- The names in _SPAN_FIELDS
pub data Field : Type 0 where
  in_years in_months in_days in_hours in_minutes in_seconds : Field

abbrev pub same_field : Field → Field → Bool
same_field in_years in_years = true
same_field in_months in_months = true
same_field in_days in_days = true
same_field in_hours in_hours = true
same_field in_minutes in_minutes = true
same_field in_seconds in_seconds = true
same_field a b = false

abbrev pub has_field : List Field → Field → Bool
has_field [] f = false
has_field (g ∷ fields) f = same_field g f || has_field fields f

pub data IntervalError : Type 0 where
  unsupported_span : Text → IntervalError
  bad_seconds no_time_block too_many_parts : Text → IntervalError
  bad_number : Field → Text → IntervalError
  empty_literal : IntervalError
  extra_tokens : List Text → IntervalError

pub data Result {ℓ} (A : Type ℓ) : Type ℓ where
  ok : A → Result A
  raised : IntervalError → Result A

abbrev pub chained : {A B : Type 0} → Result A → (A → Result B) → Result B
chained (ok a) f = f a
chained (raised e) f = raised e

-- _SINGLE_UNITS
abbrev pub single_units : List (Text × Field)
single_units =
    (text "YEAR", in_years)
    ∷ (text "MONTH", in_months)
    ∷ (text "DAY", in_days)
    ∷ (text "HOUR", in_hours)
    ∷ (text "MINUTE", in_minutes)
    ∷ (text "SECOND", in_seconds)
    ∷ []

-- _SPAN_FIELDS
abbrev pub span_fields : List (Text × List Field)
span_fields =
    (
      text "YEAR TO SECOND",
      in_years ∷ in_months ∷ in_days ∷ in_hours ∷ in_minutes ∷ in_seconds ∷ [],
    )
    ∷ (text "YEAR TO MONTH", in_years ∷ in_months ∷ [])
    ∷ (text "DAY TO HOUR", in_days ∷ in_hours ∷ [])
    ∷ (text "DAY TO MINUTE", in_days ∷ in_hours ∷ in_minutes ∷ [])
    ∷ (text "DAY TO SECOND", in_days ∷ in_hours ∷ in_minutes ∷ in_seconds ∷ [])
    ∷ (text "HOUR TO MINUTE", in_hours ∷ in_minutes ∷ [])
    ∷ (text "HOUR TO SECOND", in_hours ∷ in_minutes ∷ in_seconds ∷ [])
    ∷ (text "MINUTE TO SECOND", in_minutes ∷ in_seconds ∷ [])
    ∷ []

unfoldable pub find_entry : {A : Type 0} → List (Text × A) → Text → Option A
find_entry [] t = none
find_entry ((x, a) ∷ table) t = let rest = find_entry table t in if x == t then some a else rest

abbrev pub onto_word : ℕ → Bool → List Text → List Text
onto_word c true (w ∷ ws) = (c ∷ w) ∷ ws
onto_word c more ws = (c ∷ []) ∷ ws

abbrev starts_word : Text → Bool
starts_word [] = false
starts_word (c ∷ s) = not (is_space c)

-- s.split()
unfoldable pub split_words : Text → List Text
split_words [] = []
split_words (c ∷ s) =
    let ws = split_words s in if is_space c then ws else onto_word c (starts_word s) ws

-- " ".join(ws)
unfoldable pub join_spaces : List Text → Text
join_spaces [] = []
join_spaces (w ∷ []) = w
join_spaces (w ∷ v ∷ ws) = w ++ b' ' ∷ join_spaces (v ∷ ws)

abbrev pub onto_first : ℕ → List Text → List Text
onto_first c [] = (c ∷ []) ∷ []
onto_first c (w ∷ ws) = (c ∷ w) ∷ ws

-- s.split(sep)
unfoldable pub split_at : ℕ → Text → List Text
split_at sep [] = [] ∷ []
split_at sep (c ∷ s) = let ws = split_at sep s in if nat_eq c sep then [] ∷ ws else onto_first c ws

abbrev pub is_number : Text → Bool
is_number [] = false
is_number (c ∷ s) = all_chars is_digit (c ∷ s)

-- n * sign, -n
abbrev pub signed_nat : Bool → ℕ → ℤ
signed_nat true (suc n) = negsuc n
signed_nat negative n = pos n

abbrev pub signed_int : Bool → ℤ → ℤ
signed_int true (pos n) = signed_nat true n
signed_int true (negsuc n) = pos (suc n)
signed_int false i = i
