-- ===== src/Examples/Spans.antt =====
-- Interval literals, printed and read.
use bqemulator.Prelude.{
  ℕ, ◌-◌, ◌≤◌, ◌≡◌, refl, Bool, true, false, not, ◌&&◌, none, [], ◌∷◌, Text, text, leb, list_beq,
  if◌then◌else◌, pos, negsuc,
}
use bqemulator.Numerals.{to_digits, digits_of, of_digits}
use bqemulator.Identifiers.{all_chars}
use bqemulator.RowAccess.Strings.{strip, lstrip, rstrip, is_space}
use bqemulator.Intervals.{Numbers, ok, split_words, join_spaces, find_entry}
use bqemulator.Intervals.Literals.{
  parse_interval_literal, signed_literal, of_span, parse_single_unit, take_segments,
  parse_int_token, int_of,
}
use bqemulator.Intervals.Printed.{zeros, format_bq_interval, seconds_text, rstrip_char}
use bqemulator.Intervals.RoundTrip.{printed_parts, parse-format}

abbrev upper_letter : ℕ → ℕ
upper_letter c = if leb b'a' c && leb c b'z' then c - 32 else c

abbrev uppered : Text → Text
uppered [] = []
uppered (c ∷ s) = upper_letter c ∷ uppered s

abbrev signed_decimal : Bool → Bool × ℕ × ℕ → Bool × ℕ × ℕ
signed_decimal negative (b, c, places) = (if negative then not b else b, c, places)

-- Numbers that are written in ASCII digits only.
abbrev ascii : Numbers
ascii = record {
  upper = uppered;
  other_int = λ s. none;
  D = Bool × ℕ × ℕ;
  plain = λ b c places. (b, c, places);
  other_decimal = λ s. none;
  signed = signed_decimal;
  signed-plain = λ negative b c places h. refl;
}

-- A span of mixed signs prints as one that is all negative.
printed : format_bq_interval (negsuc 13) (pos 5) (pos 3723450000000) ≡ text "-1-2 5 1:2:3.45"
unfolding format_bq_interval seconds_text rstrip_char to_digits digits_of
printed = refl

a_day :
    parse_interval_literal ascii (text " -3 ") (text "day")
    ≡ ok (record {
      years = pos 0;
      months = pos 0;
      days = negsuc 2;
      hours = pos 0;
      minutes = pos 0;
      seconds = (false, 0, 0);
    })
unfolding parse_interval_literal signed_literal of_span parse_single_unit take_segments
    parse_int_token int_of split_words join_spaces find_entry strip lstrip rstrip is_space list_beq
    of_digits all_chars
a_day = refl

parse-format_example :
    (c : ℕ) × (places : ℕ) × (parse_interval_literal ascii
        (format_bq_interval (negsuc 13) (pos 5) (pos 3723450000000))
        (text "year to second")
      ≡ ok (printed_parts ascii true 14 5 3723450000000 (true, c, places)))
    × (places ≤ 6)
    × (of_digits c (zeros (6 - places)) ≡ 3450000)
parse-format_example =
    parse-format ascii (negsuc 13) (pos 5) (pos 3723450000000) (text "year to second") refl
