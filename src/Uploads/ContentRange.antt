-- ===== src/Uploads/ContentRange.antt =====
-- jobs/upload_session_manager.py: the Content-Range header. A header is Latin-1, so that `\d` is an
-- ASCII digit; a number has at most the 4300 digits that int() reads.
pub mod Printed
use bqemulator.Prelude.{
  ℕ, ◌<◌, ◌≤◌, ◌≡◌, ◌≢◌, ap, &&-right, refl, Option, none, some, List, [], ◌∷◌, ◌++◌, append_assoc,
  append-nil, arith, ltb, leb, if◌then◌else◌, nat_eq_iff, Text, text, Bool, true, false, ◌&&◌, not,
  is_some, leb→le,
}
use bqemulator.RowAccess.Strings.{
  is_space, lstrip, rstrip, strip, drop_prefix, rstrip-keep, rstrip-append,
}
use bqemulator.Identifiers.{is_digit, all_chars}
use bqemulator.Numerals.{
  span_digits, of_digits, to_digits, EndsDigits, is_digit-to_digits, span_digits-to_digits,
  of_digits-to_digits, to_digits-ne-nil,
}

pub data UploadError : Type 0 where
  not_found : Text → UploadError
  file_exists : UploadError
  malformed : Text → UploadError
  end_precedes_start end_not_below_total : ℕ → ℕ → UploadError
  wrong_start other_total : ℕ → ℕ → UploadError
  size_exceeded : ℕ → ℕ → UploadError

pub data Checked {ℓ} (A : Type ℓ) : Type ℓ where
  ok : A → Checked A
  raised : UploadError → Checked A

infixl 5 ◌>>=◌ ◌>>◌
abbrev pub ◌>>=◌ {ℓ κ} : {A : Type ℓ} {B : Type κ} → Checked A → (A → Checked B) → Checked B
ok a >>= f = f a
raised e >>= f = raised e

abbrev pub ◌>>◌ {ℓ} : {B : Type ℓ} → Checked (Unit {0}) → Checked B → Checked B
m >> k = m >>= λ _. k

-- if failed: raise e
abbrev pub raise_if : Bool → UploadError → Checked (Unit {0})
raise_if true e = raised e
raise_if false e = ok tt

-- What follows an action that passes.
pub >>-ok {ℓ} :
    {A : Type ℓ} (m : Checked (Unit {0})) (k : Checked A) {a : A}
    → (m >> k) ≡ ok a
    → (m ≡ ok tt) × (k ≡ ok a)
>>-ok (ok u) k h = (refl, h)
>>-ok (raised e) k h = cc

module _ {A B : Type 0} where
  abbrev pub then_read : Option A → (A → Option B) → Option B
  then_read none f = none
  then_read (some a) f = f a

-- bytes\s+
unfoldable pub after_bytes : Text → Option Text
after_bytes s =
    then_read (drop_prefix (text "bytes") s)
      (λ t. elim t [ [] ↦ none | c ∷ u ↦ if is_space c then some (lstrip u) else none ])

abbrev number_of : Text × Text → Option (ℕ × Text)
number_of ([], rest) = none
number_of (c ∷ d, rest) = some (of_digits 0 (c ∷ d), rest)

-- \d+
unfoldable pub read_count : Text → Option (ℕ × Text)
read_count s = number_of (span_digits s)

-- What was read, if the text ends there.
abbrev pub at_end : {A : Type 0} → A × Text → Option A
at_end (a, []) = some a
at_end (a, c ∷ s) = none

-- _CONTENT_RANGE_PROBE_RE, on a stripped text
unfoldable pub match_probe : Text → Option ℕ
unfolding after_bytes read_count
match_probe s =
    then_read (after_bytes s)
      (λ t. then_read (drop_prefix (text "*/") t) (λ u. then_read (read_count u) at_end))

-- (\d+|\*)$
unfoldable pub read_total : Text → Option (Option ℕ)
unfolding read_count
read_total s = elim (drop_prefix (text "*") s) [
  | some rest ↦ at_end (none, rest)
  | none ↦ then_read (read_count s) (λ p. at_end (some (p.0), p.1))
]

-- _CONTENT_RANGE_BYTES_RE, on a stripped text
unfoldable pub match_range : Text → Option (ℕ × ℕ × Option ℕ)
unfolding after_bytes read_count read_total
match_range s = then_read (after_bytes s) (λ t. then_read (read_count t) (λ p.
    then_read (drop_prefix (text "-") (p.1)) (λ u. then_read (read_count u) (λ q.
      then_read (drop_prefix (text "/") (q.1))
        (λ v. then_read (read_total v) (λ total. some (p.0, q.0, total)))))))

-- The fields of a header: start, end_inclusive and total.
pub record Range : Type 0 where
  pub start : Option ℕ
  pub end_inclusive : Option ℕ
  pub total : Option ℕ

abbrev pub no_range : Range
no_range = record { start = none; end_inclusive = none; total = none }

abbrev reaches : ℕ → Option ℕ → Bool
reaches n none = false
reaches n (some total) = leb total n

abbrev pub or_zero : Option ℕ → ℕ
or_zero none = 0
or_zero (some n) = n

checked_range : ℕ × ℕ × Option ℕ → Checked Range
checked_range r = do
  raise_if (ltb (r.1) (r.0)) (end_precedes_start (r.1) (r.0))
  raise_if (reaches (r.1) (r.2)) (end_not_below_total (r.1) (or_zero (r.2)))
  ok (record { start = some (r.0); end_inclusive = some (r.1); total = r.2 })

range_or_malformed : Text → Option (ℕ × ℕ × Option ℕ) → Checked Range
unfolding checked_range
range_or_malformed value none = raised (malformed value)
range_or_malformed value (some r) = checked_range r

probe_or_range : Text → Option ℕ → Option (ℕ × ℕ × Option ℕ) → Checked Range
unfolding range_or_malformed
probe_or_range value (some total) r = ok (record no_range { total = some total })
probe_or_range value none r = range_or_malformed value r

-- _parse_content_range
unfoldable pub parse_content_range : Text → Checked Range
unfolding match_probe match_range probe_or_range strip
parse_content_range value =
    probe_or_range value (match_probe (strip value)) (match_range (strip value))

-- _extract_range_fields
unfoldable pub extract_range_fields : Option Text → Checked Range
extract_range_fields none = ok no_range
extract_range_fields (some value) = parse_content_range value
