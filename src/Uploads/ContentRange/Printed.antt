-- ===== src/Uploads/ContentRange/Printed.antt =====
-- A Content-Range header that is printed is read back.
use bqemulator.Prelude.{
  ℕ, ◌<◌, ◌≤◌, ◌≡◌, ◌≢◌, ap, &&-right, refl, Option, none, some, [], ◌∷◌, ◌++◌, append-nil, arith,
  nat_eq_iff, Text, text, true, false,
}
use bqemulator.RowAccess.Strings.{
  is_space, lstrip, rstrip, strip, drop_prefix, rstrip-keep, rstrip-append,
}
use bqemulator.Identifiers.{is_digit, all_chars}
use bqemulator.Numerals.{
  of_digits, to_digits, EndsDigits, is_digit-to_digits, span_digits-to_digits, of_digits-to_digits,
  to_digits-ne-nil,
}
use bqemulator.Uploads.ContentRange.{
  ok, after_bytes, number_of, read_count, match_probe, read_total, match_range, parse_content_range,
}

-- The header that a client sends for a chunk: `*` stands for a total that is not known.
abbrev total_text : Option ℕ → Text
total_text none = text "*"
total_text (some total) = to_digits total

unfoldable pub content_range : ℕ → ℕ → Option ℕ → Text
content_range start end_inclusive total =
    text "bytes "
    ++ (to_digits start
        ++ (text "-" ++ (to_digits end_inclusive ++ (text "/" ++ total_text total))))

number_of-some :
    (n : ℕ) (d rest : Text) → d ≢ [] → of_digits 0 d ≡ n → number_of (d, rest) ≡ some (n, rest)
number_of-some n [] rest h e = absurd (h refl)
number_of-some n (c ∷ d) rest h e = rw e refl

-- A printed number is read back, and the reading stops behind it.
read_count-to_digits :
    (n : ℕ) (rest : Text) → EndsDigits rest → read_count (to_digits n ++ rest) ≡ some (n, rest)
unfolding read_count
read_count-to_digits n rest e =
    rw (span_digits-to_digits n rest e)
      (number_of-some n (to_digits n) rest (to_digits-ne-nil n) (of_digits-to_digits n))

digit_not_space : (c : ℕ) → is_digit c ≡ true → is_space c ≡ false
unfolding is_space
digit_not_space c h = ground arith

lstrip-digits :
    (d rest : Text) → d ≢ [] → all_chars is_digit d ≡ true → lstrip (d ++ rest) ≡ d ++ rest
unfolding lstrip all_chars
lstrip-digits [] rest h k = absurd (h refl)
lstrip-digits (c ∷ d) rest h k = ground (arith, digit_not_space c)

rstrip-digits : (d : Text) → all_chars is_digit d ≡ true → rstrip d ≡ d
unfolding rstrip all_chars
rstrip-digits [] k = refl
rstrip-digits (c ∷ []) k = ground (arith, digit_not_space c)
rstrip-digits (c ∷ e ∷ d) k = rstrip-keep c e d (rstrip-digits (e ∷ d) (&&-right (is_digit c) _ k))

total_text-rstrip : (total : Option ℕ) → rstrip (total_text total) ≡ total_text total
unfolding rstrip is_space
total_text-rstrip none = refl
total_text-rstrip (some n) = rstrip-digits (to_digits n) (is_digit-to_digits n)

total_text-ne-nil : (total : Option ℕ) → total_text total ≢ []
total_text-ne-nil none = λ e. cc
total_text-ne-nil (some n) = to_digits-ne-nil n

append-ne-nil : (s t : Text) → t ≢ [] → s ++ t ≢ []
append-ne-nil [] t h = h
append-ne-nil (c ∷ s) t h = λ e. cc

strip-content_range :
    (start end_inclusive : ℕ) (total : Option ℕ)
    → strip (content_range start end_inclusive total) ≡ content_range start end_inclusive total
unfolding strip content_range lstrip is_space
strip-content_range start end_inclusive total =
    let behind : Text = to_digits end_inclusive ++ (text "/" ++ total_text total) in
    rstrip-append (text "bytes ") (to_digits start ++ (text "-" ++ behind))
      (append-ne-nil (to_digits start) (text "-" ++ behind) (λ e. cc))
      (rstrip-append (to_digits start) (text "-" ++ behind) (λ e. cc)
        (rstrip-append (text "-") behind
          (append-ne-nil (to_digits end_inclusive) (text "/" ++ total_text total) (λ e. cc))
          (rstrip-append (to_digits end_inclusive) (text "/" ++ total_text total) (λ e. cc)
            (rstrip-append (text "/") (total_text total) (total_text-ne-nil total)
              (total_text-rstrip total)))))

-- The fields of a header that a client may send.
abbrev pub IsRange : ℕ → ℕ → Option ℕ → Type 0
IsRange start end_inclusive none = start ≤ end_inclusive
IsRange start end_inclusive (some total) = (start ≤ end_inclusive) × (end_inclusive < total)

after_bytes-content_range :
    (start : ℕ) (rest : Text)
    → after_bytes (text "bytes " ++ (to_digits start ++ rest)) ≡ some (to_digits start ++ rest)
unfolding after_bytes drop_prefix is_space
after_bytes-content_range start rest =
    ap some
      (lstrip-digits (to_digits start) rest (to_digits-ne-nil start) (is_digit-to_digits start))

drop_prefix-digits :
    (c : ℕ) (p d rest : Text)
    → is_digit c ≡ false
    → d ≢ []
    → all_chars is_digit d ≡ true
    → drop_prefix (c ∷ p) (d ++ rest) ≡ none
unfolding drop_prefix all_chars
drop_prefix-digits c p [] rest h n k = absurd (n refl)
drop_prefix-digits c p (e ∷ d) rest h n k = ground (arith, nat_eq_iff c e)

drop_prefix-to_digits :
    (c : ℕ) (p : Text) (n : ℕ) (rest : Text)
    → is_digit c ≡ false
    → drop_prefix (c ∷ p) (to_digits n ++ rest) ≡ none
drop_prefix-to_digits c p n rest h =
    drop_prefix-digits c p (to_digits n) rest h (to_digits-ne-nil n) (is_digit-to_digits n)

drop_prefix-star : (n : ℕ) → drop_prefix (text "*") (to_digits n) ≡ none
drop_prefix-star n = rw (← append-nil (to_digits n)) (drop_prefix-to_digits b'*' [] n [] refl)

read_count-end : (n : ℕ) → read_count (to_digits n) ≡ some (n, [])
read_count-end n = rw (← append-nil (to_digits n)) (read_count-to_digits n [] tt)

read_total-total_text : (total : Option ℕ) → read_total (total_text total) ≡ some total
unfolding read_total drop_prefix
read_total-total_text none = refl
read_total-total_text (some n) = rw (drop_prefix-star n, read_total, read_count-end n) refl

match_probe-content_range :
    (start end_inclusive : ℕ) (total : Option ℕ)
    → match_probe (content_range start end_inclusive total) ≡ none
unfolding match_probe content_range
match_probe-content_range start end_inclusive total =
    rw
      (
        after_bytes-content_range start
            (text "-" ++ (to_digits end_inclusive ++ (text "/" ++ total_text total))),
        drop_prefix-to_digits b'*' (text "/") start
            (text "-" ++ (to_digits end_inclusive ++ (text "/" ++ total_text total))) refl,
      )
      refl

match_range-content_range :
    (start end_inclusive : ℕ) (total : Option ℕ)
    → match_range (content_range start end_inclusive total) ≡ some (start, end_inclusive, total)
unfolding match_range content_range drop_prefix
match_range-content_range start end_inclusive total =
    rw
      (
        after_bytes-content_range start
            (text "-" ++ (to_digits end_inclusive ++ (text "/" ++ total_text total))),
        read_count-to_digits start
            (text "-" ++ (to_digits end_inclusive ++ (text "/" ++ total_text total))) refl,
      )
      (rw
        (
          read_count-to_digits end_inclusive (text "/" ++ total_text total) refl,
          read_total-total_text total,
        )
        refl)

-- The header of a chunk is read back as its fields.
pub parse-content_range :
    (start end_inclusive : ℕ) (total : Option ℕ)
    → IsRange start end_inclusive total
    → parse_content_range (content_range start end_inclusive total)
      ≡ ok (record { start = some start; end_inclusive = some end_inclusive; total = total })
unfolding parse_content_range
parse-content_range start end_inclusive none h =
    rw
      (
        strip-content_range start end_inclusive none,
        match_probe-content_range start end_inclusive none,
        match_range-content_range start end_inclusive none,
      )
      (ground arith)
parse-content_range start end_inclusive (some total) h =
    rw
      (
        strip-content_range start end_inclusive (some total),
        match_probe-content_range start end_inclusive (some total),
        match_range-content_range start end_inclusive (some total),
      )
      (ground arith)
