-- ===== src/Intervals/Words.antt =====
-- types/interval.py: the words of a text and the segments of a block, where they are put together.
use bqemulator.Prelude.{
  ℕ, ◌≡◌, ◌≢◌, refl, ap, ◌∙◌, true, false, not, [], ◌∷◌, ◌++◌, arith, nat_eq, nat_eq_iff, Text,
}
use bqemulator.Identifiers.{is_digit, all_chars}
use bqemulator.RowAccess.Strings.{is_space, rstrip, Lacks, rstrip-keep}
use bqemulator.Intervals.{split_words, split_at, onto_word, onto_first}

-- No white space in the text.
abbrev pub Solid : Text → Type 0
Solid s = all_chars (λ c. not (is_space c)) s ≡ true

pub digit-solid : (c : ℕ) → is_digit c ≡ true → not (is_space c) ≡ true
unfolding is_space
digit-solid c h = ground arith

pub rstrip-Solid : (s : Text) → Solid s → rstrip s ≡ s
unfolding rstrip all_chars
rstrip-Solid [] h = refl
rstrip-Solid (c ∷ []) h = ground arith
rstrip-Solid (c ∷ d ∷ s) h = rstrip-keep c d s (rstrip-Solid (d ∷ s) (ground arith))

pub Solid-head : (c : ℕ) (s : Text) → Solid (c ∷ s) → is_space c ≡ false
unfolding all_chars
Solid-head c s h = ground arith

Solid-tail : (c : ℕ) (s : Text) → Solid (c ∷ s) → Solid s
unfolding all_chars
Solid-tail c s h = ground arith

pub Lacks-head : (sep c : ℕ) (s : Text) → Lacks sep (c ∷ s) → nat_eq c sep ≡ false
unfolding all_chars
Lacks-head sep c s h = ground arith

Lacks-tail : (sep c : ℕ) (s : Text) → Lacks sep (c ∷ s) → Lacks sep s
unfolding all_chars
Lacks-tail sep c s h = ground arith

blank : is_space b' ' ≡ true
unfolding is_space
blank = refl

pub split_words-word :
    (w s : Text) → w ≢ [] → Solid w → split_words (w ++ b' ' ∷ s) ≡ w ∷ split_words s
unfolding split_words
split_words-word [] s n h = absurd (n refl)
split_words-word (c ∷ []) s n h = rw (Solid-head c [] h, blank) refl
split_words-word (c ∷ d ∷ w) s n h =
    let ih = split_words-word (d ∷ w) s (λ e. cc) (Solid-tail c (d ∷ w) h) in
    rw (Solid-head c (d ∷ w) h)
      (ap (onto_word c (not (is_space d))) ih ∙ rw (Solid-head d w (Solid-tail c (d ∷ w) h)) refl)

pub split_words-last : (w : Text) → w ≢ [] → Solid w → split_words w ≡ w ∷ []
unfolding split_words
split_words-last [] n h = absurd (n refl)
split_words-last (c ∷ []) n h = rw (Solid-head c [] h) refl
split_words-last (c ∷ d ∷ w) n h =
    let ih = split_words-last (d ∷ w) (λ e. cc) (Solid-tail c (d ∷ w) h) in
    rw (Solid-head c (d ∷ w) h)
      (ap (onto_word c (not (is_space d))) ih ∙ rw (Solid-head d w (Solid-tail c (d ∷ w) h)) refl)

pub split_at-append :
    (sep : ℕ) (s t : Text) → Lacks sep s → split_at sep (s ++ sep ∷ t) ≡ s ∷ split_at sep t
unfolding split_at all_chars
split_at-append sep [] t h = ground (arith, nat_eq_iff sep sep)
split_at-append sep (c ∷ s) t h =
    rw (Lacks-head sep c s h) (ap (onto_first c) (split_at-append sep s t (Lacks-tail sep c s h)))

pub split_at-last : (sep : ℕ) (s : Text) → Lacks sep s → split_at sep s ≡ s ∷ []
unfolding split_at all_chars
split_at-last sep [] h = refl
split_at-last sep (c ∷ s) h =
    rw (Lacks-head sep c s h) (ap (onto_first c) (split_at-last sep s (Lacks-tail sep c s h)))
