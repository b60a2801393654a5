-- ===== src/Streaming/Names.antt =====
-- streaming/write_stream.py: stream names, and `_is_valid_stream_name` of
-- grpc_api/write_servicer.py.
use bqemulator.Prelude.{
  ℕ, ◌≡◌, refl, ap, ◌∙◌, Bool, true, false, ◌&&◌, ◌||◌, Option, none, some, List, [], ◌∷◌, ◌++◌,
  arith, length, leb, nat_eq, if◌then◌else◌, Text, text, text_eq, list_beq, ◌==◌,
}
use bqemulator.Identifiers.{is_digit, all_chars, drop_final_newline}

abbrev pub slash : ℕ
slash = b'/'

-- f"projects/{p}/datasets/{d}/tables/{t}/streams/{i}", bracketed to the right.
unfoldable pub build_stream_name : Text → Text → Text → Text → Text
build_stream_name p d t i =
    text "projects/"
    ++ (p ++ (text "/datasets/" ++ (d ++ (text "/tables/" ++ (t ++ (text "/streams/" ++ i))))))

abbrev pub default_stream_suffix : Text
default_stream_suffix = text "_default"

unfoldable pub default_stream_name : Text → Text → Text → Text
unfolding build_stream_name
default_stream_name p d t = build_stream_name p d t default_stream_suffix

abbrev cons_head : ℕ → List Text → List Text
cons_head c [] = (c ∷ []) ∷ []
cons_head c (s ∷ parts) = (c ∷ s) ∷ parts

-- s.split(sep), for a separator of one character
unfoldable pub split : ℕ → Text → List Text
split sep [] = [] ∷ []
split sep (c ∷ s) = let rest = split sep s in if nat_eq c sep then [] ∷ rest else cons_head c rest

stream_parts : List Text → Option (Text × Text × Text × Text)
stream_parts (a ∷ p ∷ b ∷ d ∷ c ∷ t ∷ e ∷ i ∷ []) =
    if a == text "projects" && e == text "streams" then some (p, d, t, i) else none
stream_parts _ = none

-- `none` is the ValueError.
unfoldable pub parse_stream_name : Text → Option (Text × Text × Text × Text)
unfolding split stream_parts
parse_stream_name name = stream_parts (split slash name)

table_parts : List Text → Option (Text × Text × Text)
table_parts (a ∷ p ∷ b ∷ d ∷ c ∷ t ∷ []) = if a == text "projects" then some (p, d, t) else none
table_parts _ = none

unfoldable pub parse_table_parent : Text → Option (Text × Text × Text)
unfolding split table_parts
parse_table_parent parent = table_parts (split slash parent)

-- s.endswith(suffix)
unfoldable pub ends_with : Text → Text → Bool
ends_with suffix [] = suffix == []
ends_with suffix (c ∷ s) = suffix == (c ∷ s) || ends_with suffix s

-- [a-f0-9]
abbrev is_hex : ℕ → Bool
is_hex c = is_digit c || (leb b'a' c && leb c b'f')

-- _STREAM_ID_RE
unfoldable pub is_stream_id : Text → Bool
unfolding all_chars drop_final_newline
is_stream_id s =
    let t = drop_final_newline s in
    (all_chars is_hex t && nat_eq (length t) 16) || t == default_stream_suffix

is_valid_parts : Option (Text × Text × Text × Text) → Bool
is_valid_parts none = false
is_valid_parts (some (p, d, t, i)) = is_stream_id i

-- _is_valid_stream_name: the shape test is that of `parse_stream_name`, written out a second time.
unfoldable pub is_valid_stream_name : Text → Bool
unfolding parse_stream_name is_stream_id is_valid_parts
is_valid_stream_name name = is_valid_parts (parse_stream_name name)

-- No slash in the text.
abbrev pub IsPlain : Text → Type 0
IsPlain s = all_chars (λ c. if nat_eq c slash then false else true) s ≡ true

split-append : (s t : Text) → IsPlain s → split slash (s ++ slash ∷ t) ≡ s ∷ split slash t
unfolding split all_chars
split-append [] t h = refl
split-append (c ∷ s) t h = ground (arith, split-append s t)

split-IsPlain : (s : Text) → IsPlain s → split slash s ≡ s ∷ []
unfolding split all_chars
split-IsPlain [] h = refl
split-IsPlain (c ∷ s) h = ground (arith, split-IsPlain s)

IsPlain-words :
    IsPlain (text "projects")
    × IsPlain (text "datasets")
    × IsPlain (text "tables")
    × IsPlain (text "streams")
    × IsPlain default_stream_suffix
unfolding all_chars
IsPlain-words = (refl, refl, refl, refl, refl)

split-build_stream_name :
    (p d t i : Text)
    → IsPlain p
    → IsPlain d
    → IsPlain t
    → IsPlain i
    → split slash (build_stream_name p d t i)
      ≡ text "projects" ∷ p ∷ text "datasets" ∷ d ∷ text "tables" ∷ t ∷ text "streams" ∷ i ∷ []
unfolding build_stream_name
split-build_stream_name p d t i hp hd ht hi =
    split-append (text "projects")
      (p ++ (text "/datasets/" ++ (d ++ (text "/tables/" ++ (t ++ (text "/streams/" ++ i))))))
      IsPlain-words.0
    ∙ ap (λ r. text "projects" ∷ r)
        (split-append p
            (text "datasets/" ++ (d ++ (text "/tables/" ++ (t ++ (text "/streams/" ++ i))))) hp
          ∙ ap (λ r. p ∷ r)
              (split-append (text "datasets")
                  (d ++ (text "/tables/" ++ (t ++ (text "/streams/" ++ i)))) IsPlain-words.1
                ∙ ap (λ r. text "datasets" ∷ r)
                    (split-append d (text "tables/" ++ (t ++ (text "/streams/" ++ i))) hd
                      ∙ ap (λ r. d ∷ r)
                          (split-append (text "tables") (t ++ (text "/streams/" ++ i))
                              IsPlain-words.2
                            ∙ ap (λ r. text "tables" ∷ r)
                                (split-append t (text "streams/" ++ i) ht
                                  ∙ ap (λ r. t ∷ r)
                                      (split-append (text "streams") i IsPlain-words.3
                                        ∙ ap (λ r. text "streams" ∷ r) (split-IsPlain i hi)))))))

parse_stream_name_parts : (name : Text) → parse_stream_name name ≡ stream_parts (split slash name)
unfolding parse_stream_name
parse_stream_name_parts name = refl

stream_parts_good :
    (p d t i : Text)
    → stream_parts
        (text "projects" ∷ p ∷ text "datasets" ∷ d ∷ text "tables" ∷ t ∷ text "streams" ∷ i ∷ [])
      ≡ some (p, d, t, i)
unfolding stream_parts list_beq
stream_parts_good p d t i = refl

-- A stream name is parsed into the ids that it was built from, where these hold no slash.
pub parse-build_stream_name :
    (p d t i : Text)
    → IsPlain p
    → IsPlain d
    → IsPlain t
    → IsPlain i
    → parse_stream_name (build_stream_name p d t i) ≡ some (p, d, t, i)
parse-build_stream_name p d t i hp hd ht hi =
    parse_stream_name_parts (build_stream_name p d t i)
    ∙ ap stream_parts (split-build_stream_name p d t i hp hd ht hi)
    ∙ stream_parts_good p d t i
