-- ===== src/ReadSession/Cover.antt =====
-- streaming/read_session.py: the streams of a new session, read by their names, give its table.
use bqemulator.Prelude.{
  ℕ, zero, suc, ◌+◌, ◌-◌, ◌*◌, ◌/◌, ◌≤◌, ◌<◌, ◌≡◌, ◌≢◌, refl, sym, ap, ◌∙◌, inl, inr, true, false,
  Option, none, some, List, Member, [], ◌∷◌, ◌++◌, length, take, drop, arith, ltb, leb, Text, text,
  text_eq, ◌==◌, ==_refl, Bool-cases, different_of_ne, take-length, append-nil, length-drop,
  take-append-drop, drop-drop,
}
use native.Mathlib.Nat.{suc-mul, add-mul, mul-div-le, zero-mul}
use mathlib.Core.List.{append_cancel_left}
use bqemulator.Dict.{Dict, get, get-put_self}
use bqemulator.Numerals.{to_digits, of_digits, of_digits-to_digits}
use bqemulator.ReadSession.{
  ArrowTable, ReadStream, ReadSessionState, DataFormat, effective_streams, chunk_of,
  compute_stream_layout, streams_from, build_streams, stream_name, find_stream, project_columns,
  create_read_session, stream_slice, stream_of, data_of, get_stream_data, session_name_of,
}

pub effective_streams-bounds :
    (n table_bytes max_streams : ℕ)
    → 1 ≤ n
    → (1 ≤ effective_streams n table_bytes max_streams)
      × (effective_streams n table_bytes max_streams ≤ n)
unfolding effective_streams
effective_streams-bounds n table_bytes max_streams h = (ground arith, ground arith)

pub chunk-fits : (n e : ℕ) → 1 ≤ e → e ≤ n → (1 ≤ chunk_of n e) × (e * chunk_of n e ≤ n)
chunk-fits n zero h fits = elim h [ ]
chunk-fits n (suc d) h fits = elim (Bool-cases (ltb (n / suc d) 1)) [
  | inl less ↦ rw less (omega arith, omega arith)
  | inr more ↦ rw more (ground arith, mul-div-le n (suc d))
]

-- No stream has the name of a later one.
abbrev Distinct : List ReadStream → Type 0
Distinct [] = Unit
Distinct (s ∷ streams) = (find_stream streams s.name ≡ none) × Distinct streams

pub stream_name-injective :
    (session s t : Text) → stream_name session s ≡ stream_name session t → s ≡ t
unfolding stream_name
stream_name-injective session s t e =
    append_cancel_left (text "/streams/") s t (append_cancel_left session _ _ e)

to_digits-injective : (i j : ℕ) → to_digits i ≡ to_digits j → i ≡ j
to_digits-injective i j e =
    sym (of_digits-to_digits i) ∙ ap (λ s. of_digits 0 s) e ∙ of_digits-to_digits j

find-streams_from :
    (session : Text) (c rows i n j : ℕ)
    → j < i
    → find_stream (streams_from session c rows i n) (stream_name session (to_digits j)) ≡ none
unfolding find_stream streams_from
find-streams_from session c rows i zero j h = refl
find-streams_from session c rows i (suc n) j h = elim (Bool-cases (leb rows (i * c))) [
  | inl e ↦ rw e refl
  | inr e ↦
      rw
        (
          e,
          different_of_ne (stream_name session (to_digits i)) (stream_name session (to_digits j))
              (λ same. apart (to_digits-injective i j (stream_name-injective session _ _ same))),
        )
        (find-streams_from session c rows (i + 1) n j (omega arith))
]
  where
    apart : i ≢ j
    apart same = omega (arith, h, same)

streams_from-Distinct :
    (session : Text) (c rows i n : ℕ) → Distinct (streams_from session c rows i n)
unfolding streams_from
streams_from-Distinct session c rows i zero = tt
streams_from-Distinct session c rows i (suc n) = elim (Bool-cases (leb rows (i * c))) [
  | inl e ↦ rw e tt
  | inr e ↦ rw e (
    find-streams_from session c rows (i + 1) n i (omega arith),
    streams_from-Distinct session c rows (i + 1) n,
  )
]

-- A stream of the list is found by its name.
find_stream-Member :
    (s : ReadStream) (streams : List ReadStream)
    → Distinct streams
    → Member s streams
    → find_stream streams s.name ≡ some s
unfolding find_stream
find_stream-Member s [] d m = elim m [ ]
find_stream-Member s (t ∷ streams) d (inl same) = rw (← same, ==_refl s.name) refl
find_stream-Member s (t ∷ streams) d (inr later) =
    let found = find_stream-Member s streams (d.1) later in
    let apart : (t.name == s.name) ≡ false =
      different_of_ne t.name s.name (λ same. absurd_of same found) in
    rw apart found
  where
    absurd_of : t.name ≡ s.name → find_stream streams s.name ≡ some s → ⊥
    absurd_of same found = cc (d.0, ap (λ n. find_stream streams n) same, found)

pub streams_from-nil : (session : Text) (c i n : ℕ) → streams_from session c 0 i n ≡ []
unfolding streams_from
streams_from-nil session c i zero = refl
streams_from-nil session c i (suc n) =
    let stops : leb 0 (i * c) ≡ true = ground arith in rw stops refl

module _ {R : Type 0} where
  -- The rows of a stream.
  abbrev pub rows_of : List R → ReadStream → List R
  rows_of xs s = take (s.end_row - s.start_row) (drop s.start_row xs)

  abbrev all_rows : List R → List ReadStream → List R
  all_rows xs [] = []
  all_rows xs (s ∷ streams) = rows_of xs s ++ all_rows xs streams

  take-all : (n : ℕ) (xs : List R) → length xs ≡ n → take n xs ≡ xs
  take-all n xs h = rw (sym h) (take-length xs)

  -- From the round `i` on the streams hold the rows from its start on.
  all_rows-streams_from :
      (session : Text) (c i n : ℕ) (xs : List R)
      → 1 ≤ c
      → i * c + suc n * c ≤ length xs
      → all_rows xs (streams_from session c (length xs) i (suc n)) ≡ drop (i * c) xs
  unfolding streams_from
  all_rows-streams_from session c i zero xs h fits =
      let more : leb (length xs) (i * c) ≡ false = ground arith in
      rw more
        (append-nil _ ∙ take-all (length xs - i * c) (drop (i * c) xs) (length-drop (i * c) xs))
  all_rows-streams_from session c i (suc n) xs h fits =
      let more : leb (length xs) (i * c) ≡ false = ground (arith, suc-mul (suc n) c, suc-mul n c) in
      let next : (i + 1) * c ≡ i * c + c = omega (arith, add-mul i 1 c) in
      let width : (i + 1) * c - i * c ≡ c = omega (arith, next) in
      let inner : ltb 0 (suc n) ≡ true = ground arith in
      rw
        (
          more,
          all_rows-streams_from session c (i + 1) n xs h
              (omega (arith, next, fits, suc-mul (suc n) c)),
          inner,
          width,
          next,
          sym (drop-drop c (i * c) xs),
        )
        (take-append-drop c (drop (i * c) xs))

  all_rows-layout :
      (session : Text) (e : ℕ) (xs : List R)
      → 1 ≤ e
      → e ≤ length xs
      → all_rows xs (build_streams session e (chunk_of (length xs) e) (length xs)) ≡ xs
  unfolding build_streams
  all_rows-layout session zero xs h fits = elim h [ ]
  all_rows-layout session (suc e) xs h fits =
      let (some_rows, within) = chunk-fits (length xs) (suc e) h fits in
      all_rows-streams_from session (chunk_of (length xs) (suc e)) 0 e xs some_rows
        (omega (arith, within, zero-mul (chunk_of (length xs) (suc e))))
      ∙ ap (λ k. drop k xs) (zero-mul (chunk_of (length xs) (suc e)))

  -- The streams of a new session hold the rows of its table, one after the other.
  all_rows-build_streams :
      (session : Text) (table_bytes max_streams : ℕ) (xs : List R)
      → all_rows xs (
          build_streams session
            (compute_stream_layout (length xs) table_bytes max_streams).0
            (compute_stream_layout (length xs) table_bytes max_streams).1
            (length xs))
        ≡ xs
  unfolding build_streams compute_stream_layout
  all_rows-build_streams session table_bytes max_streams [] =
      rw (streams_from-nil session _ 0 (effective_streams 0 table_bytes max_streams)) refl
  all_rows-build_streams session table_bytes max_streams (x ∷ xs) =
      let (h, fits) =
        effective_streams-bounds (length (x ∷ xs)) table_bytes max_streams (omega arith) in
      all_rows-layout session (effective_streams (length (x ∷ xs)) table_bytes max_streams) (x ∷ xs)
        h fits

module _ {R : Type 0} (A : ArrowTable R) where
  open A use {Frame, num_rows, nbytes, rows}

  unfoldable pub joined : Option Frame → Option (List R) → Option (List R)
  joined none more = none
  joined (some t) none = none
  joined (some t) (some more) = some (rows t ++ more)

  -- The rows of the streams, each read by its name.
  unfoldable pub read_each :
      Dict Text (ReadSessionState Frame) → Text → List ReadStream → Option (List R)
  unfolding joined
  read_each sessions session [] = some []
  read_each sessions session (s ∷ streams) =
      joined (get_stream_data A sessions session s.name) (read_each sessions session streams)

  -- Reading a stream that is found gives its rows.
  pub rows-stream_slice :
      (t : Frame) (s : ReadStream) → rows (stream_slice A t s) ≡ rows_of (rows t) s
  rows-stream_slice t s = A.rows-slice t s.start_row (s.end_row - s.start_row)

  read_each-all_rows :
      (sessions : Dict Text (ReadSessionState Frame)) (state : ReadSessionState Frame)
      (streams : List ReadStream)
      → get sessions state.session_name ≡ some state
      → Distinct state.streams
      → ((s : ReadStream) → Member s streams → Member s state.streams)
      → read_each sessions state.session_name streams ≡ some (all_rows (rows state.table) streams)
  unfolding read_each joined get_stream_data data_of stream_of
  read_each-all_rows sessions state [] there d within = refl
  read_each-all_rows sessions state (s ∷ streams) there d within =
      let more = read_each-all_rows sessions state streams there d (λ t m. within t (inr m)) in
      rw
        (
          there,
          find_stream-Member s state.streams d (within s (inl refl)),
          more,
          rows-stream_slice state.table s,
        )
        refl

  -- The streams of a new session, read by their names one after the other, give the rows of the
  -- projected table, for any table, projection and number of streams asked for.
  pub create_read_session-read_each :
      (session_id project_id : Text) (t : Frame) (max_streams : ℕ) (fields : List Text)
      (format : DataFormat) (sessions : Dict Text (ReadSessionState Frame))
      → let new =
          create_read_session A session_id project_id t max_streams fields format sessions in
        read_each (new.0) (new.1).session_name (new.1).streams
        ≡ some (rows (project_columns A t fields))
  unfolding create_read_session build_streams
  create_read_session-read_each session_id project_id t max_streams fields format sessions =
      let p = project_columns A t fields in
      let name = session_name_of project_id session_id in
      let streams =
        build_streams name (compute_stream_layout (num_rows p) (nbytes p) max_streams).0
          (compute_stream_layout (num_rows p) (nbytes p) max_streams).1 (num_rows p) in
      read_each-all_rows
        (create_read_session A session_id project_id t max_streams fields format sessions).0
        (create_read_session A session_id project_id t max_streams fields format sessions).1 streams
        (get-put_self sessions name _) (streams_from-Distinct name _ (num_rows p) 0 _) (λ s m. m)
      ∙ ap some
          (rw (A.num_rows_lem p) (all_rows-build_streams name (nbytes p) max_streams (rows p)))
