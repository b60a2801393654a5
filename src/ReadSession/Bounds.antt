-- ===== src/ReadSession/Bounds.antt =====
-- streaming/read_session.py: the row ranges of the streams, after any calls.
use bqemulator.Prelude.{
  ℕ, zero, suc, ◌+◌, ◌-◌, ◌*◌, ◌≤◌, ◌≡◌, refl, inl, inr, Bool, true, false, Option, none, some,
  List, [], ◌∷◌, ◌++◌, arith, ltb, leb, if◌then◌else◌, Text, text_eq, ◌==◌, Bool-cases, ℤ, All,
}
use native.Mathlib.Nat.{suc-mul, add-mul, zero-mul}
use mathlib.Core.Path.{subst}
use bqemulator.Numerals.{to_digits}
use bqemulator.Dict.{Dict, get, put, get-put_cases}
use bqemulator.ReadSession.{
  ArrowTable, ReadStream, ReadSessionState, DataFormat, streams_from, build_streams, stream_name,
  find_stream, project_columns, create_read_session, compute_stream_layout, effective_streams,
  session_of_stream, session_name_of, split_streams, split_found, split_target, split_session,
  split_stream, chunk_of,
}
use bqemulator.ReadSession.Cover.{effective_streams-bounds, chunk-fits, streams_from-nil}
use bqemulator.ReadSession.Halves.{clamped_le}

-- A stream's rows are rows of a table with `rows` rows.
abbrev pub InRange : ℕ → ReadStream → Type 0
InRange rows s = (s.start_row ≤ s.end_row) × (s.end_row ≤ rows)

All-append : {A : Type 0} (P : A → Type 0) (xs ys : List A) → All P xs → All P ys → All P (xs ++ ys)
All-append P [] ys h k = k
All-append P (x ∷ xs) ys h k = (h.0, All-append P xs ys (h.1) k)

streams_from-InRange :
    (session : Text) (c rows i n : ℕ)
    → i * c + n * c ≤ rows
    → All (InRange rows) (streams_from session c rows i n)
unfolding streams_from
streams_from-InRange session c rows i zero fits = tt
streams_from-InRange session c rows i (suc n) fits =
    let next : (i + 1) * c ≡ i * c + c = omega (arith, add-mul i 1 c) in
    elim (Bool-cases (leb rows (i * c))) [
      | inl e ↦ rw e tt
      | inr e ↦ rw e (
        head (ltb 0 n) next,
        streams_from-InRange session c rows (i + 1) n (omega (arith, next, suc-mul n c)),
      )
    ]
  where
    head :
        (b : Bool)
        → (i + 1) * c ≡ i * c + c
        → InRange rows (record {
          name = stream_name session (to_digits i);
          start_row = i * c;
          end_row = if b then (i + 1) * c else rows;
        })
    head true next = (omega (arith, next), omega (arith, next, suc-mul n c))
    head false next = (omega (arith, fits), omega arith)

build_streams-InRange :
    (session : Text) (rows table_bytes max_streams : ℕ)
    → All (InRange rows) (
        build_streams session
          (compute_stream_layout rows table_bytes max_streams).0
          (compute_stream_layout rows table_bytes max_streams).1
          rows)
unfolding build_streams compute_stream_layout
build_streams-InRange session zero table_bytes max_streams =
    rw (streams_from-nil session _ 0 (effective_streams 0 table_bytes max_streams)) tt
build_streams-InRange session (suc n) table_bytes max_streams =
    let e = effective_streams (suc n) table_bytes max_streams in
    let (some_streams, few) =
      effective_streams-bounds (suc n) table_bytes max_streams (omega arith) in
    let (some_rows, within) = chunk-fits (suc n) e some_streams few in
    streams_from-InRange session (chunk_of (suc n) e) (suc n) 0 e
      (omega (arith, within, zero-mul (chunk_of (suc n) e)))

find_stream-All :
    (P : ReadStream → Type 0) (streams : List ReadStream) (name : Text) (s : ReadStream)
    → All P streams
    → find_stream streams name ≡ some s
    → P s
unfolding find_stream
find_stream-All P [] name s h e = cc
find_stream-All P (t ∷ streams) name s h e = elim (Bool-cases (t.name == name)) [
  | inl same ↦ subst P (found same) (h.0)
  | inr other ↦ find_stream-All P streams name s (h.1) (further other)
]
  where
    found : (t.name == name) ≡ true → t ≡ s
    found same = ground arith

    further : (t.name == name) ≡ false → find_stream streams name ≡ some s
    further other = ground arith

-- A call on the sessions, with the ids drawn and the product of each split.
pub data ReadRequest (F : Type 0) : Type 0 where
  created : Text → Text → F → ℕ → List Text → DataFormat → ReadRequest F
  halved : Text → (ℕ → Option ℤ) → Text → Text → ReadRequest F

module _ {R : Type 0} (A : ArrowTable R) where
  open A use {Frame, num_rows, nbytes}

  abbrev pub Sessions : Type 0
  Sessions = Dict Text (ReadSessionState Frame)

  unfoldable pub serve : ReadRequest Frame → Sessions → Sessions
  serve (created session_id project_id t max_streams fields format) sessions =
      (create_read_session A session_id project_id t max_streams fields format sessions).0
  serve (halved name scaled first second) sessions =
      (split_stream name scaled first second sessions).0

  unfoldable pub serve_all : List (ReadRequest Frame) → Sessions → Sessions
  unfolding serve
  serve_all [] sessions = sessions
  serve_all (r ∷ requests) sessions = serve_all requests (serve r sessions)

  abbrev pub Sound : ReadSessionState Frame → Type 0
  Sound state = All (InRange (num_rows state.table)) state.streams

  -- Every stream of every session.
  unfoldable pub AllSound : Sessions → Type 0
  AllSound sessions =
      (name : Text) (state : ReadSessionState Frame) → get sessions name ≡ some state → Sound state

  put-AllSound :
      (sessions : Sessions) (name : Text) (state : ReadSessionState Frame)
      → Sound state
      → AllSound sessions
      → AllSound (put sessions name state)
  unfolding AllSound
  put-AllSound sessions name state new h other found there =
      elim (get-put_cases sessions name other state found there) [
        | inl (same, e) ↦ subst Sound e new
        | inr before ↦ h other found before
      ]

  split_target-AllSound :
      (session first second : Text) (scaled : ℕ → Option ℤ) (state : ReadSessionState Frame)
      (sessions : Sessions) (o : Option ReadStream)
      → Sound state
      → ((target : ReadStream) → o ≡ some target → InRange (num_rows state.table) target)
      → AllSound sessions
      → AllSound (split_target session first second scaled state sessions o).0
  unfolding split_target split_found split_streams
  split_target-AllSound session first second scaled state sessions none sound range h = h
  split_target-AllSound session first second scaled state sessions (some target) sound range h =
      go (scaled (target.end_row - target.start_row))
    where
      go : (o : Option ℤ) → AllSound (split_found session first second target state sessions o).0
      go none = h
      go (some n) =
          let (ordered, fits) = range target refl in
          let few = clamped_le (target.end_row - target.start_row) n in
          put-AllSound sessions session _
            (All-append (InRange (num_rows state.table)) state.streams _ sound (
              (omega arith, omega (arith, ordered, fits, few)),
              ((omega (arith, ordered, few), omega (arith, fits)), tt),
            ))
            h

  split_session-AllSound :
      (session name first second : Text) (scaled : ℕ → Option ℤ) (sessions : Sessions)
      (o : Option (ReadSessionState Frame))
      → ((state : ReadSessionState Frame) → o ≡ some state → Sound state)
      → AllSound sessions
      → AllSound (split_session session name first second scaled sessions o).0
  unfolding split_session
  split_session-AllSound session name first second scaled sessions none sound h = h
  split_session-AllSound session name first second scaled sessions (some state) sound h =
      split_target-AllSound session first second scaled state sessions
        (find_stream state.streams name) (sound state refl)
        (λ target e.
          find_stream-All (InRange (num_rows state.table)) state.streams name target
            (sound state refl) e)
        h

  pub serve-AllSound :
      (r : ReadRequest Frame) (sessions : Sessions)
      → AllSound sessions
      → AllSound (serve r sessions)
  unfolding serve create_read_session split_stream AllSound
  serve-AllSound (created session_id project_id t max_streams fields format) sessions h =
      let p = project_columns A t fields in
      put-AllSound sessions (session_name_of project_id session_id) _
        (build_streams-InRange (session_name_of project_id session_id) (num_rows p) (nbytes p)
          max_streams)
        h
  serve-AllSound (halved name scaled first second) sessions h =
      split_session-AllSound (session_of_stream name) name first second scaled sessions
        (get sessions (session_of_stream name)) (λ state e. h (session_of_stream name) state e) h

  serve_all-AllSound :
      (requests : List (ReadRequest Frame)) (sessions : Sessions)
      → AllSound sessions
      → AllSound (serve_all requests sessions)
  unfolding serve_all
  serve_all-AllSound [] sessions h = h
  serve_all-AllSound (r ∷ requests) sessions h =
      serve_all-AllSound requests (serve r sessions) (serve-AllSound r sessions h)

  -- Whatever sessions are created and streams split from the empty store on, each stream of a session
  -- that is found has a range of rows of the session's table that does not end before it begins.
  pub serve_all-InRange :
      (requests : List (ReadRequest Frame)) (name : Text) (state : ReadSessionState Frame)
      → get (serve_all requests []) name ≡ some state
      → Sound state
  unfolding AllSound get
  serve_all-InRange requests = serve_all-AllSound requests [] empty
    where
      nothing : {state : ReadSessionState Frame} → none ≡ some state → ⊥
      nothing h = cc

      empty : AllSound []
      empty name state h = absurd (nothing h)
