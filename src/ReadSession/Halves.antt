-- ===== src/ReadSession/Halves.antt =====
-- streaming/read_session.py: the two streams that a split leaves hold the rows of the stream split.
use bqemulator.Prelude.{
  ℕ, ◌+◌, ◌-◌, ◌≤◌, ◌≡◌, ◌≢◌, refl, sym, ap, ◌∙◌, inl, inr, true, false, Option, none, some, List,
  [], ◌∷◌, ◌++◌, drop, arith, Text, text_eq, ◌==◌, ==_refl, ==_iff, if◌then◌else◌, Bool-cases,
  take-append-take-drop, drop-drop, ℤ, pos, negsuc, different_of_ne,
}
use mathlib.Core.List.{head-eq_of_cons-eq}
use mathlib.Core.Path.{subst}
use bqemulator.Dict.{get-put, Dict, get, put, get-put_self}
use bqemulator.ReadSession.{
  ArrowTable, ReadStream, ReadSessionState, stream_name, find_stream, stream_slice, stream_of,
  data_of, get_stream_data, session_of_stream, clamped, split_streams, split_found, split_target,
  split_session, split_stream, split_into,
}
use bqemulator.ReadSession.Cover.{rows_of, rows-stream_slice, stream_name-injective}

pub clamped_le : (width : ℕ) (n : ℤ) → clamped width n ≤ width
clamped_le width (pos n) = ground arith
clamped_le width (negsuc n) = omega arith

-- What is found in front stays, and what is not found there is looked for behind.
find_stream-append :
    (before later : List ReadStream) (name : Text)
    → find_stream before name ≡ none
    → find_stream (before ++ later) name ≡ find_stream later name
unfolding find_stream
find_stream-append [] later name h = refl
find_stream-append (s ∷ before) later name h = elim (Bool-cases (s.name == name)) [
  | inl e ↦ absurd (found e)
  | inr e ↦ rw e (find_stream-append before later name (missing e))
]
  where
    found : (s.name == name) ≡ true → ⊥
    found e = ground arith

    missing : (s.name == name) ≡ false → find_stream before name ≡ none
    missing e = ground arith

find_stream-append_other :
    (p q : ReadStream) (before : List ReadStream) (name : Text)
    → (p.name == name) ≡ false
    → (q.name == name) ≡ false
    → find_stream (before ++ p ∷ q ∷ []) name ≡ find_stream before name
unfolding find_stream
find_stream-append_other p q [] name not_p not_q = rw (not_p, not_q) refl
find_stream-append_other p q (s ∷ before) name not_p not_q =
    ap (λ rest. if s.name == name then some s else rest)
      (find_stream-append_other p q before name not_p not_q)

module _ {R : Type 0} where
  rows_of-split :
      (xs : List R) (name first second : Text) (start end k : ℕ)
      → k ≤ end - start
      → rows_of xs (record { name = first; start_row = start; end_row = start + k })
          ++ rows_of xs (record { name = second; start_row = start + k; end_row = end })
        ≡ rows_of xs (record { name = name; start_row = start; end_row = end })
  rows_of-split xs name first second start end k h =
      let left : start + k - start ≡ k = omega arith in
      let right : k + (end - (start + k)) ≡ end - start = omega (arith, h) in
      rw
        (
          left,
          sym (drop-drop k start xs),
          take-append-take-drop k (end - (start + k)) (drop start xs),
          right,
        )
        refl

module _ (session first second : Text) (row : ℕ) (target : ReadStream)
    (streams : List ReadStream) where
  abbrev P : ReadStream
  P = record {
    name = stream_name session (b'p' ∷ first);
    start_row = target.start_row;
    end_row = row;
  }

  abbrev Q : ReadStream
  Q = record {
    name = stream_name session (b'r' ∷ second);
    start_row = row;
    end_row = target.end_row;
  }

  find_stream-split_first :
      find_stream streams P.name ≡ none
      → find_stream (split_streams session first second row target streams) P.name ≡ some P
  unfolding split_streams find_stream
  find_stream-split_first new =
      find_stream-append streams (P ∷ Q ∷ []) P.name new ∙ rw (==_refl P.name) refl

  find_stream-split_second :
      find_stream streams Q.name ≡ none
      → find_stream (split_streams session first second row target streams) Q.name ≡ some Q
  unfolding split_streams find_stream
  find_stream-split_second new =
      find_stream-append streams (P ∷ Q ∷ []) Q.name new
      ∙ rw (different_of_ne P.name Q.name apart, ==_refl Q.name) refl
    where
      apart : P.name ≢ Q.name
      apart same =
          let letters : b'p' ≡ b'r' =
            head-eq_of_cons-eq
              (stream_name-injective session (b'p' ∷ first) (b'r' ∷ second) same) in
          omega (arith, letters)

  -- No other name finds the new streams.
  find_stream-split_other :
      (other : Text)
      → other ≢ P.name
      → other ≢ Q.name
      → find_stream (split_streams session first second row target streams) other
        ≡ find_stream streams other
  unfolding split_streams
  find_stream-split_other other not_p not_q =
      find_stream-append_other P Q streams other (different_of_ne P.name other (λ e. not_p (sym e)))
        (different_of_ne Q.name other (λ e. not_q (sym e)))

module _ {R : Type 0} (A : ArrowTable R) where
  open A use {Frame, rows}

  -- The streams of a session after the split at `k` rows.
  get-put_streams :
      (sessions : Dict Text (ReadSessionState Frame)) (session name : Text)
      (state : ReadSessionState Frame)
      → get_stream_data A (put sessions session state) session name
        ≡ stream_of A state (find_stream state.streams name)
  unfolding get_stream_data data_of
  get-put_streams sessions session name state = rw (get-put_self sessions session state) refl

  -- Reading a stream looks at the rows of its session only.
  stream_of-streams :
      (state : ReadSessionState Frame) (streams : List ReadStream) (o : Option ReadStream)
      → stream_of A (record state { streams = streams }) o ≡ stream_of A state o
  unfolding stream_of
  stream_of-streams state streams none = refl
  stream_of-streams state streams (some s) = refl

  get_stream_data-put_other :
      (sessions : Dict Text (ReadSessionState Frame)) (session other name : Text)
      (state : ReadSessionState Frame)
      → (session == other) ≡ false
      → get_stream_data A (put sessions session state) other name
        ≡ get_stream_data A sessions other name
  unfolding get_stream_data
  get_stream_data-put_other sessions session other name state apart =
      rw (get-put sessions session other state, apart) refl

  get_stream_data-found :
      (sessions : Dict Text (ReadSessionState Frame)) (session name : Text)
      (state : ReadSessionState Frame)
      → get sessions session ≡ some state
      → get_stream_data A sessions session name ≡ stream_of A state (find_stream state.streams name)
  unfolding get_stream_data data_of
  get_stream_data-found sessions session name state there = rw there refl

  -- Reading any name of any session, but the two new names of this one, after the split.
  get_stream_data-split :
      (sessions : Dict Text (ReadSessionState Frame)) (session first second : Text) (row : ℕ)
      (target : ReadStream) (state : ReadSessionState Frame) (reading other : Text)
      → get sessions session ≡ some state
      → (reading ≡ session
          → (other ≢ stream_name session (b'p' ∷ first))
            × (other ≢ stream_name session (b'r' ∷ second)))
      → get_stream_data A
          (put sessions session (record state {
            streams = split_streams session first second row target state.streams;
          }))
          reading
          other
        ≡ get_stream_data A sessions reading other
  get_stream_data-split sessions session first second row target state reading other there old =
      elim (Bool-cases (session == reading)) [
        | inl e ↦
            let same : reading ≡ session = sym ((==_iff session reading).0 e) in
            let (not_p, not_q) = old same in
            subst
              (λ r.
                get_stream_data A (put sessions session state') r other
                ≡ get_stream_data A sessions r other)
              (sym same)
              (get-put_streams sessions session other state'
                ∙ ap (stream_of A state') (
                    find_stream-split_other session first second row target state.streams other
                      not_p not_q)
                ∙ stream_of-streams state streams' (find_stream state.streams other)
                ∙ sym (get_stream_data-found sessions session other state there))
        | inr apart ↦ get_stream_data-put_other sessions session reading other state' apart
      ]
    where
      streams' : List ReadStream
      streams' = split_streams session first second row target state.streams

      state' : ReadSessionState Frame
      state' = record state { streams = streams' }

  -- A split of a stream that is there, by a fraction with a finite product, leaves two streams under
  -- new names whose rows are, in order, those of the stream; every other name of the session, and every
  -- name of another session, reads as before, a name that is not there included.
  pub split_stream-halves :
      (name first second : Text) (scaled : ℕ → Option ℤ)
      (sessions : Dict Text (ReadSessionState Frame)) (state : ReadSessionState Frame)
      (target : ReadStream) (n : ℤ)
      → get sessions (session_of_stream name) ≡ some state
      → find_stream state.streams name ≡ some target
      → scaled (target.end_row - target.start_row) ≡ some n
      → find_stream state.streams (stream_name (session_of_stream name) (b'p' ∷ first)) ≡ none
      → find_stream state.streams (stream_name (session_of_stream name) (b'r' ∷ second)) ≡ none
      → let session = session_of_stream name in
        let after = split_stream name scaled first second sessions in
        (a : Frame) × (b : Frame) × (after.1
          ≡ split_into (stream_name session (b'p' ∷ first)) (stream_name session (b'r' ∷ second)))
        × (get_stream_data A (after.0) session (stream_name session (b'p' ∷ first)) ≡ some a)
        × (get_stream_data A (after.0) session (stream_name session (b'r' ∷ second)) ≡ some b)
        × (rows a ++ rows b ≡ rows (stream_slice A state.table target))
        × ((reading other : Text)
            → (reading ≡ session
                → (other ≢ stream_name session (b'p' ∷ first))
                  × (other ≢ stream_name session (b'r' ∷ second)))
            → get_stream_data A (after.0) reading other ≡ get_stream_data A sessions reading other)
  unfolding split_stream split_session split_target split_found split_streams stream_of
  split_stream-halves name first second scaled sessions state target n there found finite new_p
        new_r =
      let k = clamped (target.end_row - target.start_row) n in
      let session = session_of_stream name in
      let row = target.start_row + k in
      let state' = record state {
        streams = split_streams session first second row target state.streams;
      } in
      let p = P session first second row target state.streams in
      let q = Q session first second row target state.streams in
      rw (there, found, finite)
        (
          stream_slice A state.table p,
          stream_slice A state.table q,
          refl,
          get-put_streams sessions session p.name state'
              ∙ ap (stream_of A state')
                  (find_stream-split_first session first second row target state.streams new_p),
          get-put_streams sessions session q.name state'
              ∙ ap (stream_of A state')
                  (find_stream-split_second session first second row target state.streams new_r),
          rw
              (
                rows-stream_slice A state.table p,
                rows-stream_slice A state.table q,
                rows-stream_slice A state.table target,
              )
              (rows_of-split (rows state.table) target.name p.name q.name target.start_row
                target.end_row k (clamped_le (target.end_row - target.start_row) n)),
          (λ reading other old.
              get_stream_data-split sessions session first second row target state reading other
                there old),
        )
