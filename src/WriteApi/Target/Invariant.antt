-- ===== src/WriteApi/Target/Invariant.antt =====
-- FlushRows and BatchCommitWriteStreams keep the state consistent, and so does an insertion.
use bqemulator.Prelude.{
  ◌≡◌, refl, ◌∙◌, Bool, true, false, Option, none, some, List, [], ◌∷◌, arith, Text, text_eq,
  triple_eq, Bool-cases, inl, inr, ℤ,
}
use bqemulator.Dict.{get}
use bqemulator.Streaming.Stream.{StreamType, WriteStream, Table, same_type}
use bqemulator.Streaming.Strategies.{flush, commit}
use bqemulator.Streaming.Strategies.Sound.{IsSound, flush-IsSound, commit-IsSound}
use bqemulator.Streaming.Strategies.Identity.{SameIdentity, flush-SameIdentity, commit-SameIdentity}
use bqemulator.WriteApi.{Server, TargetStore}
use bqemulator.WriteApi.Handlers.{set_stream}
use bqemulator.WriteApi.Target.{
  flush_if_rows, flush_found, handle_flush_rows, commit_found, commit_one, commit_all, commit_next,
  commit_errors, StorageError, answer, handle_batch_commit_write_streams, or_raised,
}
use bqemulator.WriteApi.Consistent.{IsConsistent, IsConsistent-of_eq, set_stream-IsConsistent}

module _ {R : Type 0} (T : TargetStore R) where
  open T use {E}

  -- An insertion, complete or not, leaves the streams and the gauge alone.
  pub flush_if_rows-streams :
      (s : WriteStream R) (rows : Option (Table R)) (sv : Server R E)
      → ((flush_if_rows T s rows sv).1.streams ≡ sv.streams)
        × ((flush_if_rows T s rows sv).1.gauge ≡ sv.gauge)
  unfolding flush_if_rows
  flush_if_rows-streams s rows sv = ground arith

  pub flush_if_rows-IsConsistent :
      (s : WriteStream R) (rows : Option (Table R)) (sv : Server R E)
      → IsConsistent sv
      → IsConsistent (flush_if_rows T s rows sv).1
  flush_if_rows-IsConsistent s rows sv h =
      let (p, q) = flush_if_rows-streams s rows sv in
      IsConsistent-of_eq sv (flush_if_rows T s rows sv).1 p q h

  -- A stream is replaced by one of the same identity.
  pub replace-IsConsistent :
      (sv : Server R E) (n : Text) (s s' : WriteStream R)
      → IsConsistent sv
      → get sv.streams n ≡ some s
      → SameIdentity s s'
      → IsSound s'
      → IsConsistent (set_stream sv n s')
  replace-IsConsistent sv n s s' h f same sound =
      set_stream-IsConsistent sv n s s' h f sound (same.name ∙ (h.each n s f).1) same.stream_type
        same.metric_registered

  or_raised-IsConsistent :
      {A : Type 0} (a : A) (r : Bool × Server R E)
      → IsConsistent r.1
      → IsConsistent (or_raised T a r).1
  or_raised-IsConsistent a (true, sv) h = h
  or_raised-IsConsistent a (false, sv) h = h

  flush_found-IsConsistent :
      (found : Option (WriteStream R)) (name : Text) (o : ℤ) (sv : Server R E)
      → get sv.streams name ≡ found
      → IsConsistent sv
      → IsConsistent (flush_found T found name o sv).1
  unfolding flush_found
  flush_found-IsConsistent none name o sv f h = h
  flush_found-IsConsistent (some s) name o sv f h =
      let s' = (flush s o).0 in
      let k =
        replace-IsConsistent sv name s s' h f (flush-SameIdentity s o)
          (flush-IsSound s o (h.each name s f).0) in
      elim (Bool-cases (same_type s.stream_type StreamType.buffered)) [
        | inl b ↦ elim (Bool-cases (flush s o).1.is_ok) [
          | inl good ↦
              rw (b, good)
                (or_raised-IsConsistent (flush s o).1.offset
                  (flush_if_rows T s' (flush s o).1.committed_rows (set_stream sv name s'))
                  (flush_if_rows-IsConsistent s' (flush s o).1.committed_rows
                    (set_stream sv name s') k))
          | inr bad ↦ rw (b, bad) k
        ]
        | inr n ↦ rw n h
      ]

  pub handle_flush_rows-IsConsistent :
      (name : Text) (o : ℤ) (sv : Server R E)
      → IsConsistent sv
      → IsConsistent (handle_flush_rows T name o sv).1
  handle_flush_rows-IsConsistent name o sv h =
      unfold handle_flush_rows in flush_found-IsConsistent (get sv.streams name) name o sv refl h

  commit_found-IsConsistent :
      (found : Option (WriteStream R)) (name : Text) (sv : Server R E)
      → get sv.streams name ≡ found
      → IsConsistent sv
      → IsConsistent (commit_found T found name sv).1
  commit_found-IsConsistent none name sv f h = unfold commit_found in h
  commit_found-IsConsistent (some s) name sv f h =
      unfold commit_found in
      flush_if_rows-IsConsistent (commit s).0 (commit s).1.committed_rows
        (set_stream sv name (commit s).0)
        (replace-IsConsistent sv name s (commit s).0 h f (commit-SameIdentity s)
          (commit-IsSound s (h.each name s f).0))

  pub commit_one-IsConsistent :
      (name : Text) (sv : Server R E) → IsConsistent sv → IsConsistent (commit_one T name sv).1
  commit_one-IsConsistent name sv h =
      unfold commit_one in commit_found-IsConsistent (get sv.streams name) name sv refl h

  commit_next-IsConsistent :
      (r : Bool × Server R E) (rest : Server R E → Bool × Server R E)
      → IsConsistent r.1
      → (IsConsistent r.1 → IsConsistent (rest r.1).1)
      → IsConsistent (commit_next T r rest).1
  commit_next-IsConsistent (true, sv) rest h k = k h
  commit_next-IsConsistent (false, sv) rest h k = h

  commit_all-IsConsistent :
      (names : List Text) (sv : Server R E)
      → IsConsistent sv
      → IsConsistent (commit_all T names sv).1
  unfolding commit_all
  commit_all-IsConsistent [] sv h = h
  commit_all-IsConsistent (name ∷ names) sv h =
      commit_next-IsConsistent (commit_one T name sv) (commit_all T names)
        (commit_one-IsConsistent name sv h) (commit_all-IsConsistent names (commit_one T name sv).1)

  answer-IsConsistent :
      (es : List StorageError) (names : List Text) (sv : Server R E)
      → IsConsistent sv
      → IsConsistent (answer T es names sv).1
  unfolding answer
  answer-IsConsistent (e ∷ es) names sv h = h
  answer-IsConsistent [] names sv h =
      or_raised-IsConsistent [] (commit_all T names sv) (commit_all-IsConsistent names sv h)

  pub handle_batch_commit_write_streams-IsConsistent :
      (names : List Text) (sv : Server R E)
      → IsConsistent sv
      → IsConsistent (handle_batch_commit_write_streams T names sv).1
  handle_batch_commit_write_streams-IsConsistent names sv h =
      unfold handle_batch_commit_write_streams in
      answer-IsConsistent (commit_errors sv.streams names) names sv h
