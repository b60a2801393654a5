-- ===== src/Streaming/Strategies/Delivery.antt =====
-- What reaches the target table over a whole life of a stream, against the rows that it accepted.
use bqemulator.Prelude.{
  ℕ, ◌-◌, ◌≡◌, ◌≢◌, refl, sym, Bool, true, false, Option, none, some, List, [], ◌∷◌, ◌++◌, arith,
  length, take, concat, concat-append, length-append, append-nil, take-append_le,
  take-append-take-drop, if◌then◌else◌, ℤ, pos_part,
}
use bqemulator.Streaming.Stream.{
  StreamType, StreamState, WriteStream, Table, opened, finalized, batch_committed, new_stream,
}
use bqemulator.Streaming.Strategies.{AppendStatus, append, flush, commit, concat_buffer}
use bqemulator.Streaming.Strategies.Sound.{IsSound, append-IsSound, flush-IsSound}

abbrev pub rows_of : {R : Type 0} → Option (Table R) → Table R
rows_of none = []
rows_of (some t) = t

abbrev pub is_ok : AppendStatus → Bool
is_ok AppendStatus.ok = true
is_ok _ = false

-- A call on a stream: those of the strategies, and the finalization of an open stream that is not
-- a DEFAULT one.
pub data Call (R : Type 0) : Type 0 where
  append_rows : Table R → Option ℤ → Option ℕ → Call R
  flush_rows : ℤ → Call R
  batch_commit : Call R
  finalize : Call R

-- The stream, the rows that it has accepted, and the rows handed over for insertion.
pub record Session (R : Type 0) : Type 0 where
  pub stream : WriteStream R
  pub accepted : List R
  pub delivered : List R

abbrev can_finalize : StreamType → StreamState → Bool
can_finalize StreamType.default s = false
can_finalize StreamType.committed opened = true
can_finalize StreamType.pending opened = true
can_finalize StreamType.buffered opened = true
can_finalize _ _ = false

module _ {R : Type 0} where
  unfoldable pub call : Session R → Call R → Session R
  call c (append_rows rows offset most) =
      let (s, outcome) = append c.stream rows offset most in
      record {
        stream = s;
        accepted = c.accepted ++ (if is_ok outcome.status then rows else []);
        delivered = c.delivered ++ rows_of outcome.committed_rows;
      }
  call c (flush_rows o) =
      let (s, outcome) = flush c.stream o in
      record c { stream = s; delivered = c.delivered ++ rows_of outcome.committed_rows }
  call c batch_commit =
      let (s, outcome) = commit c.stream in
      record c { stream = s; delivered = c.delivered ++ rows_of outcome.committed_rows }
  call c finalize =
      if can_finalize c.stream.stream_type c.stream.state
      then record c { stream = record c.stream { state = finalized } }
      else c

  unfoldable pub calls : Session R → List (Call R) → Session R
  calls c [] = c
  calls c (x ∷ xs) = calls (call c x) xs

  -- The abstract view: which of the accepted rows the kind of the stream lets through.
  abbrev pub visible : StreamType → StreamState → ℕ → List R → List R
  visible StreamType.default state flushed log = log
  visible StreamType.committed state flushed log = log
  visible StreamType.pending opened flushed log = []
  visible StreamType.pending finalized flushed log = []
  visible StreamType.pending batch_committed flushed log = log
  visible StreamType.buffered state flushed log = take flushed log

  pub record Tracks (c : Session R) : Type 0 where
    pub sound : IsSound c.stream
    pub counts : length c.accepted ≡ c.stream.next_offset
    pub holds_pending :
        c.stream.stream_type ≡ StreamType.pending
        → c.stream.state ≢ batch_committed
        → concat c.stream.buffer ≡ c.accepted
    pub holds_buffered :
        c.stream.stream_type ≡ StreamType.buffered → concat c.stream.buffer ≡ c.accepted
    pub delivers :
        c.delivered ≡ visible c.stream.stream_type c.stream.state c.stream.flushed_rows c.accepted

  pub rows_of-concat_buffer : (ts : List (Table R)) → rows_of (concat_buffer ts) ≡ concat ts
  unfolding concat_buffer
  rows_of-concat_buffer [] = refl
  rows_of-concat_buffer (t ∷ []) = sym (append-nil t)
  rows_of-concat_buffer (t ∷ u ∷ ts) = refl

  append-Tracks :
      (c : Session R) (rows : Table R) (offset : Option ℤ) (most : Option ℕ)
      → Tracks c
      → Tracks (call c (append_rows rows offset most))
  unfolding call append
  append-Tracks c rows offset most h = record {
    sound = unfold append call in append-IsSound c.stream rows offset most h.sound;
    counts = ground (arith, length-append {0} c.accepted rows, append-nil c.accepted);
    holds_pending = ground (arith, concat-append c.stream.buffer rows, append-nil c.accepted);
    holds_buffered = ground (arith, concat-append c.stream.buffer rows, append-nil c.accepted);
    delivers = ground (
      arith,
      append-nil c.accepted,
      append-nil c.delivered,
      take-append_le c.stream.flushed_rows c.accepted rows,
    );
  }

  flush-Tracks : (c : Session R) (o : ℤ) → Tracks c → Tracks (call c (flush_rows o))
  unfolding call flush
  flush-Tracks c o h = record {
    sound = flush-IsSound c.stream o h.sound;
    counts = ground arith;
    holds_pending = ground arith;
    holds_buffered = ground arith;
    delivers = ground (
      arith,
      append-nil c.delivered,
      take-append-take-drop c.stream.flushed_rows (pos_part o - c.stream.flushed_rows) c.accepted,
    );
  }

  commit-Tracks : (c : Session R) → Tracks c → Tracks (call c batch_commit)
  unfolding call commit
  commit-Tracks c h = ground (arith, append-nil c.delivered, rows_of-concat_buffer c.stream.buffer)

  finalize-Tracks : (c : Session R) → Tracks c → Tracks (call c finalize)
  unfolding call
  finalize-Tracks c h = ground arith

  call-Tracks : (c : Session R) (x : Call R) → Tracks c → Tracks (call c x)
  call-Tracks c (append_rows rows offset most) h = append-Tracks c rows offset most h
  call-Tracks c (flush_rows o) h = flush-Tracks c o h
  call-Tracks c batch_commit h = commit-Tracks c h
  call-Tracks c finalize h = finalize-Tracks c h

  calls-Tracks : (c : Session R) (xs : List (Call R)) → Tracks c → Tracks (calls c xs)
  unfolding calls
  calls-Tracks c [] h = h
  calls-Tracks c (x ∷ xs) h = calls-Tracks (call c x) xs (call-Tracks c x h)

  -- A session on a stream that has just been created.
  abbrev pub start : WriteStream R → Session R
  start s = record { stream = s; accepted = []; delivered = [] }

  pub start-Tracks : (n p d t : List ℕ) (k : StreamType) → Tracks (start (new_stream n p d t k))
  start-Tracks n p d t k = ground arith

-- From its creation on, and whatever calls it gets, a stream hands over for insertion exactly the
-- rows that its kind shows: all that it accepted (DEFAULT, COMMITTED), all or none of them as the
-- batch commit has or has not happened (PENDING), or the first `flushed_rows` (BUFFERED);
-- `next_offset` is the number of rows that it accepted.
pub delivered-eq-visible :
    {R : Type 0} (n p d t : List ℕ) (k : StreamType) (xs : List (Call R))
    → let c = calls (start (new_stream n p d t k)) xs in
      (c.delivered ≡ visible c.stream.stream_type c.stream.state c.stream.flushed_rows c.accepted)
      × (length c.accepted ≡ c.stream.next_offset)
delivered-eq-visible n p d t k xs =
    let h = calls-Tracks (start (new_stream n p d t k)) xs (start-Tracks n p d t k) in
    (h.delivers, h.counts)
