-- ===== src/Streaming/Strategies/Retry.antt =====
-- Offsets, retries and caps of `append`, and the window of `flush`.
use bqemulator.Prelude.{
  ℕ, ◌+◌, ◌≤◌, ◌<◌, ◌≡◌, ◌≢◌, ◌↔◌, ◌⊎◌, true, Option, none, some, arith, length, concat, ℤ, pos,
  negsuc,
}
use bqemulator.Streaming.Stream.{StreamType, WriteStream, Table, opened}
use bqemulator.Streaming.Strategies.{append, flush, ok, already_exists}
use bqemulator.Streaming.Strategies.Sound.{IsSound, held-append}

module _ {R : Type 0} (s : WriteStream R) (rows : Table R) (offset : Option ℤ)
    (most : Option ℕ) where
  -- A refused append leaves the stream as it was and hands nothing over.
  pub append_refused :
      (append s rows offset most).1.status ≢ ok
      → ((append s rows offset most).0 ≡ s) × ((append s rows offset most).1.committed_rows ≡ none)
  unfolding append
  append_refused h = ground arith

  -- An accepted append echoes the old end of the stream and moves the end by the number of rows; it had
  -- no offset or just that end, and the stream is of kind DEFAULT or was open.
  pub append_accepted :
      (append s rows offset most).1.status ≡ ok
      → ((append s rows offset most).1.offset ≡ pos s.next_offset)
        × ((append s rows offset most).0.next_offset ≡ s.next_offset + length rows)
        × ((offset ≡ none) ⊎ (offset ≡ some (pos s.next_offset)))
        × ((s.stream_type ≡ StreamType.default) ⊎ (s.state ≡ opened))
  unfolding append
  append_accepted h = ground arith

-- An accepted append of some rows, repeated with its offset, is answered ALREADY_EXISTS, with nothing
-- changed and nothing handed over.
pub append_retry :
    {R : Type 0} (s : WriteStream R) (rows : Table R) (o : ℤ) (most again : Option ℕ)
    → (append s rows (some o) most).1.status ≡ ok
    → 0 < length rows
    → let s' = (append s rows (some o) most).0 in
      ((append s' rows (some o) again).1.status ≡ already_exists)
      × ((append s' rows (some o) again).0 ≡ s')
      × ((append s' rows (some o) again).1.committed_rows ≡ none)
unfolding append
append_retry s rows (pos o) most again h few = ground arith
append_retry s rows (negsuc o) most again h few = ground arith

-- With a cap set, an accepted append to a sound stream leaves a PENDING one with at most that many rows
-- in its buffer, and a BUFFERED one with at most that many beyond what is flushed.
pub append_capped :
    {R : Type 0} (s : WriteStream R) (rows : Table R) (offset : Option ℤ) (most : ℕ)
    → IsSound s
    → (append s rows offset (some most)).1.status ≡ ok
    → let s' = (append s rows offset (some most)).0 in
      (s.stream_type ≡ StreamType.pending → length (concat s'.buffer) ≤ most)
      × (s.stream_type ≡ StreamType.buffered → s'.next_offset ≤ most + s'.flushed_rows)
unfolding append
append_capped s rows offset most h a = ground (arith, held-append s.buffer rows)

-- On a sound stream, a flush to an offset that is not negative succeeds exactly if the stream is open and
-- BUFFERED and the offset is beyond what is flushed and not beyond the end.
pub flush_window :
    {R : Type 0} (s : WriteStream R) (o : ℕ)
    → IsSound s
    → ((flush s (pos o)).1.is_ok ≡ true) ↔ (
        (s.stream_type ≡ StreamType.buffered)
        × (s.state ≡ opened)
        × (s.flushed_rows < o)
        × (o ≤ s.next_offset))
unfolding flush
flush_window s o h = (λ p. ground (arith, h.buffered_holds_all), λ p. ground (arith))
