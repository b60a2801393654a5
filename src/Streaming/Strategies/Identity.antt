-- ===== src/Streaming/Strategies/Identity.antt =====
-- What no call of a strategy changes: who the stream is.
use bqemulator.Prelude.{ℕ, ◌≡◌, Option, arith, ℤ}
use bqemulator.Streaming.Stream.{WriteStream, Table}
use bqemulator.Streaming.Strategies.{append, flush, commit}

pub record SameIdentity {R : Type 0} (s s' : WriteStream R) : Type 0 where
  pub name : s'.name ≡ s.name
  pub project_id : s'.project_id ≡ s.project_id
  pub dataset_id : s'.dataset_id ≡ s.dataset_id
  pub table_id : s'.table_id ≡ s.table_id
  pub stream_type : s'.stream_type ≡ s.stream_type
  pub metric_registered : s'.metric_registered ≡ s.metric_registered

module _ {R : Type 0} where
  pub append-SameIdentity :
      (s : WriteStream R) (rows : Table R) (offset : Option ℤ) (most : Option ℕ)
      → SameIdentity s (append s rows offset most).0
  unfolding append
  append-SameIdentity s rows offset most = ground arith

  pub flush-SameIdentity : (s : WriteStream R) (o : ℤ) → SameIdentity s (flush s o).0
  unfolding flush
  flush-SameIdentity s o = ground arith

  pub commit-SameIdentity : (s : WriteStream R) → SameIdentity s (commit s).0
  unfolding commit
  commit-SameIdentity s = ground arith
