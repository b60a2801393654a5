-- ===== src/WriteApi/Runs.antt =====
-- Runs of the Storage Write API: any calls, in any order, with the requests of any number of
-- AppendRows connections between them.
use bqemulator.Prelude.{◌≡◌, refl, some, List, [], Text, text_eq, triple_eq, ℤ, pos}
use bqemulator.Dict.{Dict, get}
use bqemulator.Streaming.Stream.{StreamType, WriteStream}
use bqemulator.Streaming.Strategies.Sound.{IsSound}
use bqemulator.WriteApi.{Server, TargetStore, TableKey, TableMeta}
use bqemulator.WriteApi.Handlers.{
  ProtoType, handle_create_write_stream, handle_get_write_stream, handle_finalize_write_stream,
}
use bqemulator.WriteApi.Handlers.Invariant.{
  handle_create_write_stream-IsConsistent, handle_get_write_stream-IsConsistent,
  handle_finalize_write_stream-IsConsistent,
}
use bqemulator.WriteApi.Target.{handle_flush_rows, handle_batch_commit_write_streams}
use bqemulator.WriteApi.Target.Invariant.{
  handle_flush_rows-IsConsistent, handle_batch_commit_write_streams-IsConsistent,
}
use bqemulator.WriteApi.Append.{Codec, Connection, Request, append_request}
use bqemulator.WriteApi.Append.Invariant.{append_request-IsConsistent}
use bqemulator.WriteApi.Consistent.{IsConsistent, registered}

module _ {R S P : Type 0} (T : TargetStore R) (C : Codec R S P) where
  open T use {E}

  -- One call, or one request of a connection in any state of its own. Between the steps the catalog
  -- and the database may change at will.
  pub data Step (sv : Server R E) : Server R E → Type 0 where
    create_stream :
        (parent : Text) (k : ProtoType) (i : Text)
        → Step sv (handle_create_write_stream parent k i sv).1
    get_stream : (name : Text) → Step sv (handle_get_write_stream name sv).1
    finalize_stream : (name : Text) → Step sv (handle_finalize_write_stream name sv).1
    flush_rows : (name : Text) (o : ℤ) → Step sv (handle_flush_rows T name o sv).1
    batch_commit : (names : List Text) → Step sv (handle_batch_commit_write_streams T names sv).1
    append_rows : (q : Request S P) (c : Connection S) → Step sv (append_request T C q c sv).2
    outside :
        (tables : Dict TableKey TableMeta) (e : E)
        → Step sv (record sv { tables = tables; store = e })

  pub data Run (sv : Server R E) : Server R E → Type 0 where
    here : Run sv sv
    next : {a b : Server R E} → Run sv a → Step a b → Run sv b

  Step-IsConsistent : {a b : Server R E} → Step a b → IsConsistent a → IsConsistent b
  Step-IsConsistent {a} (create_stream parent k i) h =
      handle_create_write_stream-IsConsistent parent k i a h
  Step-IsConsistent {a} (get_stream name) h = handle_get_write_stream-IsConsistent name a h
  Step-IsConsistent {a} (finalize_stream name) h =
      handle_finalize_write_stream-IsConsistent name a h
  Step-IsConsistent {a} (flush_rows name o) h = handle_flush_rows-IsConsistent T name o a h
  Step-IsConsistent {a} (batch_commit names) h =
      handle_batch_commit_write_streams-IsConsistent T names a h
  Step-IsConsistent {a} (append_rows q c) h = append_request-IsConsistent T C q c a h
  Step-IsConsistent {a} (outside tables e) h = record { each = h.each; balanced = h.balanced }

  Run-IsConsistent : {a b : Server R E} → IsConsistent a → Run a b → IsConsistent b
  Run-IsConsistent h here = h
  Run-IsConsistent h (next r s) = Step-IsConsistent s (Run-IsConsistent h r)

  -- The servicer at its start: no streams, every gauge at 0.
  abbrev pub fresh : Dict TableKey TableMeta → E → Server R E
  fresh tables e = record { streams = []; gauge = λ k. pos 0; tables = tables; store = e }

  fresh-IsConsistent : (tables : Dict TableKey TableMeta) (e : E) → IsConsistent (fresh tables e)
  fresh-IsConsistent tables e = record {
    each = λ n s h. unfold get in cc;
    balanced = λ k. unfold registered in refl;
  }

  -- After any run from the start, the gauge of every kind is exactly the number of streams of that
  -- kind that are registered with it, and every stream is sound and stands under its own name.
  pub gauge-eq-registered :
      (tables : Dict TableKey TableMeta) (e : E) {sv : Server R E}
      → Run (fresh tables e) sv
      → ((k : StreamType) → sv.gauge k ≡ pos (registered k sv.streams))
        × ((n : Text) (s : WriteStream R) → get sv.streams n ≡ some s → IsSound s × (s.name ≡ n))
  gauge-eq-registered tables e r =
      let h = Run-IsConsistent (fresh-IsConsistent tables e) r in (h.balanced, h.each)
