-- ===== src/Examples/Streams.antt =====
-- Streams and strategies.
use bqemulator.Prelude.{
  ℕ, ◌≡◌, ◌<◌, ◌≤◌, ◌↔◌, ◌+◌, refl, true, none, some, List, [], ◌∷◌, arith, text, list_beq, length,
  concat, pos,
}
use bqemulator.Identifiers.{all_chars}
use bqemulator.Streaming.Stream.{StreamType, WriteStream, new_stream, opened}
use bqemulator.Streaming.Strategies.{append, flush, commit, already_exists}
use bqemulator.Streaming.Strategies.Sound.{IsSound, new_stream-IsSound}
use bqemulator.Streaming.Strategies.Retry.{
  append_refused, append_retry, append_capped, flush_window,
}
use bqemulator.Streaming.Strategies.Delivery.{
  Call, append_rows, flush_rows, batch_commit, finalize, call, calls, start, visible,
  delivered-eq-visible,
}
use bqemulator.Streaming.Names.{
  IsPlain, build_stream_name, parse_stream_name, is_valid_stream_name, parse-build_stream_name,
}

abbrev fresh : StreamType → WriteStream ℕ
fresh k = new_stream (text "s") (text "p") (text "d") (text "t") k

abbrev script : List (Call ℕ)
script =
    append_rows (1 ∷ 2 ∷ []) (some (pos 0)) none
    ∷ append_rows (9 ∷ []) (some (pos 0)) none
    ∷ append_rows (3 ∷ []) none (some 3)
    ∷ flush_rows (pos 2)
    ∷ finalize
    ∷ batch_commit
    ∷ []

buffered_script : (calls (start (fresh StreamType.buffered)) script).delivered ≡ 1 ∷ 2 ∷ []
unfolding calls call append flush commit
buffered_script = refl

pending_script : (calls (start (fresh StreamType.pending)) script).delivered ≡ 1 ∷ 2 ∷ 3 ∷ []
unfolding calls call append flush commit
pending_script = refl

delivered-eq-visible_example :
    let c = calls (start (fresh StreamType.buffered)) script in
    (c.delivered ≡ visible c.stream.stream_type c.stream.state c.stream.flushed_rows c.accepted)
    × (length c.accepted ≡ c.stream.next_offset)
delivered-eq-visible_example =
    delivered-eq-visible (text "s") (text "p") (text "d") (text "t") StreamType.buffered script

append_retry_example :
    let s' = (append (fresh StreamType.committed) (7 ∷ []) (some (pos 0)) none).0 in
    ((append s' (7 ∷ []) (some (pos 0)) none).1.status ≡ already_exists)
    × ((append s' (7 ∷ []) (some (pos 0)) none).0 ≡ s')
    × ((append s' (7 ∷ []) (some (pos 0)) none).1.committed_rows ≡ none)
append_retry_example =
    append_retry (fresh StreamType.committed) (7 ∷ []) (pos 0) none none (unfold append in refl)
      (omega arith)

append_refused_example :
    ((append (fresh StreamType.default) (7 ∷ []) (some (pos 0)) none).0 ≡ fresh StreamType.default)
    × ((append (fresh StreamType.default) (7 ∷ []) (some (pos 0)) none).1.committed_rows ≡ none)
append_refused_example =
    append_refused (fresh StreamType.default) (7 ∷ []) (some (pos 0)) none
      (unfold append in λ e. cc)

append_capped_example :
    let s' = (append (fresh StreamType.pending) (7 ∷ 8 ∷ []) none (some 2)).0 in
    (StreamType.pending ≡ StreamType.pending → length (concat s'.buffer) ≤ 2)
    × (StreamType.pending ≡ StreamType.buffered → s'.next_offset ≤ 2 + s'.flushed_rows)
append_capped_example =
    append_capped (fresh StreamType.pending) (7 ∷ 8 ∷ []) none 2
      (new_stream-IsSound (text "s") (text "p") (text "d") (text "t") StreamType.pending)
      (unfold append in refl)

abbrev loaded : WriteStream ℕ
loaded =
    (calls (start (fresh StreamType.buffered)) (append_rows (1 ∷ 2 ∷ []) none none ∷ [])).stream

loaded-IsSound : IsSound loaded
unfolding calls call append
loaded-IsSound = ground arith

flush_window_example : ((flush loaded (pos 2)).1.is_ok ≡ true) ↔ (
    (loaded.stream_type ≡ StreamType.buffered)
    × (loaded.state ≡ opened)
    × (loaded.flushed_rows < 2)
    × (2 ≤ loaded.next_offset))
flush_window_example = flush_window loaded 2 loaded-IsSound

plain :
    IsPlain (text "my-project")
    × IsPlain (text "sales")
    × IsPlain (text "orders")
    × IsPlain (text "0123456789abcdef")
unfolding all_chars
plain = (refl, refl, refl, refl)

parse-build_stream_name_example :
    parse_stream_name (
      build_stream_name
        (text "my-project")
        (text "sales")
        (text "orders")
        (text "0123456789abcdef"))
    ≡ some (text "my-project", text "sales", text "orders", text "0123456789abcdef")
parse-build_stream_name_example =
    parse-build_stream_name (text "my-project") (text "sales") (text "orders")
      (text "0123456789abcdef") plain.0 plain.1 plain.2 plain.3

-- A newline behind the stream id passes the check of the name's shape.
valid_with_newline :
    is_valid_stream_name (text "projects/p/datasets/d/tables/t/streams/_default\n") ≡ true
unfolding is_valid_stream_name list_beq
valid_with_newline = refl
