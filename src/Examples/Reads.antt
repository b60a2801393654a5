-- ===== src/Examples/Reads.antt =====
-- A session on a table of five rows and the split of its stream.
use bqemulator.Prelude.{
  ℕ, ◌*◌, ◌≡◌, ◌≢◌, refl, some, none, List, [], ◌∷◌, ◌++◌, Text, text, text_eq, length, take, drop,
  list_beq, pos,
}
use bqemulator.Dict.{Dict, get, put}
use bqemulator.Numerals.{to_digits, digits_of}
use bqemulator.ReadSession.{
  ArrowTable, ReadStream, ReadSessionState, arrow, project_columns, create_read_session,
  compute_stream_layout, effective_streams, build_streams, streams_from, stream_name,
  session_name_of, get_stream_data, find_stream, session_of_stream, before_last_slash, split_stream,
  split_session, split_target, split_found, split_streams, split_into,
}
use bqemulator.ReadSession.Cover.{read_each, create_read_session-read_each}
use bqemulator.ReadSession.Halves.{split_stream-halves}
use bqemulator.ReadSession.Bounds.{
  Sound, created, halved, serve_all, serve, ReadRequest, serve_all-InRange,
}

-- Tables with one column, of 300000 bytes a row.
abbrev list_table : ArrowTable ℕ
list_table = record {
  Frame = List ℕ;
  column_names = λ t. text "n" ∷ [];
  num_rows = λ t. length t;
  nbytes = λ t. 300000 * length t;
  projected = λ cols t. t;
  slice = λ t offset n. take n (drop offset t);
  rows = λ t. t;
  num_rows_lem = λ t. refl;
  rows-slice = λ t offset n. refl;
}

abbrev five : List ℕ
five = 4 ∷ 8 ∷ 15 ∷ 16 ∷ 23 ∷ []

abbrev session : Text
session = text "projects/p/locations/US/sessions/1f"

layout : compute_stream_layout 5 1500000 3 ≡ (3, 1)
unfolding compute_stream_layout effective_streams
layout = refl

layout_small : compute_stream_layout 5 999999 3 ≡ (1, 5)
unfolding compute_stream_layout effective_streams
layout_small = refl

session_of : session_of_stream (stream_name session (text "0")) ≡ session
unfolding session_of_stream before_last_slash stream_name
session_of = refl

create_read_session-read_each_example :
    read_each list_table
      (create_read_session list_table (text "1f") (text "p") five 3 (text "n" ∷ []) arrow []).0
      session
      (create_read_session list_table
        (text "1f")
        (text "p")
        five
        3
        (text "n" ∷ [])
        arrow
        []).1.streams
    ≡ some (project_columns list_table five (text "n" ∷ []))
unfolding create_read_session session_name_of
create_read_session-read_each_example =
    create_read_session-read_each list_table (text "1f") (text "p") five 3 (text "n" ∷ []) arrow []

abbrev whole : ReadStream
whole = record { name = session ++ text "/streams/0"; start_row = 0; end_row = 5 }

abbrev state : ReadSessionState (List ℕ)
state = record { session_name = session; table = five; streams = whole ∷ []; data_format = arrow }

of_whole : session_of_stream whole.name ≡ session
unfolding session_of_stream before_last_slash
of_whole = refl

abbrev elsewhere : Text
elsewhere = text "projects/p/locations/US/sessions/2e"

abbrev other_state : ReadSessionState (List ℕ)
other_state = record {
  session_name = elsewhere;
  table = 42 ∷ [];
  streams = record { name = elsewhere ++ text "/streams/0"; start_row = 0; end_row = 1 } ∷ [];
  data_format = arrow;
}

abbrev two_sessions : Dict Text (ReadSessionState (List ℕ))
two_sessions = (elsewhere, other_state) ∷ (session, state) ∷ []

there : get two_sessions (session_of_stream whole.name) ≡ some state
unfolding get list_beq
there = rw of_whole refl

found : find_stream state.streams whole.name ≡ some whole
unfolding find_stream list_beq
found = refl

new_p : find_stream state.streams (stream_name (session_of_stream whole.name) (text "pa")) ≡ none
unfolding find_stream list_beq stream_name
new_p = rw of_whole refl

new_r : find_stream state.streams (stream_name (session_of_stream whole.name) (text "rb")) ≡ none
unfolding find_stream list_beq stream_name
new_r = rw of_whole refl

split_stream-halves_example :
    let name_p = stream_name (session_of_stream whole.name) (text "pa") in
    let name_r = stream_name (session_of_stream whole.name) (text "rb") in
    let after =
      split_stream whole.name (λ width. some (pos 2)) (text "a") (text "b") two_sessions in
    (a : List ℕ) × (b : List ℕ) × (after.1 ≡ split_into name_p name_r)
    × (get_stream_data list_table (after.0) (session_of_stream whole.name) name_p ≡ some a)
    × (get_stream_data list_table (after.0) (session_of_stream whole.name) name_r ≡ some b)
    × (a ++ b ≡ five)
    × ((reading other : Text)
        → (reading ≡ session_of_stream whole.name → (other ≢ name_p) × (other ≢ name_r))
        → get_stream_data list_table (after.0) reading other
          ≡ get_stream_data list_table two_sessions reading other)
split_stream-halves_example =
    split_stream-halves list_table whole.name (text "a") (text "b") (λ width. some (pos 2))
      two_sessions state whole (pos 2) there found refl new_p new_r

abbrev requests : List (ReadRequest (List ℕ))
requests =
    created (text "1f") (text "p") five 3 [] arrow
    ∷ halved (session ++ text "/streams/2") (λ width. some (pos 1)) (text "a") (text "b")
    ∷ []

abbrev three : List ReadStream
three =
    record { name = session ++ text "/streams/0"; start_row = 0; end_row = 1 }
    ∷ record { name = session ++ text "/streams/1"; start_row = 1; end_row = 2 }
    ∷ record { name = session ++ text "/streams/2"; start_row = 2; end_row = 5 }
    ∷ record { name = session ++ text "/streams/pa"; start_row = 2; end_row = 3 }
    ∷ record { name = session ++ text "/streams/rb"; start_row = 3; end_row = 5 }
    ∷ []

served :
    get (serve_all list_table requests []) session
    ≡ some (record { session_name = session; table = five; streams = three; data_format = arrow })
unfolding serve_all serve create_read_session project_columns session_name_of compute_stream_layout
    effective_streams build_streams streams_from stream_name to_digits digits_of put get list_beq
    split_stream session_of_stream before_last_slash find_stream split_session split_target
    split_found split_streams
served = refl

serve_all-InRange_example :
    Sound list_table
      (record { session_name = session; table = five; streams = three; data_format = arrow })
serve_all-InRange_example =
    serve_all-InRange list_table requests session
      (record { session_name = session; table = five; streams = three; data_format = arrow }) served
