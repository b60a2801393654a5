-- ===== src/Examples/Puts.antt =====
-- A resumable upload of three bytes in two chunks.
use bqemulator.Prelude.{
  ℕ, ◌≡◌, refl, true, false, some, [], ◌∷◌, Bool, Text, text, text_eq, list_beq, arith,
}
use bqemulator.Dict.{get, put}
use bqemulator.RowAccess.Strings.{drop_prefix, is_space, lstrip, rstrip}
use bqemulator.Numerals.{span_digits, of_digits, to_digits, digits_of}
use bqemulator.Uploads.ContentRange.{
  ok, raised, wrong_start, parse_content_range, extract_range_fields,
}
use bqemulator.Uploads.ContentRange.Printed.{content_range, parse-content_range}
use bqemulator.Uploads.Sessions.{
  Manager, UploadLimits, UploadSession, create_session, append_chunk, expired_ids, remove_sessions,
  is_upload_id,
}
use bqemulator.Uploads.Sound.{IsSound}
use bqemulator.Uploads.Calls.{created, appended, dropped, call_all, call_all-IsSound}
use bqemulator.Uploads.Chunks.{Piece, append_pieces, append_pieces-file, holds_total}

parse_with_spaces :
    parse_content_range (text " bytes  3-17/20 ")
    ≡ ok (record { start = some 3; end_inclusive = some 17; total = some 20 })
unfolding parse_content_range drop_prefix is_space lstrip rstrip span_digits of_digits
parse_with_spaces = refl

content_range-text : content_range 3 17 (some 20) ≡ text "bytes 3-17/20"
unfolding content_range to_digits digits_of
content_range-text = refl

parse-content_range_example :
    parse_content_range (content_range 3 17 (some 20))
    ≡ ok (record { start = some 3; end_inclusive = some 17; total = some 20 })
parse-content_range_example = parse-content_range 3 17 (some 20) (omega arith)

abbrev limits : UploadLimits
limits = record { max_bytes = 8; ttl = 60 }

abbrev upload : Text
upload = text "abcd0123"

abbrev empty : Manager Bool ℕ
empty = record { sessions = []; files = [] }

abbrev started : Manager Bool ℕ
started = (create_session upload (text "p") true 5 empty).0

abbrev first : Piece ℕ
first = record { bytes = 1 ∷ 2 ∷ []; content_range = some (text "bytes 0-1/3"); now = 6; later = 7 }

abbrev second : Piece ℕ
second = record { bytes = 3 ∷ []; content_range = some (text "bytes 2-2/3"); now = 8; later = 9 }

abbrev uploaded : UploadSession Bool
uploaded = record {
  project_id = text "p";
  configuration = true;
  received_bytes = 3;
  declared_total_bytes = some 3;
  finalized = false;
  created_at = 5;
  last_active_at = 9;
}

abbrev ended : Manager Bool ℕ
ended = record { sessions = (upload, uploaded) ∷ []; files = (upload, 1 ∷ 2 ∷ 3 ∷ []) ∷ [] }

append_pieces-ended :
    append_pieces limits upload (first ∷ []) second started ≡ ok (ended, uploaded, true)
unfolding append_pieces append_chunk create_session get put list_beq expired_ids remove_sessions
    is_upload_id extract_range_fields parse_content_range drop_prefix is_space lstrip rstrip
    span_digits of_digits
append_pieces-ended = refl

-- The second chunk does not come first.
append_chunk-refused :
    (append_chunk limits upload (3 ∷ []) (some (text "bytes 2-2/3")) 6 7 started).1
    ≡ raised (wrong_start 2 0)
unfolding append_chunk create_session get put list_beq expired_ids remove_sessions is_upload_id
    extract_range_fields parse_content_range drop_prefix is_space lstrip rstrip span_digits
    of_digits
append_chunk-refused = refl

empty-IsSound : IsSound limits empty
unfolding IsSound get
empty-IsSound id = tt

started-IsSound : IsSound limits started
unfolding call_all
started-IsSound =
    call_all-IsSound limits (created upload (text "p") true 5 ∷ []) empty empty-IsSound

started-file : get (started.files) upload ≡ some []
unfolding create_session get put list_beq
started-file = refl

call_all-IsSound_example : IsSound limits (
    call_all limits
      (created upload (text "p") true 5
        ∷ appended upload (1 ∷ 2 ∷ []) (some (text "bytes 0-1/3")) 6 7
        ∷ dropped upload
        ∷ [])
      empty)
call_all-IsSound_example =
    call_all-IsSound limits
      (created upload (text "p") true 5
        ∷ appended upload (1 ∷ 2 ∷ []) (some (text "bytes 0-1/3")) 6 7
        ∷ dropped upload
        ∷ [])
      empty empty-IsSound

append_pieces-file_example :
    (get (ended.files) upload ≡ some (1 ∷ 2 ∷ 3 ∷ [])) × (true ≡ holds_total (some 3) 3)
append_pieces-file_example =
    append_pieces-file limits upload (first ∷ []) second [] started ended uploaded true
      started-IsSound started-file append_pieces-ended
