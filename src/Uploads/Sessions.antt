-- ===== src/Uploads/Sessions.antt =====
-- jobs/upload_session_manager.py: UploadSessionManager. The staging file of a session is the one under its
-- id; the clock's readings and the new ids are arguments; a lock is held where a call is one step.
use bqemulator.Prelude.{
  ℕ, ◌+◌, Bool, true, false, ◌&&◌, not, Option, none, some, List, [], ◌∷◌, ◌++◌, length, ltb, leb,
  nat_eq, if◌then◌else◌, Text, text_eq,
}
use bqemulator.Identifiers.{is_word_dash, all_chars, drop_final_newline}
use bqemulator.Dict.{Dict, get, has, put, remove}
use bqemulator.Uploads.ContentRange.{
  not_found, file_exists, wrong_start, other_total, size_exceeded, Checked, ok, raised, ◌>>◌,
  raise_if, or_zero, Range, extract_range_fields,
}

-- UploadSession, `C` being the load configuration.
pub record UploadSession (C : Type 0) : Type 0 where
  pub project_id : Text
  pub configuration : C
  pub received_bytes : ℕ
  pub declared_total_bytes : Option ℕ
  pub finalized : Bool
  pub created_at : ℕ
  pub last_active_at : ℕ

-- The sessions of UploadSessionManager and the staging files, of bytes `B`.
pub record Manager (C B : Type 0) : Type 0 where
  pub sessions : Dict Text (UploadSession C)
  pub files : Dict Text (List B)

-- The settings of UploadSessionManager.
pub record UploadLimits : Type 0 where
  pub max_bytes : ℕ
  pub ttl : ℕ

-- _UPLOAD_ID_RE
unfoldable pub is_upload_id : Text → Bool
unfolding is_word_dash all_chars drop_final_newline
is_upload_id s =
    let id = drop_final_newline s in
    all_chars is_word_dash id && (leb 8 (length id) && leb (length id) 64)

abbrev pub differs : Option ℕ → ℕ → Bool
differs none n = false
differs (some start) n = not (nat_eq start n)

abbrev pub exceeds : Option ℕ → ℕ → Bool
exceeds none n = false
exceeds (some total) n = ltb n total

abbrev pub reaches_end : Option ℕ → Option ℕ → Bool
reaches_end none total = false
reaches_end (some e) none = false
reaches_end (some e) (some total) = nat_eq (e + 1) total

abbrev pub complete_by : Option ℕ → ℕ → Range → Bool
complete_by (some total) received r = leb total received
complete_by none received r = reaches_end r.end_inclusive r.total

module _ {C : Type 0} where
  abbrev pub is_expired : UploadLimits → ℕ → UploadSession C → Bool
  is_expired l now s = ltb (s.last_active_at + l.ttl) now

  unfoldable pub expired_ids : UploadLimits → ℕ → Dict Text (UploadSession C) → List Text
  expired_ids l now [] = []
  expired_ids l now ((id, s) ∷ d) =
      let rest = expired_ids l now d in if is_expired l now s then id ∷ rest else rest

  unfoldable pub session_ids : Dict Text (UploadSession C) → List Text
  session_ids [] = []
  session_ids ((id, s) ∷ d) = id ∷ session_ids d

  abbrev pub found_session : Text → Option (UploadSession C) → Checked (UploadSession C)
  found_session id none = raised (not_found id)
  found_session id (some s) = ok s

  -- _verify_offset_matches
  unfoldable pub verify_offset_matches : UploadSession C → Option ℕ → Checked (Unit {0})
  verify_offset_matches s start =
      raise_if (differs start s.received_bytes) (wrong_start (or_zero start) s.received_bytes)

  -- _verify_size_caps, of a chunk of so many bytes
  unfoldable pub verify_size_caps :
      UploadLimits → UploadSession C → ℕ → Option ℕ → Checked (Unit {0})
  verify_size_caps l s n declared_total = do
    let prospective = s.received_bytes + n
    raise_if (ltb l.max_bytes prospective) (size_exceeded prospective l.max_bytes)
    raise_if (exceeds declared_total l.max_bytes)
        (size_exceeded (or_zero declared_total) l.max_bytes)

  unfoldable pub reconciled : UploadSession C → Option ℕ → Option ℕ → Checked (UploadSession C)
  reconciled s none known = ok s
  reconciled s (some total) none = ok (record s { declared_total_bytes = some total })
  reconciled s (some total) (some known) = do
    raise_if (not (nat_eq known total)) (other_total total known)
    ok s

  -- _reconcile_declared_total
  unfoldable pub reconcile_declared_total : UploadSession C → Option ℕ → Checked (UploadSession C)
  unfolding reconciled
  reconcile_declared_total s declared_total = reconciled s declared_total s.declared_total_bytes

  -- _is_session_complete
  unfoldable pub is_session_complete : UploadSession C → Range → Bool
  is_session_complete s r = complete_by s.declared_total_bytes s.received_bytes r

  -- The checks of append, and the session after them.
  unfoldable pub verified : UploadLimits → UploadSession C → ℕ → Range → Checked (UploadSession C)
  unfolding verify_offset_matches verify_size_caps reconcile_declared_total
  verified l s n r = do
    verify_offset_matches s r.start
    verify_size_caps l s n r.total
    reconcile_declared_total s r.total

module _ {B : Type 0} where
  abbrev pub content_of : Option (List B) → List B
  content_of none = []
  content_of (some bytes) = bytes

  -- The files that _write_chunk leaves: opening for append makes a file that is missing.
  unfoldable pub written : Text → List B → Dict Text (List B) → Dict Text (List B)
  written id [] files = files
  written id (b ∷ chunk) files = put files id (content_of (get files id) ++ b ∷ chunk)

module _ {C B : Type 0} where
  -- remove
  unfoldable pub remove_session : Text → Manager C B → Manager C B
  remove_session id m =
      if has m.sessions id
      then record { sessions = remove m.sessions id; files = remove m.files id }
      else m

  unfoldable pub remove_sessions : List Text → Manager C B → Manager C B
  unfolding remove_session
  remove_sessions [] m = m
  remove_sessions (id ∷ ids) m = remove_sessions ids (remove_session id m)

  -- _evict_expired
  unfoldable pub evict_expired : UploadLimits → ℕ → Manager C B → Manager C B
  unfolding remove_sessions expired_ids
  evict_expired l now m = remove_sessions (expired_ids l now m.sessions) m

  -- clear
  unfoldable pub clear_sessions : Manager C B → Manager C B
  unfolding remove_sessions session_ids
  clear_sessions m = remove_sessions (session_ids m.sessions) m

  -- create, with the id that uuid4 gives
  unfoldable pub create_session :
      Text → Text → C → ℕ → Manager C B → Manager C B × Checked (UploadSession C)
  create_session id project_id configuration now m =
      let s : UploadSession C = record {
        project_id = project_id;
        configuration = configuration;
        received_bytes = 0;
        declared_total_bytes = none;
        finalized = false;
        created_at = now;
        last_active_at = now;
      } in
      if has m.files id
      then (m, raised file_exists)
      else (record { sessions = put m.sessions id s; files = put m.files id [] }, ok s)

  -- get and status
  unfoldable pub get_session :
      UploadLimits → Text → ℕ → Manager C B → Manager C B × Checked (UploadSession C)
  unfolding is_upload_id evict_expired
  get_session l id now m =
      let m' = evict_expired l now m in
      if is_upload_id id
      then (m', found_session id (get m'.sessions id))
      else (m, raised (not_found id))

  -- What append leaves behind once its checks have passed.
  unfoldable pub stored_chunk :
      Text
      → List B
      → Range
      → ℕ
      → UploadSession C
      → Manager C B
      → Manager C B × Checked (UploadSession C × Bool)
  unfolding written is_session_complete
  stored_chunk id chunk r later s m =
      let s' : UploadSession C = record s {
        received_bytes = s.received_bytes + length chunk;
        last_active_at = later;
      } in
      (
        record { sessions = put m.sessions id s'; files = written id chunk m.files },
        ok (s', is_session_complete s' r),
      )

  abbrev pub append_verified :
      Text
      → List B
      → Range
      → ℕ
      → Checked (UploadSession C)
      → Manager C B
      → Manager C B × Checked (UploadSession C × Bool)
  append_verified id chunk r later (raised e) m = (m, raised e)
  append_verified id chunk r later (ok s) m = stored_chunk id chunk r later s m

  abbrev pub append_ranged :
      UploadLimits
      → Text
      → List B
      → Checked Range
      → ℕ
      → UploadSession C
      → Manager C B
      → Manager C B × Checked (UploadSession C × Bool)
  append_ranged l id chunk (raised e) later s m = (m, raised e)
  append_ranged l id chunk (ok r) later s m =
      append_verified id chunk r later (verified l s (length chunk) r) m

  abbrev pub append_found :
      UploadLimits
      → Text
      → List B
      → Option Text
      → ℕ
      → Manager C B × Checked (UploadSession C)
      → Manager C B × Checked (UploadSession C × Bool)
  append_found l id chunk content_range later (m, raised e) = (m, raised e)
  append_found l id chunk content_range later (m, ok s) =
      append_ranged l id chunk (extract_range_fields content_range) later s m

  -- append: the clock is read as `now` by the lookup and as `later` at the end.
  unfoldable pub append_chunk :
      UploadLimits
      → Text
      → List B
      → Option Text
      → ℕ
      → ℕ
      → Manager C B
      → Manager C B × Checked (UploadSession C × Bool)
  unfolding get_session verified stored_chunk
  append_chunk l id chunk content_range now later m =
      append_found l id chunk content_range later (get_session l id now m)

  -- finalize
  abbrev pub finalize_session_found :
      Text → ℕ → Manager C B × Checked (UploadSession C) → Manager C B × Checked (UploadSession C)
  finalize_session_found id later (m, raised e) = (m, raised e)
  finalize_session_found id later (m, ok s) =
      let s' : UploadSession C = record s { finalized = true; last_active_at = later } in
      (record m { sessions = put m.sessions id s' }, ok s')

  unfoldable pub finalize_session :
      UploadLimits → Text → ℕ → ℕ → Manager C B → Manager C B × Checked (UploadSession C)
  unfolding get_session
  finalize_session l id now later m = finalize_session_found id later (get_session l id now m)
