-- ===== src/Uploads/Calls.antt =====
-- jobs/upload_session_manager.py: the calls of UploadSessionManager, in any order.
use bqemulator.Prelude.{
  ℕ, ◌≡◌, refl, inl, inr, Bool, Option, some, List, [], ◌∷◌, ◌⊎◌, length, length-append, arith,
  Text, text_eq, ◌==◌, ==_iff, Bool-cases,
}
use mathlib.Core.Path.{subst}
use bqemulator.Dict.{get, get-put}
use bqemulator.Uploads.ContentRange.{UploadError, Checked, ok, raised, Range, extract_range_fields}
use bqemulator.Uploads.Sessions.{
  UploadSession, Manager, UploadLimits, remove_session, clear_sessions, create_session, get_session,
  verified, stored_chunk, append_verified, append_ranged, append_found, append_chunk,
  finalize_session_found, finalize_session,
}
use bqemulator.Uploads.Sound.{
  Matched, IsSound, IsSound-file, verified-ok, get-written, get_session-IsSound, get_session-found,
  remove_session-IsSound, clear_sessions-IsSound, create_session-IsSound,
}

-- The calls of the manager, with the clock's readings.
pub data Call (C B : Type 0) : Type 0 where
  created : Text → Text → C → ℕ → Call C B
  appended : Text → List B → Option Text → ℕ → ℕ → Call C B
  looked_up : Text → ℕ → Call C B
  finished : Text → ℕ → ℕ → Call C B
  dropped : Text → Call C B
  cleared : Call C B

module _ {C B : Type 0} (l : UploadLimits) where
  -- An append either stops behind the lookup or stores the chunk of a session that passes the checks.
  abbrev pub Appended :
      Text
      → List B
      → Option Text
      → ℕ
      → Manager C B
      → Manager C B × Checked (UploadSession C × Bool)
      → Type 0
  Appended id chunk content_range later m result =
      ((e : UploadError) × (result ≡ (m, raised e)))
      ⊎ ((s : UploadSession C) × (s' : UploadSession C) × (r : Range) × (get m.sessions id ≡ some s)
          × (extract_range_fields content_range ≡ ok r)
          × (verified l s (length chunk) r ≡ ok s')
          × (result ≡ stored_chunk id chunk r later s' m))

  append_verified-Appended :
      (id : Text) (chunk : List B) (content_range : Option Text) (later : ℕ) (m : Manager C B)
      (s : UploadSession C) (r : Range) (c : Checked (UploadSession C))
      → get m.sessions id ≡ some s
      → extract_range_fields content_range ≡ ok r
      → verified l s (length chunk) r ≡ c
      → Appended id chunk content_range later m (append_verified id chunk r later c m)
  append_verified-Appended id chunk cr later m s r (raised e) there ranged v = inl (e, refl)
  append_verified-Appended id chunk cr later m s r (ok s') there ranged v =
      inr (s, s', r, there, ranged, v, refl)

  append_ranged-Appended :
      (id : Text) (chunk : List B) (content_range : Option Text) (later : ℕ) (m : Manager C B)
      (s : UploadSession C) (c : Checked Range)
      → get m.sessions id ≡ some s
      → extract_range_fields content_range ≡ c
      → Appended id chunk content_range later m (append_ranged l id chunk c later s m)
  append_ranged-Appended id chunk cr later m s (raised e) there ranged = inl (e, refl)
  append_ranged-Appended id chunk cr later m s (ok r) there ranged =
      append_verified-Appended id chunk cr later m s r (verified l s (length chunk) r) there ranged
        refl

  append_found-Appended :
      (id : Text) (chunk : List B) (content_range : Option Text) (later : ℕ) (m : Manager C B)
      (found : Checked (UploadSession C))
      → ((s : UploadSession C) → found ≡ ok s → get m.sessions id ≡ some s)
      → Appended id chunk content_range later m
          (append_found l id chunk content_range later (m, found))
  append_found-Appended id chunk cr later m (raised e) there = inl (e, refl)
  append_found-Appended id chunk cr later m (ok s) there =
      append_ranged-Appended id chunk cr later m s (extract_range_fields cr) (there s refl) refl

  pub append_chunk-Appended :
      (id : Text) (chunk : List B) (content_range : Option Text) (now later : ℕ) (m : Manager C B)
      → Appended id chunk content_range later
          (get_session l id now m).0
          (append_chunk l id chunk content_range now later m)
  unfolding append_chunk
  append_chunk-Appended id chunk cr now later m =
      append_found-Appended id chunk cr later (get_session l id now m).0 (get_session l id now m).1
        (get_session-found l id now m)

  stored_chunk-IsSound :
      (id : Text) (chunk : List B) (r : Range) (later : ℕ) (s s' : UploadSession C)
      (m : Manager C B)
      → get m.sessions id ≡ some s
      → verified l s (length chunk) r ≡ ok s'
      → IsSound l m
      → IsSound l (stored_chunk id chunk r later s' m).0
  unfolding IsSound stored_chunk
  stored_chunk-IsSound id chunk r later s s' m there v h =
      let (bytes, file, matched) = IsSound-file l id s m there h in
      let (same, fits, within) = verified-ok l s s' (length chunk) r (matched.2) v in
      λ j. elim (Bool-cases (id == j)) [
        | inl e ↦
            rw (get-put m.sessions id j _, get-written id j chunk bytes m.files file, e)
              (omega (arith, length-append {0} bytes chunk), omega arith, within)
        | inr e ↦ rw (get-put m.sessions id j _, get-written id j chunk bytes m.files file, e) (h j)
      ]

  finalize_session_found-IsSound :
      (id : Text) (later : ℕ) (m : Manager C B) (found : Checked (UploadSession C))
      → ((s : UploadSession C) → found ≡ ok s → get m.sessions id ≡ some s)
      → IsSound l m
      → IsSound l (finalize_session_found id later (m, found)).0
  unfolding IsSound
  finalize_session_found-IsSound id later m (raised e) there h = h
  finalize_session_found-IsSound id later m (ok s) there h =
      let (bytes, file, matched) = IsSound-file l id s m (there s refl) h in
      λ j. elim (Bool-cases (id == j)) [
        | inl e ↦
            rw (get-put m.sessions id j _, e)
              (subst (λ k. Matched l (some s) (get m.files k)) ((==_iff id j).0 e)
                (rw file matched))
        | inr e ↦ rw (get-put m.sessions id j _, e) (h j)
      ]

  pub append_chunk-IsSound :
      (id : Text) (chunk : List B) (content_range : Option Text) (now later : ℕ) (m : Manager C B)
      → IsSound l m
      → IsSound l (append_chunk l id chunk content_range now later m).0
  append_chunk-IsSound id chunk cr now later m h =
      let h' : IsSound l (get_session l id now m).0 = get_session-IsSound l id now m h in
      elim (append_chunk-Appended id chunk cr now later m) [
        | inl (e, stops) ↦ rw stops h'
        | inr (s, s', r, there, ranged, v, stores) ↦
            rw stores
              (stored_chunk-IsSound id chunk r later s s' (get_session l id now m).0 there v h')
      ]

  unfoldable pub call : Call C B → Manager C B → Manager C B
  call (created id project_id conf now) m = (create_session id project_id conf now m).0
  call (appended id chunk cr now later) m = (append_chunk l id chunk cr now later m).0
  call (looked_up id now) m = (get_session l id now m).0
  call (finished id now later) m = (finalize_session l id now later m).0
  call (dropped id) m = remove_session id m
  call cleared m = clear_sessions m

  unfoldable pub call_all : List (Call C B) → Manager C B → Manager C B
  unfolding call
  call_all [] m = m
  call_all (c ∷ calls) m = call_all calls (call c m)

  call-IsSound : (c : Call C B) (m : Manager C B) → IsSound l m → IsSound l (call c m)
  unfolding call finalize_session
  call-IsSound (created id project_id conf now) m =
      create_session-IsSound l id project_id conf now m
  call-IsSound (appended id chunk cr now later) m = append_chunk-IsSound id chunk cr now later m
  call-IsSound (looked_up id now) m = get_session-IsSound l id now m
  call-IsSound (finished id now later) m = λ h.
      finalize_session_found-IsSound id later (get_session l id now m).0 (get_session l id now m).1
        (get_session-found l id now m) (get_session-IsSound l id now m h)
  call-IsSound (dropped id) m = remove_session-IsSound l id m
  call-IsSound cleared m = clear_sessions-IsSound l m

  -- Whatever is called, from an empty manager on or any other of which it holds, each session has a staging
  -- file of exactly the bytes it counts as received, which stay within the cap, as does a declared total, and
  -- no file is left without its session.
  pub call_all-IsSound :
      (calls : List (Call C B)) (m : Manager C B) → IsSound l m → IsSound l (call_all calls m)
  unfolding call_all
  call_all-IsSound [] m h = h
  call_all-IsSound (c ∷ calls) m h = call_all-IsSound calls (call c m) (call-IsSound c m h)
