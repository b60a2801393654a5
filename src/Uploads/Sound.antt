-- ===== src/Uploads/Sound.antt =====
-- jobs/upload_session_manager.py: what holds of the sessions and their staging files at all times.
use bqemulator.Prelude.{
  ℕ, ◌+◌, ◌≤◌, ◌≡◌, refl, sym, ap, ◌∙◌, inl, inr, false, not, Option, none, some, List, [], ◌∷◌,
  ◌++◌, append-nil, length, arith, nat_eq, if◌then◌else◌, Text, text_eq, ◌==◌, ==_iff, Bool-cases,
}
use mathlib.Core.Path.{subst}
use bqemulator.Dict.{Dict, get, has, put, get-put, get-remove}
use bqemulator.Uploads.ContentRange.{ok, ◌>>◌, raise_if, other_total, >>-ok, Range}
use bqemulator.Uploads.Sessions.{
  UploadSession, Manager, UploadLimits, is_upload_id, remove_session, remove_sessions,
  evict_expired, expired_ids, clear_sessions, session_ids, create_session, get_session, verified,
  written, content_of, found_session, verify_offset_matches, verify_size_caps,
  reconcile_declared_total, reconciled, exceeds,
}

-- A total that is declared is within the cap.
abbrev pub TotalWithin : ℕ → Option ℕ → Type 0
TotalWithin cap none = Unit
TotalWithin cap (some total) = total ≤ cap

module _ {C : Type 0} (l : UploadLimits) where
  reconciled-ok :
      (s s' : UploadSession C) (total known : Option ℕ)
      → reconciled s total known ≡ ok s'
      → TotalWithin l.max_bytes s.declared_total_bytes
      → exceeds total l.max_bytes ≡ false
      → (s'.received_bytes ≡ s.received_bytes) × TotalWithin l.max_bytes s'.declared_total_bytes
  unfolding reconciled
  reconciled-ok s s' none known e h k =
      let same : s ≡ s' = cc in
      subst
        (λ (t : UploadSession C).
          (t.received_bytes ≡ s.received_bytes) × TotalWithin l.max_bytes t.declared_total_bytes)
        same (refl, h)
  reconciled-ok s s' (some total) none e h k =
      let same : record s { declared_total_bytes = some total } ≡ s' = cc in
      subst
        (λ (t : UploadSession C).
          (t.received_bytes ≡ s.received_bytes) × TotalWithin l.max_bytes t.declared_total_bytes)
        same (refl, ground arith)
  reconciled-ok s s' (some total) (some known) e h k =
      let (agrees, e1) =
        >>-ok (raise_if (not (nat_eq known total)) (other_total total known)) (ok s) e in
      let same : s ≡ s' = cc in
      subst
        (λ (t : UploadSession C).
          (t.received_bytes ≡ s.received_bytes) × TotalWithin l.max_bytes t.declared_total_bytes)
        same (refl, h)

  size_caps-ok :
      (s : UploadSession C) (n : ℕ) (total : Option ℕ)
      → verify_size_caps l s n total ≡ ok tt
      → (s.received_bytes + n ≤ l.max_bytes) × (exceeds total l.max_bytes ≡ false)
  unfolding verify_size_caps
  size_caps-ok s n total e = ground arith

  -- What the checks of append let through.
  pub verified-ok :
      (s s' : UploadSession C) (n : ℕ) (r : Range)
      → TotalWithin l.max_bytes s.declared_total_bytes
      → verified l s n r ≡ ok s'
      → (s'.received_bytes ≡ s.received_bytes)
        × (s.received_bytes + n ≤ l.max_bytes)
        × TotalWithin l.max_bytes s'.declared_total_bytes
  unfolding verified reconcile_declared_total
  verified-ok s s' n r w e =
      let (offset, e1) =
        >>-ok (verify_offset_matches s r.start)
          (verify_size_caps l s n r.total >> reconciled s r.total s.declared_total_bytes) e in
      let (size, e2) =
        >>-ok (verify_size_caps l s n r.total) (reconciled s r.total s.declared_total_bytes) e1 in
      let (fits, small) = size_caps-ok s n r.total size in
      let (same, within) = reconciled-ok s s' r.total s.declared_total_bytes e2 w small in
      (same, fits, within)

module _ {B : Type 0} where
  pub get-written :
      (id j : Text) (chunk bytes : List B) (files : Dict Text (List B))
      → get files id ≡ some bytes
      → get (written id chunk files) j ≡ (if id == j then some (bytes ++ chunk) else get files j)
  unfolding written
  get-written id j [] bytes files h = elim (Bool-cases (id == j)) [
    | inl same ↦
        rw (same, append-nil bytes) (ap (λ k. get files k) (sym ((==_iff id j).0 same)) ∙ h)
    | inr other ↦ rw other refl
  ]
  get-written id j (b ∷ chunk) bytes files h =
      rw (get-put files id j (content_of (get files id) ++ b ∷ chunk), h) refl

module _ {C B : Type 0} (l : UploadLimits) where
  -- A session has a file of as many bytes as it has received, within the cap; without it there is none.
  abbrev pub Matched : Option (UploadSession C) → Option (List B) → Type 0
  Matched none none = Unit
  Matched none (some bytes) = ⊥
  Matched (some s) none = ⊥
  Matched (some s) (some bytes) =
      (length bytes ≡ s.received_bytes)
      × (s.received_bytes ≤ l.max_bytes)
      × TotalWithin l.max_bytes s.declared_total_bytes

  unfoldable pub IsSound : Manager C B → Type 0
  IsSound m = (id : Text) → Matched (get m.sessions id) (get m.files id)

  pub remove_session-IsSound :
      (id : Text) (m : Manager C B) → IsSound m → IsSound (remove_session id m)
  unfolding IsSound remove_session
  remove_session-IsSound id m h = elim (Bool-cases (has m.sessions id)) [
    | inl e ↦ rw e λ j. elim (Bool-cases (id == j)) [
      | inl same ↦ rw (get-remove m.sessions id j, get-remove m.files id j, same) tt
      | inr other ↦ rw (get-remove m.sessions id j, get-remove m.files id j, other) (h j)
    ]
    | inr e ↦ rw e h
  ]

  remove_sessions-IsSound :
      (ids : List Text) (m : Manager C B) → IsSound m → IsSound (remove_sessions ids m)
  unfolding remove_sessions
  remove_sessions-IsSound [] m h = h
  remove_sessions-IsSound (id ∷ ids) m h =
      remove_sessions-IsSound ids (remove_session id m) (remove_session-IsSound id m h)

  pub evict_expired-IsSound :
      (now : ℕ) (m : Manager C B) → IsSound m → IsSound (evict_expired l now m)
  unfolding evict_expired
  evict_expired-IsSound now m = remove_sessions-IsSound (expired_ids l now m.sessions) m

  pub clear_sessions-IsSound : (m : Manager C B) → IsSound m → IsSound (clear_sessions m)
  unfolding clear_sessions
  clear_sessions-IsSound m = remove_sessions-IsSound (session_ids m.sessions) m

  put-IsSound :
      (id : Text) (s : UploadSession C) (bytes : List B) (m : Manager C B)
      → Matched (some s) (some bytes)
      → IsSound m
      → IsSound (record { sessions = put m.sessions id s; files = put m.files id bytes })
  unfolding IsSound
  put-IsSound id s bytes m new h j = elim (Bool-cases (id == j)) [
    | inl same ↦ rw (get-put m.sessions id j s, get-put m.files id j bytes, same) new
    | inr other ↦ rw (get-put m.sessions id j s, get-put m.files id j bytes, other) (h j)
  ]

  pub create_session-IsSound :
      (id project_id : Text) (conf : C) (now : ℕ) (m : Manager C B)
      → IsSound m
      → IsSound (create_session id project_id conf now m).0
  unfolding create_session
  create_session-IsSound id project_id conf now m h = elim (Bool-cases (has m.files id)) [
    | inl e ↦ rw e h
    | inr e ↦ rw e (put-IsSound id _ [] m (omega arith) h)
  ]

  pub get_session-IsSound :
      (id : Text) (now : ℕ) (m : Manager C B) → IsSound m → IsSound (get_session l id now m).0
  unfolding get_session
  get_session-IsSound id now m h = elim (Bool-cases (is_upload_id id)) [
    | inl e ↦ rw e (evict_expired-IsSound now m h)
    | inr e ↦ rw e h
  ]

  -- A session that is found is one of those that stay.
  pub get_session-found :
      (id : Text) (now : ℕ) (m : Manager C B) (s : UploadSession C)
      → (get_session l id now m).1 ≡ ok s
      → get (get_session l id now m).0.sessions id ≡ some s
  unfolding get_session
  get_session-found id now m s = elim (Bool-cases (is_upload_id id)) [
    | inl e ↦ rw e (found (get (evict_expired l now m).sessions id))
    | inr e ↦ rw e (λ h. cc)
  ]
    where
      found : (o : Option (UploadSession C)) → found_session id o ≡ ok s → o ≡ some s
      found none h = cc
      found (some t) h = cc

  Matched-file :
      (s : UploadSession C) (o : Option (List B))
      → Matched (some s) o
      → (bytes : List B) × (o ≡ some bytes) × Matched (some s) (some bytes)
  Matched-file s none h = elim h [ ]
  Matched-file s (some bytes) h = (bytes, refl, h)

  -- The file of a session that is there.
  pub IsSound-file :
      (id : Text) (s : UploadSession C) (m : Manager C B)
      → get m.sessions id ≡ some s
      → IsSound m
      → (bytes : List B) × (get m.files id ≡ some bytes) × Matched (some s) (some bytes)
  unfolding IsSound
  IsSound-file id s m there h =
      Matched-file s (get m.files id) (subst (λ o. Matched o (get m.files id)) there (h id))
