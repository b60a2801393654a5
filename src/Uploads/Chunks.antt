-- ===== src/Uploads/Chunks.antt =====
-- jobs/upload_session_manager.py: what a resumable upload leaves in its staging file.
use bqemulator.Prelude.{
  ℕ, ◌+◌, ◌≡◌, refl, sym, ap, ◌∙◌, inl, inr, Bool, false, not, Option, none, some, List, [], ◌∷◌,
  ◌++◌, append-nil, append_assoc, length, length-append, arith, leb, nat_eq, Text, text_eq, ==_refl,
  Bool-cases,
}
use mathlib.Core.Path.{subst}
use bqemulator.Dict.{get, get-remove}
use bqemulator.Uploads.ContentRange.{Checked, ok, raised, ◌>>◌, raise_if, other_total, >>-ok, Range}
use bqemulator.Uploads.Sessions.{
  UploadSession, Manager, UploadLimits, is_upload_id, remove_session, remove_sessions,
  evict_expired, expired_ids, get_session, verified, stored_chunk, append_chunk, complete_by,
  reaches_end, is_session_complete, verify_offset_matches, verify_size_caps,
  reconcile_declared_total, reconciled,
}
use bqemulator.Uploads.Sound.{IsSound, IsSound-file, verified-ok, get-written, get_session-IsSound}
use bqemulator.Uploads.Calls.{append_chunk-Appended, append_chunk-IsSound}

some-injective : {A : Type 0} {a b : A} → some a ≡ some b → a ≡ b
some-injective h = cc

-- A total has been declared, and so many bytes are enough for it.
abbrev pub holds_total : Option ℕ → ℕ → Bool
holds_total none n = false
holds_total (some total) n = leb total n

-- One PUT of a chunk, with the clock's readings.
pub record Piece (B : Type 0) : Type 0 where
  pub bytes : List B
  pub content_range : Option Text
  pub now : ℕ
  pub later : ℕ

module _ {C B : Type 0} where
  -- Only what was there is found after a removal.
  get-remove_session :
      (gone id : Text) (m : Manager C B) (bytes : List B)
      → get (remove_session gone m).files id ≡ some bytes
      → get m.files id ≡ some bytes
  unfolding remove_session
  get-remove_session gone id m bytes h = ground (arith, get-remove m.files gone id)

  get-remove_sessions :
      (ids : List Text) (id : Text) (m : Manager C B) (bytes : List B)
      → get (remove_sessions ids m).files id ≡ some bytes
      → get m.files id ≡ some bytes
  unfolding remove_sessions
  get-remove_sessions [] id m bytes h = h
  get-remove_sessions (gone ∷ ids) id m bytes h =
      get-remove_session gone id m bytes
        (get-remove_sessions ids id (remove_session gone m) bytes h)

complete_by-holds_total :
    (known : Option ℕ) (n : ℕ) (r : Range)
    → (known ≡ none → r.total ≡ none)
    → complete_by known n r ≡ holds_total known n
complete_by-holds_total (some total) n r h = refl
complete_by-holds_total none n r h = rw (h refl, complete_by) (unreached r.end_inclusive)
  where
    unreached : (e : Option ℕ) → reaches_end e none ≡ false
    unreached none = refl
    unreached (some e) = refl

module _ {B : Type 0} where
  abbrev pub bytes_of : List (Piece B) → Piece B → List B
  bytes_of [] p = p.bytes
  bytes_of (p ∷ ps) last = p.bytes ++ bytes_of ps last

module _ {C : Type 0} (l : UploadLimits) where
  reconciled-none :
      (s s' : UploadSession C) (total known : Option ℕ)
      → known ≡ s.declared_total_bytes
      → reconciled s total known ≡ ok s'
      → s'.declared_total_bytes ≡ none
      → total ≡ none
  unfolding reconciled
  reconciled-none s s' none known k e h = refl
  reconciled-none s s' (some total) none k e h = ground arith
  reconciled-none s s' (some total) (some known) k e h =
      let (agrees, e1) =
        >>-ok (raise_if (not (nat_eq known total)) (other_total total known)) (ok s) e in
      ground arith

  -- The last answer of _is_session_complete is never given: a total in the header has been declared.
  complete_by-verified :
      (s s' : UploadSession C) (n : ℕ) (r : Range)
      → verified l s n r ≡ ok s'
      → complete_by s'.declared_total_bytes (s'.received_bytes + n) r
        ≡ holds_total s'.declared_total_bytes (s'.received_bytes + n)
  unfolding verified reconcile_declared_total
  complete_by-verified s s' n r v =
      let (offset, e1) =
        >>-ok (verify_offset_matches s r.start)
          (verify_size_caps l s n r.total >> reconciled s r.total s.declared_total_bytes) v in
      let (size, e2) =
        >>-ok (verify_size_caps l s n r.total) (reconciled s r.total s.declared_total_bytes) e1 in
      complete_by-holds_total s'.declared_total_bytes (s'.received_bytes + n) r
        (reconciled-none s s' r.total s.declared_total_bytes refl e2)

module _ {C B : Type 0} (l : UploadLimits) where
  get-get_session :
      (id j : Text) (now : ℕ) (m : Manager C B) (bytes : List B)
      → get (get_session l id now m).0.files j ≡ some bytes
      → get m.files j ≡ some bytes
  unfolding get_session evict_expired
  get-get_session id j now m bytes = elim (Bool-cases (is_upload_id id)) [
    | inl e ↦ rw e (get-remove_sessions (expired_ids l now m.sessions) j m bytes)
    | inr e ↦ rw e (λ h. h)
  ]

  -- What an append that is accepted leaves: the file has grown by the chunk, and the answer says whether a
  -- total was declared that the file reaches.
  abbrev Grown :
      Text → List B → Manager C B → Manager C B × Checked (UploadSession C × Bool) → Type 0
  Grown id chunk m (m', raised e) = Unit
  Grown id chunk m (m', ok (s, done)) =
      (bytes : List B) × (get m.files id ≡ some bytes)
      × (get m'.files id ≡ some (bytes ++ chunk))
      × (done ≡ holds_total s.declared_total_bytes (length (bytes ++ chunk)))

  stored_chunk-Grown :
      (id : Text) (chunk : List B) (m0 m : Manager C B) (s0 s1 : UploadSession C) (r : Range)
      (later : ℕ)
      → get m0.sessions id ≡ some s0
      → verified l s0 (length chunk) r ≡ ok s1
      → IsSound l m0
      → ((bytes : List B) → get m0.files id ≡ some bytes → get m.files id ≡ some bytes)
      → Grown id chunk m (stored_chunk id chunk r later s1 m0)
  unfolding stored_chunk is_session_complete
  stored_chunk-Grown id chunk m0 m s0 s1 r later there v h stayed =
      let (bytes, file, matched) = IsSound-file l id s0 m0 there h in
      let (same, fits, within) = verified-ok l s0 s1 (length chunk) r (matched.2) v in
      let size : s1.received_bytes + length chunk ≡ length (bytes ++ chunk) =
        omega (arith, length-append {0} bytes chunk) in
      (
        bytes,
        stayed bytes file,
        get-written id id chunk bytes m0.files file ∙ rw ==_refl refl,
        complete_by-verified l s0 s1 (length chunk) r v
            ∙ ap (holds_total s1.declared_total_bytes) size,
      )

  append_chunk-Grown :
      (id : Text) (chunk : List B) (content_range : Option Text) (now later : ℕ) (m : Manager C B)
      → IsSound l m
      → Grown id chunk m (append_chunk l id chunk content_range now later m)
  append_chunk-Grown id chunk cr now later m h =
      elim (append_chunk-Appended l id chunk cr now later m) [
        | inl (e, stops) ↦ rw stops tt
        | inr (s0, s1, r, there, ranged, v, stores) ↦ rw stores (
            stored_chunk-Grown id chunk (get_session l id now m).0 m s0 s1 r later there v
              (get_session-IsSound l id now m h) (get-get_session id id now m))
      ]

  abbrev next_piece :
      {A : Type 0}
      → Manager C B × Checked (UploadSession C × Bool)
      → (Manager C B → UploadSession C → Bool → Checked A)
      → Checked A
  next_piece (m', raised e) k = raised e
  next_piece (m', ok (s, done)) k = k m' s done

  -- The PUTs of one upload up to the last, until one is refused: the manager behind them, the session and
  -- whether the last was answered as complete.
  unfoldable pub append_pieces :
      Text → List (Piece B) → Piece B → Manager C B → Checked (Manager C B × UploadSession C × Bool)
  append_pieces id [] p m =
      next_piece (append_chunk l id p.bytes p.content_range p.now p.later m)
        (λ m' s done. ok (m', s, done))
  append_pieces id (p ∷ ps) last m =
      next_piece (append_chunk l id p.bytes p.content_range p.now p.later m)
        (λ m' s done. append_pieces id ps last m')

  abbrev Uploads : Text → List B → Checked (Manager C B × UploadSession C × Bool) → Type 0
  Uploads id bytes (raised e) = Unit
  Uploads id bytes (ok (m', s, done)) =
      (get m'.files id ≡ some bytes) × (done ≡ holds_total s.declared_total_bytes (length bytes))

  step-Uploads :
      (id : Text) (chunk bytes rest : List B) (m : Manager C B)
      (result : Manager C B × Checked (UploadSession C × Bool))
      (k : Manager C B → UploadSession C → Bool → Checked (Manager C B × UploadSession C × Bool))
      → get m.files id ≡ some bytes
      → Grown id chunk m result
      → ((m' : Manager C B) (s : UploadSession C) (done : Bool)
          → result ≡ (m', ok (s, done))
          → get m'.files id ≡ some (bytes ++ chunk)
          → done ≡ holds_total s.declared_total_bytes (length (bytes ++ chunk))
          → Uploads id ((bytes ++ chunk) ++ rest) (k m' s done))
      → Uploads id (bytes ++ (chunk ++ rest)) (next_piece result k)
  step-Uploads id chunk bytes rest m (m', raised e) k file grown next = tt
  step-Uploads id chunk bytes rest m (m', ok (s, done)) k file (b, there, grew, answer) next =
      let same : b ≡ bytes = some-injective (sym there ∙ file) in
      subst (λ t. Uploads id t (k m' s done)) (append_assoc bytes chunk rest)
        (next m' s done refl (rw (← same) grew) (rw (← same) answer))

  append_pieces-Uploads :
      (id : Text) (ps : List (Piece B)) (last : Piece B) (bytes : List B) (m : Manager C B)
      → IsSound l m
      → get m.files id ≡ some bytes
      → Uploads id (bytes ++ bytes_of ps last) (append_pieces id ps last m)
  unfolding append_pieces
  append_pieces-Uploads id [] p bytes m h file =
      subst (λ t. Uploads id (bytes ++ t) (append_pieces id [] p m)) (append-nil p.bytes)
        (step-Uploads id p.bytes bytes [] m _ _ file
          (append_chunk-Grown id p.bytes p.content_range p.now p.later m h)
          (λ m' s done e grew answer. rw (append-nil (bytes ++ p.bytes)) (grew, answer)))
  append_pieces-Uploads id (p ∷ ps) last bytes m h file =
      step-Uploads id p.bytes bytes (bytes_of ps last) m _ _ file
        (append_chunk-Grown id p.bytes p.content_range p.now p.later m h)
        (λ m' s done e grew answer.
          append_pieces-Uploads id ps last (bytes ++ p.bytes) m'
            (subst (IsSound l) (ap (λ r. r.0) e)
              (append_chunk-IsSound l id p.bytes p.content_range p.now p.later m h))
            grew)

  -- Where every PUT of an upload is accepted, the staging file has grown by the bytes of all, in order,
  -- and the last is answered as complete exactly if a total was declared and the file is at least that
  -- long, whatever the end of the last byte range is.
  pub append_pieces-file :
      (id : Text) (ps : List (Piece B)) (last : Piece B) (bytes : List B) (m m' : Manager C B)
      (s : UploadSession C) (done : Bool)
      → IsSound l m
      → get m.files id ≡ some bytes
      → append_pieces id ps last m ≡ ok (m', s, done)
      → (get m'.files id ≡ some (bytes ++ bytes_of ps last))
        × (done ≡ holds_total s.declared_total_bytes (length (bytes ++ bytes_of ps last)))
  append_pieces-file id ps last bytes m m' s done h file e =
      subst (Uploads id (bytes ++ bytes_of ps last)) e
        (append_pieces-Uploads id ps last bytes m h file)
