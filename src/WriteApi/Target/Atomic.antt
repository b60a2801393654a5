-- ===== src/WriteApi/Target/Atomic.antt =====
-- BatchCommitWriteStreams as a whole: all or nothing of its list, and which rows come to stand where.
use bqemulator.Prelude.{
  ◌≡◌, ◌≢◌, ◌↔◌, refl, sym, ap, ◌∙◌, Bool, true, false, Option, none, some, List, [], ◌∷◌, ◌++◌,
  append-nil, append_assoc, arith, Text, text_eq, triple_eq, ◌==◌, All,
}
use mathlib.Core.Path.{subst}
use bqemulator.Dict.{Dict, get, put, get-put}
use bqemulator.Streaming.Stream.{WriteStream, batch_committed}
use bqemulator.Streaming.Strategies.{commit}
use bqemulator.WriteApi.{Server, TargetStore, Reply, reply}
use bqemulator.WriteApi.Handlers.{set_stream}
use bqemulator.WriteApi.Target.{
  flush_if_rows, commit_one, commit_all, commit_next, commit_error_of, commit_errors, add_error,
  answer, StorageError, handle_batch_commit_write_streams, or_raised,
}
use bqemulator.WriteApi.Target.Invariant.{flush_if_rows-streams}
use bqemulator.WriteApi.Target.Rows.{
  lands, flush_if_rows-rows, IsReady, batch_rows_of, batch_rows, commit_ready,
}

-- The names are pairwise different.
abbrev pub Distinct : List Text → Type 0
Distinct [] = Unit
Distinct (n ∷ ns) = All (λ m. (n == m) ≡ false) ns × Distinct ns

add_error_nil :
    (o : Option StorageError) (es : List StorageError)
    → add_error o es ≡ []
    → (o ≡ none) × (es ≡ [])
add_error_nil none es h = (refl, h)
add_error_nil (some e) es h = cc

module _ {R : Type 0} where
  -- The stream as the commit leaves it.
  abbrev pub committed_stream : WriteStream R → WriteStream R
  committed_stream s = record s { buffer = []; state = batch_committed }

  commit_error_of_iff :
      (n : Text) (o : Option (WriteStream R)) → (commit_error_of n o ≡ none) ↔ IsReady o
  unfolding commit_error_of
  commit_error_of_iff n none = (λ h. cc, λ h. absurd h)
  commit_error_of_iff n (some s) = (λ h. ground arith, λ h. ground arith)

  abbrev pub AllReady : Dict Text (WriteStream R) → List Text → Type 0
  AllReady d ns = All (λ n. IsReady (get d n)) ns

  -- Pass 1 finds no error exactly if every name is that of a finalized PENDING stream.
  pub commit_errors_iff :
      (d : Dict Text (WriteStream R)) (ns : List Text) → (commit_errors d ns ≡ []) ↔ AllReady d ns
  unfolding commit_errors
  commit_errors_iff d [] = (λ h. tt, λ h. refl)
  commit_errors_iff d (n ∷ ns) = (
    λ h.
        let (a, b) = add_error_nil (commit_error_of n (get d n)) (commit_errors d ns) h in
        ((commit_error_of_iff n (get d n)).0 a, (commit_errors_iff d ns).0 b),
    λ h. rw ((commit_error_of_iff n (get d n)).1 h.0) ((commit_errors_iff d ns).1 h.1),
  )

  AllReady-put :
      (d : Dict Text (WriteStream R)) (n : Text) (s : WriteStream R) (ns : List Text)
      → All (λ m. (n == m) ≡ false) ns
      → AllReady d ns
      → AllReady (put d n s) ns
  AllReady-put d n s [] o h = tt
  AllReady-put d n s (m ∷ ns) o h = (rw get-put (rw o.0 h.0), AllReady-put d n s ns o.1 h.1)

  batch_rows-put :
      (j : Text) (d : Dict Text (WriteStream R)) (n : Text) (s : WriteStream R) (ns : List Text)
      → All (λ m. (n == m) ≡ false) ns
      → batch_rows j (put d n s) ns ≡ batch_rows j d ns
  unfolding batch_rows
  batch_rows-put j d n s [] o = refl
  batch_rows-put j d n s (m ∷ ns) o =
      rw get-put (rw o.0 (ap (λ x. batch_rows_of j (get d m) ++ x) (batch_rows-put j d n s ns o.1)))

  IsReady-some :
      (o : Option (WriteStream R))
      → IsReady o
      → (s : WriteStream R) × (o ≡ some s) × IsReady (some s)
  IsReady-some none h = absurd h
  IsReady-some (some s) h = (s, refl, h)

module _ {R : Type 0} (T : TargetStore R) where
  open T use {E, rows}

  pub commit_one-eq :
      (n : Text) (s : WriteStream R) (sv : Server R E)
      → get sv.streams n ≡ some s
      → IsReady (some s)
      → commit_one T n sv
        ≡ flush_if_rows T
            (committed_stream s)
            (commit s).1.committed_rows
            (set_stream sv n (committed_stream s))
  commit_one-eq n s sv f h =
      unfold commit_one in
      rw f (
        ap (λ x. flush_if_rows T x (commit s).1.committed_rows (set_stream sv n x))
          (commit_ready s h).0)

  commit_one-rows :
      (n : Text) (s : WriteStream R) (sv : Server R E) (j : Text)
      → get sv.streams n ≡ some s
      → IsReady (some s)
      → (commit_one T n sv).0 ≡ true
      → rows (commit_one T n sv).1.store j ≡ rows sv.store j ++ batch_rows_of j (some s)
  commit_one-rows n s sv j f h ok =
      let e = commit_one-eq n s sv f h in
      ap (λ (r : Bool × Server R E). rows r.1.store j) e
      ∙ flush_if_rows-rows T (committed_stream s) (commit s).1.committed_rows
          (set_stream sv n (committed_stream s)) j
          (sym (ap (λ (r : Bool × Server R E). r.0) e) ∙ ok)
      ∙ ap (λ x. rows sv.store j ++ lands s j x) (commit_ready s h).1

  commit_one-streams :
      (n : Text) (s : WriteStream R) (sv : Server R E)
      → get sv.streams n ≡ some s
      → IsReady (some s)
      → (commit_one T n sv).1.streams ≡ put sv.streams n (committed_stream s)
  commit_one-streams n s sv f h =
      ap (λ (r : Bool × Server R E). r.1.streams) (commit_one-eq n s sv f h)
      ∙ (flush_if_rows-streams T (committed_stream s) (commit s).1.committed_rows
          (set_stream sv n (committed_stream s))).0

  commit_next-true :
      (r : Bool × Server R E) (rest : Server R E → Bool × Server R E)
      → (commit_next T r rest).0 ≡ true
      → (r.0 ≡ true) × (commit_next T r rest ≡ rest r.1)
  commit_next-true (true, sv) rest h = (refl, refl)
  commit_next-true (false, sv) rest h = cc

  commit_all-rows :
      (ns : List Text) (sv : Server R E) (j : Text)
      → Distinct ns
      → AllReady sv.streams ns
      → (commit_all T ns sv).0 ≡ true
      → rows (commit_all T ns sv).1.store j ≡ rows sv.store j ++ batch_rows j sv.streams ns
  unfolding commit_all batch_rows
  commit_all-rows [] sv j o h k = sym (append-nil (rows sv.store j))
  commit_all-rows (n ∷ ns) sv j o h k =
      let (s, f, ready) = IsReady-some (get sv.streams n) h.0 in
      let sv' = (commit_one T n sv).1 in
      let (good, e) = commit_next-true (commit_one T n sv) (commit_all T ns) k in
      let p = commit_one-streams n s sv f ready in
      let after : AllReady sv'.streams ns =
        subst (λ d. AllReady d ns) (sym p)
          (AllReady-put sv.streams n (committed_stream s) ns o.0 h.1) in
      ap (λ (r : Bool × Server R E). rows r.1.store j) e
      ∙ commit_all-rows ns sv' j o.1 after (sym (ap (λ (r : Bool × Server R E). r.0) e) ∙ k)
      ∙ ap (λ x. x ++ batch_rows j sv'.streams ns) (commit_one-rows n s sv j f ready good)
      ∙ ap (λ x. rows sv.store j ++ batch_rows_of j (some s) ++ x)
          (ap (λ d. batch_rows j d ns) p
            ∙ batch_rows-put j sv.streams n (committed_stream s) ns o.0)
      ∙ append_assoc (rows sv.store j) (batch_rows_of j (some s)) (batch_rows j sv.streams ns)
      ∙ ap (λ x. rows sv.store j ++ (batch_rows_of j x ++ batch_rows j sv.streams ns)) (sym f)

  answer_raised-or :
      (r : Bool × Server R E) → (or_raised T {A = List StorageError} [] r).0 ≡ reply [] → r.0 ≡ true
  answer_raised-or (true, sv) h = refl
  answer_raised-or (false, sv) h = cc

  answer_refused :
      (es : List StorageError) (ns : List Text) (sv : Server R E)
      → es ≢ []
      → answer T es ns sv ≡ (reply es, sv)
  unfolding answer
  answer_refused [] ns sv h = absurd (h refl)
  answer_refused (e ∷ es) ns sv h = refl

  or_raised-store : {A : Type 0} (a : A) (r : Bool × Server R E) → (or_raised T a r).1 ≡ r.1
  or_raised-store a (true, sv) = refl
  or_raised-store a (false, sv) = refl

  -- If not every name is that of a finalized PENDING stream, the reply is a list of errors, which is
  -- not empty, and nothing at all has changed.
  pub batch_commit_refused :
      (ns : List Text) (sv : Server R E)
      → ¬ AllReady sv.streams ns
      → (commit_errors sv.streams ns ≢ [])
        × (handle_batch_commit_write_streams T ns sv ≡ (reply (commit_errors sv.streams ns), sv))
  batch_commit_refused ns sv h =
      let some_error : commit_errors sv.streams ns ≢ [] =
        λ e. h ((commit_errors_iff sv.streams ns).0 e) in
      (
        some_error,
        unfold handle_batch_commit_write_streams in
            answer_refused (commit_errors sv.streams ns) ns sv some_error,
      )

  pub handle_ready :
      (ns : List Text) (sv : Server R E)
      → AllReady sv.streams ns
      → handle_batch_commit_write_streams T ns sv ≡ or_raised T [] (commit_all T ns sv)
  handle_ready ns sv h =
      unfold handle_batch_commit_write_streams in rw ((commit_errors_iff sv.streams ns).1 h)

  -- If all of them are, the names differ and no insertion raises, every table ends with its old rows
  -- and, in the order of the request, the whole buffers of the streams that write to it.
  pub batch_commit_rows :
      (ns : List Text) (sv : Server R E) (j : Text)
      → Distinct ns
      → AllReady sv.streams ns
      → (handle_batch_commit_write_streams T ns sv).0 ≡ reply []
      → rows (handle_batch_commit_write_streams T ns sv).1.store j
        ≡ rows sv.store j ++ batch_rows j sv.streams ns
  batch_commit_rows ns sv j o h k =
      let e = handle_ready ns sv h in
      let good =
        answer_raised-or (commit_all T ns sv)
          (sym (ap (λ (r : Reply (List StorageError) × Server R E). r.0) e) ∙ k) in
      ap (λ (r : Reply (List StorageError) × Server R E). rows r.1.store j) e
      ∙ ap (λ (x : Server R E). rows x.store j) (or_raised-store [] (commit_all T ns sv))
      ∙ commit_all-rows ns sv j o h good
