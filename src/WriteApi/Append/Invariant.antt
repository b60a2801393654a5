-- ===== src/WriteApi/Append/Invariant.antt =====
-- AppendRows keeps the state consistent, request by request.
use bqemulator.Prelude.{
  ℕ, ◌≡◌, refl, ap, ◌∙◌, Bool, true, false, Option, none, some, Option-cases, List, [], ◌∷◌, ltb,
  Text, text, text_eq, triple_eq, ◌==◌, Bool-cases, inl, inr, ℤ,
}
use bqemulator.Dict.{Dict, get, has, get-put_self}
use bqemulator.Streaming.Stream.{StreamType, WriteStream, Table, new_stream}
use bqemulator.Streaming.Names.{default_stream_name, parse_stream_name, ends_with}
use bqemulator.Streaming.Strategies.{append, AppendOutcome}
use bqemulator.Streaming.Strategies.Sound.{append-IsSound}
use bqemulator.Streaming.Strategies.Identity.{append-SameIdentity}
use bqemulator.WriteApi.{FieldSchema, Server, TargetStore, Reply, reply, failed, raised}
use bqemulator.WriteApi.Handlers.{set_stream, key_of}
use bqemulator.WriteApi.Handlers.Invariant.{get_or_create_default-IsConsistent}
use bqemulator.WriteApi.Manager.{get_or_create_default}
use bqemulator.WriteApi.Target.{flush_if_rows}
use bqemulator.WriteApi.Target.Invariant.{flush_if_rows-IsConsistent, replace-IsConsistent}
use bqemulator.WriteApi.Consistent.{IsConsistent}
use bqemulator.WriteApi.Append.{
  Codec, Connection, Request, Response, is_ok, perform_append, appended, resolve_default,
  resolve_append_stream, bind_stream, rows_for_request, decoded, append_bound, rebound,
  ensure_stream_bound, append_request, append_requests, handle_append_rows, next_request,
  CallEnding,
}

-- What resolving a stream gives: a consistent state, in which the stream stands under its name.
abbrev Resolved : {R E A : Type 0} → (A → WriteStream R) → Reply A × Server R E → Type 0
Resolved f (reply a, sv) = IsConsistent sv × (get sv.streams (f a).name ≡ some (f a))
Resolved f (failed st m, sv) = IsConsistent sv
Resolved f (raised, sv) = IsConsistent sv

under_own_name :
    {R : Type 0} (d : Dict Text (WriteStream R)) (n : Text) (s : WriteStream R)
    → get d n ≡ some s
    → s.name ≡ n
    → get d s.name ≡ some s
under_own_name d n s f q = ap (get d) q ∙ f

module _ {R E : Type 0} where
  default_found :
      (p d t : Text) (sv : Server R E)
      → IsConsistent sv
      → let r = get_or_create_default p d t sv in get r.1.streams r.0.name ≡ some r.0
  default_found p d t sv h =
      let name = default_stream_name p d t in
      elim (Option-cases (get sv.streams name)) [
        | inl new ↦
            unfold get_or_create_default in
            rw new (get-put_self sv.streams name (new_stream name p d t StreamType.default))
        | inr (s, old) ↦
            unfold get_or_create_default in
            rw old (under_own_name sv.streams name s old (h.each name s old).1)
      ]

  resolve_default-Resolved :
      (o : Option (Text × Text × Text × Text)) (name : Text) (sv : Server R E)
      → IsConsistent sv
      → Resolved (λ s. s) (resolve_default o name sv)
  unfolding resolve_default
  resolve_default-Resolved none name sv h = h
  resolve_default-Resolved (some (p, d, t, i)) name sv h =
      elim (Bool-cases (has sv.tables (p, d, t))) [
        | inl there ↦
            rw there (get_or_create_default-IsConsistent p d t sv h, default_found p d t sv h)
        | inr gone ↦ rw gone h
      ]

  resolve_append_stream-Resolved :
      (name : Text) (sv : Server R E)
      → IsConsistent sv
      → Resolved (λ s. s) (resolve_append_stream name sv)
  resolve_append_stream-Resolved name sv h =
      elim (Bool-cases (ends_with (text "/streams/_default") name)) [
        | inl d ↦
            unfold resolve_append_stream in
            rw d (resolve_default-Resolved (parse_stream_name name) name sv h)
        | inr n ↦ elim (Option-cases (get sv.streams name)) [
          | inl new ↦ unfold resolve_append_stream in rw (n, new) h
          | inr (s, old) ↦
              unfold resolve_append_stream in
              rw (n, old) (h, under_own_name sv.streams name s old (h.each name s old).1)
        ]
      ]

  bind_stream-Resolved :
      (r : Reply (WriteStream R) × Server R E)
      → Resolved (λ s. s) r
      → Resolved (λ b. b.0) (bind_stream r)
  unfolding bind_stream
  bind_stream-Resolved (reply s, sv) h = elim (Option-cases (get sv.tables (key_of s))) [
    | inl gone ↦ rw gone h.0
    | inr (m, there) ↦ rw there h
  ]
  bind_stream-Resolved (failed st m, sv) h = h
  bind_stream-Resolved (raised, sv) h = h

  rebound-Resolved :
      (o : Option (WriteStream R)) (n : Text) (fields : List FieldSchema) (sv : Server R E)
      → get sv.streams n ≡ o
      → IsConsistent sv
      → Resolved (λ b. b.0) (rebound o fields sv)
  unfolding rebound
  rebound-Resolved none n fields sv f h = h
  rebound-Resolved (some s) n fields sv f h = (h, under_own_name sv.streams n s f (h.each n s f).1)

  ensure_stream_bound-Resolved :
      (name : Text) (bound : Option (Text × List FieldSchema)) (sv : Server R E)
      → IsConsistent sv
      → Resolved (λ b. b.0) (ensure_stream_bound name bound sv)
  ensure_stream_bound-Resolved name none sv h =
      unfold ensure_stream_bound in
      bind_stream-Resolved (resolve_append_stream name sv)
        (resolve_append_stream-Resolved name sv h)
  ensure_stream_bound-Resolved name (some (n, fields)) sv h = elim (Bool-cases (n == name)) [
    | inl same ↦
        unfold ensure_stream_bound in
        rw same (rebound-Resolved (get sv.streams n) n fields sv refl h)
    | inr other ↦
        unfold ensure_stream_bound in
        rw other (
          bind_stream-Resolved (resolve_append_stream name sv)
            (resolve_append_stream-Resolved name sv h))
  ]

module _ {R : Type 0} (T : TargetStore R) where
  open T use {E}

  appended-IsConsistent :
      (s : WriteStream R) (out : AppendOutcome R) (r : Bool × Server R E)
      → IsConsistent r.1
      → IsConsistent (appended T s out r).1
  unfolding appended
  appended-IsConsistent s out (true, sv) h = h
  appended-IsConsistent s out (false, sv) h = h

  perform_append-IsConsistent :
      (s : WriteStream R) (rows : Table R) (offset : Option ℤ) (most : ℕ) (sv : Server R E)
      → get sv.streams s.name ≡ some s
      → IsConsistent sv
      → IsConsistent (perform_append T s rows offset most sv).1
  perform_append-IsConsistent s rows offset most sv f h =
      let s' = (append s rows offset (some most)).0 in
      let out = (append s rows offset (some most)).1 in
      let k =
        replace-IsConsistent T sv s.name s s' h f (append-SameIdentity s rows offset (some most))
          (append-IsSound s rows offset (some most) (h.each s.name s f).0) in
      elim (Bool-cases (is_ok out.status)) [
        | inl good ↦
            unfold perform_append in
            rw good (
              appended-IsConsistent s' out
                (flush_if_rows T s' out.committed_rows (set_stream sv s.name s'))
                (flush_if_rows-IsConsistent T s' out.committed_rows (set_stream sv s.name s') k))
        | inr bad ↦ unfold perform_append in rw bad k
      ]

module _ {R S P : Type 0} (T : TargetStore R) (C : Codec R S P) where
  open T use {E}

  decoded-IsConsistent :
      (q : Request S P) (s : WriteStream R) (fields : List FieldSchema) (old : Connection S)
      (d : Option (Table R) × Connection S) (sv : Server R E)
      → get sv.streams s.name ≡ some s
      → IsConsistent sv
      → IsConsistent (decoded T C q s fields old d sv).2
  unfolding decoded
  decoded-IsConsistent q s fields old (none, c) sv f h = h
  decoded-IsConsistent q s fields old (some rows, c) sv f h =
      perform_append-IsConsistent T s rows q.offset C.max_stream_rows sv f h

  append_bound-IsConsistent :
      (q : Request S P) (c : Connection S)
      (r : Reply (WriteStream R × List FieldSchema) × Server R E)
      → Resolved (λ b. b.0) r
      → IsConsistent (append_bound T C q c r).2
  unfolding append_bound
  append_bound-IsConsistent q c (reply (s, fields), sv) h =
      let c' : Connection S = record c { bound = some (s.name, fields) } in
      decoded-IsConsistent q s fields c' (rows_for_request C q.payload fields c') sv h.1 h.0
  append_bound-IsConsistent q c (failed st m, sv) h = h
  append_bound-IsConsistent q c (raised, sv) h = h

  pub append_request-IsConsistent :
      (q : Request S P) (c : Connection S) (sv : Server R E)
      → IsConsistent sv
      → IsConsistent (append_request T C q c sv).2
  append_request-IsConsistent q c sv h = elim (Bool-cases (ltb C.max_request_bytes q.size)) [
    | inl big ↦ unfold append_request in rw big h
    | inr fits ↦
        unfold append_request in
        rw fits (
          append_bound-IsConsistent q c (ensure_stream_bound q.write_stream c.bound sv)
            (ensure_stream_bound-Resolved q.write_stream c.bound sv h))
  ]

  next_request-IsConsistent :
      (r : Reply Response × Connection S × Server R E)
      (rest : Connection S → Server R E → List Response × CallEnding × Server R E)
      → IsConsistent r.2
      → (IsConsistent r.2 → IsConsistent (rest r.1 r.2).2)
      → IsConsistent (next_request T C r rest).2
  next_request-IsConsistent (reply x, c, sv) rest h k = k h
  next_request-IsConsistent (failed st m, c, sv) rest h k = h
  next_request-IsConsistent (raised, c, sv) rest h k = h

  append_requests-IsConsistent :
      (qs : List (Request S P)) (c : Connection S) (sv : Server R E)
      → IsConsistent sv
      → IsConsistent (append_requests T C qs c sv).2
  unfolding append_requests
  append_requests-IsConsistent [] c sv h = h
  append_requests-IsConsistent (q ∷ qs) c sv h =
      let r = append_request T C q c sv in
      next_request-IsConsistent r (append_requests T C qs) (append_request-IsConsistent q c sv h)
        (append_requests-IsConsistent qs r.1 r.2)

  pub handle_append_rows-IsConsistent :
      (qs : List (Request S P)) (sv : Server R E)
      → IsConsistent sv
      → IsConsistent (handle_append_rows T C qs sv).2
  unfolding handle_append_rows
  handle_append_rows-IsConsistent qs sv h = append_requests-IsConsistent qs _ sv h
