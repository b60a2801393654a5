-- ===== src/WriteApi/Handlers/Invariant.antt =====
-- CreateWriteStream, GetWriteStream and FinalizeWriteStream keep the state consistent.
use bqemulator.Prelude.{
  ◌≡◌, refl, true, false, Option, none, some, Option-cases, arith, Text, text, text_eq, triple_eq,
  Bool-cases, inl, inr, is_some,
}
use bqemulator.Dict.{get, has, get-put_self}
use bqemulator.Identifiers.{quoted_table_ref}
use bqemulator.Streaming.Stream.{
  StreamType, StreamState, WriteStream, new_stream, opened, finalized, batch_committed,
}
use bqemulator.Streaming.Names.{
  build_stream_name, default_stream_name, parse_table_parent, parse_stream_name,
  is_valid_stream_name, ends_with,
}
use bqemulator.Streaming.Strategies.Sound.{new_stream-IsSound}
use bqemulator.WriteApi.{Server, TableKey, TableMeta}
use bqemulator.WriteApi.Manager.{get_or_create_default}
use bqemulator.WriteApi.Handlers.{
  ProtoType, set_stream, create_typed, create_under, handle_create_write_stream,
  proto_type_to_strategy, get_default, handle_get_write_stream, is_default, finalize_state,
  finalize_found, handle_finalize_write_stream,
}
use bqemulator.WriteApi.Consistent.{
  IsConsistent, set_stream-IsConsistent_new, register-IsConsistent, unregister-IsConsistent,
}

none_of_has : {R : Type 0} (o : Option (WriteStream R)) → is_some o ≡ false → o ≡ none
none_of_has o h = ground arith

module _ {R E : Type 0} where
  create_typed-IsConsistent :
      (o : Option StreamType) (requested : ProtoType) (key : TableKey) (m : TableMeta) (i : Text)
      (sv : Server R E)
      → IsConsistent sv
      → IsConsistent (create_typed o requested key m i sv).1
  unfolding create_typed
  create_typed-IsConsistent none requested key m i sv h = h
  create_typed-IsConsistent (some k) requested key m i sv h =
      let name = build_stream_name key.0 key.1 key.2 i in
      let s = new_stream {R = R} name key.0 key.1 key.2 k in
      elim (Bool-cases (has sv.streams name)) [
        | inl taken ↦ rw taken h
        | inr free ↦ rw free (
            register-IsConsistent (set_stream sv name s) name s
              (record s { metric_registered = true })
              (set_stream-IsConsistent_new sv name s h (none_of_has (get sv.streams name) free)
                (new_stream-IsSound name key.0 key.1 key.2 k) refl refl)
              (get-put_self sv.streams name s) refl
              (ground (arith, new_stream-IsSound {R = R} name key.0 key.1 key.2 k)) refl refl)
      ]

  create_under-IsConsistent :
      (o : Option TableKey) (parent : Text) (requested : ProtoType) (i : Text) (sv : Server R E)
      → IsConsistent sv
      → IsConsistent (create_under o parent requested i sv).1
  create_under-IsConsistent none parent requested i sv h = unfold create_under in h
  create_under-IsConsistent (some key) parent requested i sv h =
      elim (Bool-cases (is_some (quoted_table_ref key.0 key.1 key.2))) [
        | inl good ↦ elim (Option-cases (get sv.tables key)) [
          | inl gone ↦ unfold create_under in rw (good, gone) h
          | inr (m, there) ↦
              unfold create_under in
              rw (good, there)
                (create_typed-IsConsistent (proto_type_to_strategy requested) requested key m i sv
                  h)
        ]
        | inr bad ↦ unfold create_under in rw bad h
      ]

  pub handle_create_write_stream-IsConsistent :
      (parent : Text) (requested : ProtoType) (i : Text) (sv : Server R E)
      → IsConsistent sv
      → IsConsistent (handle_create_write_stream parent requested i sv).1
  handle_create_write_stream-IsConsistent parent requested i sv h =
      unfold handle_create_write_stream in
      create_under-IsConsistent (parse_table_parent parent) parent requested i sv h

  pub get_or_create_default-IsConsistent :
      (p d t : Text) (sv : Server R E)
      → IsConsistent sv
      → IsConsistent (get_or_create_default p d t sv).1
  get_or_create_default-IsConsistent p d t sv h =
      let name = default_stream_name p d t in
      elim (Option-cases (get sv.streams name)) [
        | inl new ↦
            unfold get_or_create_default in
            rw new (
              set_stream-IsConsistent_new sv name (new_stream name p d t StreamType.default) h new
                (new_stream-IsSound name p d t StreamType.default) refl refl)
        | inr (s, old) ↦ unfold get_or_create_default in rw old h
      ]

  get_default-IsConsistent :
      (o : Option (Text × Text × Text × Text)) (name : Text) (sv : Server R E)
      → IsConsistent sv
      → IsConsistent (get_default o name sv).1
  unfolding get_default
  get_default-IsConsistent none name sv h = h
  get_default-IsConsistent (some (p, d, t, i)) name sv h =
      elim (Bool-cases (has sv.tables (p, d, t))) [
        | inl there ↦ rw there (get_or_create_default-IsConsistent p d t sv h)
        | inr gone ↦ rw gone h
      ]

  pub handle_get_write_stream-IsConsistent :
      (name : Text) (sv : Server R E)
      → IsConsistent sv
      → IsConsistent (handle_get_write_stream name sv).1
  handle_get_write_stream-IsConsistent name sv h = elim (Bool-cases (is_valid_stream_name name)) [
    | inl good ↦ elim (Option-cases (get sv.streams name)) [
      | inl new ↦ elim (Bool-cases (ends_with (text "/streams/_default") name)) [
        | inl d ↦
            unfold handle_get_write_stream in
            rw (good, new, d) (get_default-IsConsistent (parse_stream_name name) name sv h)
        | inr n ↦ unfold handle_get_write_stream in rw (good, new, n) h
      ]
      | inr (s, old) ↦ unfold handle_get_write_stream in rw (good, old) h
    ]
    | inr bad ↦ unfold handle_get_write_stream in rw bad h
  ]

  finalize_state-IsConsistent :
      (st : StreamState) (s : WriteStream R) (name : Text) (sv : Server R E)
      → s.state ≡ st
      → is_default s.stream_type ≡ false
      → get sv.streams name ≡ some s
      → IsConsistent sv
      → IsConsistent (finalize_state st s name sv).1
  unfolding finalize_state
  finalize_state-IsConsistent batch_committed s name sv e k f h = h
  finalize_state-IsConsistent finalized s name sv e k f h = h
  finalize_state-IsConsistent opened s name sv e k f h =
      let (sound, named) = h.each name s f in
      unregister-IsConsistent sv name s (record s { state = finalized; metric_registered = false })
        h f (ground arith) named refl

  finalize_found-IsConsistent :
      (o : Option (WriteStream R)) (name : Text) (sv : Server R E)
      → get sv.streams name ≡ o
      → IsConsistent sv
      → IsConsistent (finalize_found o name sv).1
  unfolding finalize_found
  finalize_found-IsConsistent none name sv f h = h
  finalize_found-IsConsistent (some s) name sv f h = elim (Bool-cases (is_default s.stream_type)) [
    | inl d ↦ rw d h
    | inr n ↦ rw n (finalize_state-IsConsistent s.state s name sv refl n f h)
  ]

  pub handle_finalize_write_stream-IsConsistent :
      (name : Text) (sv : Server R E)
      → IsConsistent sv
      → IsConsistent (handle_finalize_write_stream name sv).1
  handle_finalize_write_stream-IsConsistent name sv h =
      unfold handle_finalize_write_stream in
      finalize_found-IsConsistent (get sv.streams name) name sv refl h
