-- ===== src/Session/History.antt =====
-- What the store of agent_framework/session.py keeps.
use serac.Common.{
  ◌≡◌, ℕ, String, true, false, refl, ap, ◌∙◌, ap₂, none, List, [], ◌∷◌, ◌++◌, map, Result, ok, err,
  ◌>>=◌, text_key, same_refl, ◌==◌, Bool-cases, inl, inr,
}
use serac.Common.Dict.{get-put}
use serac.Session.{
  SessionMessage, SessionMetadata, SessionError, nonempty, nonblank, to_dict, from_dict, Store,
  read_file, load_session, save_session, append_message, record_compaction, get_messages, page,
  CompactionPoint, invalid_id,
}
use serac.Session.Ids.{is_session_id}

module _ {J : Type 0} where
  -- A message as it comes back: an empty list, text or dictionary is none.
  abbrev pub normal : SessionMessage J → SessionMessage J
  normal m = record m {
    tool_calls = nonempty m.tool_calls;
    tool_call_id = nonblank m.tool_call_id;
    metadata = nonempty m.metadata;
  }

  from-to : (m : SessionMessage J) → from_dict (to_dict m) ≡ normal m
  unfolding from_dict to_dict
  from-to m = refl

  from-to_each : (ms : List (SessionMessage J)) → map from_dict (map to_dict ms) ≡ map normal ms
  from-to_each [] = refl
  from-to_each (m ∷ ms) = ap₂ (λ x xs. x ∷ xs) (from-to m) (from-to_each ms)

  module _ (id : String) (store : Store J) where
    not_loaded : is_session_id id ≡ false → load_session id store ≡ err invalid_id
    unfolding load_session
    not_loaded v = rw v refl

    abbrev Loaded : Type 0
    Loaded = List (SessionMessage J) × SessionMetadata

    -- A session that is loaded, changed and saved.
    abbrev changed : (Loaded → Loaded) → Result SessionError (Store J)
    changed f = load_session id store >>= λ l. save_session id (f l).0 (f l).1 store

    resaved :
        (l : Loaded)
        → is_session_id id ≡ true
        → (save_session id l.0 l.1 store >>= λ s. load_session id s) ≡ ok (map normal l.0, l.1)
    unfolding load_session save_session read_file
    resaved (ms, meta) v = rw (v, get-put, same_refl id, from-to_each) refl

    resaved_each :
        (f : Loaded → Loaded) (r : Result SessionError Loaded)
        → is_session_id id ≡ true
        → ((r >>= λ l. save_session id (f l).0 (f l).1 store) >>= λ s. load_session id s)
          ≡ (r >>= λ l. ok (map normal (f l).0, (f l).1))
    resaved_each f (err e) v = refl
    resaved_each f (ok l) v = resaved (f l) v

    load-changed :
        (f : Loaded → Loaded)
        → (changed f >>= λ s. load_session id s)
          ≡ (load_session id store >>= λ l. ok (map normal (f l).0, (f l).1))
    load-changed f = elim (Bool-cases (is_session_id id)) [
      | inr v ↦ rw (not_loaded v) refl
      | inl v ↦ resaved_each f (load_session id store) v
    ]

    saved_other :
        (l : Loaded) (other : String)
        → (id == other) ≡ false
        → (save_session id l.0 l.1 store >>= λ s. load_session other s)
          ≡ (save_session id l.0 l.1 store >>= λ s. load_session other store)
    unfolding load_session save_session
    saved_other l other d = elim (Bool-cases (is_session_id id)) [
      | inr v ↦ rw v refl
      | inl v ↦ rw (v, get-put, d) refl
    ]

    load_other-changed :
        (f : Loaded → Loaded) (other : String)
        → (id == other) ≡ false
        → (changed f >>= λ s. load_session other s) ≡ (changed f >>= λ s. load_session other store)
    load_other-changed f other d = by_loaded (load_session id store)
      where
        by_loaded :
            (r : Result SessionError Loaded)
            → ((r >>= λ l. save_session id (f l).0 (f l).1 store) >>= λ s. load_session other s) ≡ (
                (r >>= λ l. save_session id (f l).0 (f l).1 store) >>= λ s.
                load_session other store)
        by_loaded (err e) = refl
        by_loaded (ok l) = saved_other (f l) other d

    -- After a message is appended, the session's messages are those of before and the new one, where an
    -- empty list, text or dictionary comes back as none; where loading raises, appending raises the same.
    pub get-append :
        (now : ℕ) (m : SessionMessage J)
        → (append_message now id m store >>= λ s. get_messages id none none s)
          ≡ (get_messages id none none store >>= λ ms. ok (map normal (ms ++ m ∷ [])))
    unfolding get_messages append_message page
    get-append now m =
        in_turn (changed f)
        ∙ ap (λ r. r >>= λ l. ok l.0) (load-changed f)
        ∙ by_loaded (load_session id store)
      where
        f : Loaded → Loaded
        f l = (l.0 ++ m ∷ [], record l.1 { updated_at = now })

        renewed : Loaded → Result SessionError Loaded
        renewed l = ok (map normal (f l).0, (f l).1)

        in_turn :
            (r : Result SessionError (Store J))
            → (r >>= λ s. load_session id s >>= λ l. ok l.0)
              ≡ ((r >>= λ s. load_session id s) >>= λ l. ok l.0)
        in_turn (err e) = refl
        in_turn (ok s) = refl

        by_loaded :
            (r : Result SessionError Loaded)
            → ((r >>= renewed) >>= λ l. ok l.0)
              ≡ ((r >>= λ l. ok l.0) >>= λ ms. ok (map normal (ms ++ m ∷ [])))
        by_loaded (err e) = refl
        by_loaded (ok l) = refl

    -- Whatever is appended to a session and wherever a compaction is recorded, another session is loaded
    -- as before.
    pub load-append_other :
        (now : ℕ) (m : SessionMessage J) (point : CompactionPoint) (other : String)
        → (id == other) ≡ false
        → ((append_message now id m store >>= λ s. load_session other s)
            ≡ (append_message now id m store >>= λ s. load_session other store))
          × ((record_compaction now id point store >>= λ s. load_session other s)
              ≡ (record_compaction now id point store >>= λ s. load_session other store))
    unfolding append_message record_compaction
    load-append_other now m point other d =
        (load_other-changed _ other d, load_other-changed _ other d)
