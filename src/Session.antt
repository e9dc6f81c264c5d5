-- ===== src/Session.antt =====
-- agent_framework/session.py: the store of conversations. The directory of the store is a dictionary
-- from a session's id to its file; a file that was not written by the store may be unreadable. `J` is
-- the type of JSON values, a time is a number, and the operations that take the time take it once.
pub mod Ids
pub mod History
pub mod Search
pub mod Tests
use serac.Common.{
  ℕ, suc, ◌+◌, String, Bool, true, false, Option, none, some, List, [], ◌∷◌, ◌++◌, if◌then◌else◌,
  ltb, map, text_key, Result, ok, err, ◌>>=◌, take, drop, length,
}
use Prim.Native.String.{count}
use serac.Common.Dict
use serac.Common.Dict.{Dict, or_else}
use serac.Session.Ids.{is_session_id}

pub record SessionMessage (J : Type 0) : Type 0 where
  pub role : String
  pub content : String
  pub timestamp : ℕ
  pub tool_calls : Option (List J)
  pub tool_call_id : Option String
  pub metadata : Option (Dict String J)

-- What to_dict writes, with the keys that are there.
pub record RawMessage (J : Type 0) : Type 0 where
  pub role : String
  pub content : String
  pub timestamp : Option ℕ
  pub tool_calls : Option (List J)
  pub tool_call_id : Option String
  pub metadata : Option (Dict String J)

pub record CompactionPoint : Type 0 where
  pub timestamp : ℕ
  pub summary : String
  pub messages_before : ℕ
  pub messages_after : ℕ
  pub compaction_method : String

-- The fields that the store itself sets; tags and totals keep their defaults.
pub record SessionMetadata : Type 0 where
  pub session_id : String
  pub title : String
  pub created_at : ℕ
  pub updated_at : ℕ
  pub compaction_points : List CompactionPoint
  pub model : String
  pub provider : String

pub data SessionFile (J : Type 0) : Type 0 where
  unreadable : SessionFile J
  stored : List (RawMessage J) → SessionMetadata → SessionFile J

pub data SessionError : Type 0 where
  invalid_id not_found corrupt : SessionError

-- `if value:` of a list, a text
abbrev pub nonempty {ℓ} : {A : Type ℓ} → Option (List A) → Option (List A)
nonempty none = none
nonempty (some []) = none
nonempty (some (x ∷ xs)) = some (x ∷ xs)

abbrev pub nonblank : Option String → Option String
nonblank none = none
nonblank (some s) = if ltb 0 (count s) then some s else none

abbrev pub Store : Type 0 → Type 0
Store J = Dict String (SessionFile J)

module _ {J : Type 0} where
  unfoldable pub to_dict : SessionMessage J → RawMessage J
  to_dict m = record {
    role = m.role;
    content = m.content;
    timestamp = some m.timestamp;
    tool_calls = nonempty m.tool_calls;
    tool_call_id = nonblank m.tool_call_id;
    metadata = nonempty m.metadata;
  }

  unfoldable pub from_dict : RawMessage J → SessionMessage J
  from_dict m = record {
    role = m.role;
    content = m.content;
    timestamp = or_else m.timestamp 0;
    tool_calls = m.tool_calls;
    tool_call_id = m.tool_call_id;
    metadata = m.metadata;
  }

  unfoldable pub read_file :
      Option (SessionFile J) → Result SessionError (List (SessionMessage J) × SessionMetadata)
  read_file none = err not_found
  read_file (some unreadable) = err corrupt
  read_file (some (stored messages metadata)) = ok (map from_dict messages, metadata)

  -- _load_session
  unfoldable pub load_session :
      String → Store J → Result SessionError (List (SessionMessage J) × SessionMetadata)
  load_session session_id store =
      if is_session_id session_id then read_file (Dict.get session_id store) else err invalid_id

  -- _save_session
  unfoldable pub save_session :
      String → List (SessionMessage J) → SessionMetadata → Store J → Result SessionError (Store J)
  save_session session_id messages metadata store =
      if is_session_id session_id
      then ok (Dict.put session_id (stored (map to_dict messages) metadata) store)
      else err invalid_id

  -- create_session, with the id drawn where none is given and the title made of the time
  unfoldable pub create_session :
      String
      → String
      → ℕ
      → Option String
      → String
      → String
      → String
      → Store J
      → Result SessionError (SessionMetadata × Store J)
  create_session drawn untitled now session_id title model provider store =
      let id = or_else (nonblank session_id) drawn in
      let metadata : SessionMetadata = record {
        session_id = id;
        title = or_else (nonblank (some title)) untitled;
        created_at = now;
        updated_at = now;
        compaction_points = [];
        model = model;
        provider = provider;
      } in
      save_session id [] metadata store >>= λ store'. ok (metadata, store')

  unfoldable pub append_message :
      ℕ → String → SessionMessage J → Store J → Result SessionError (Store J)
  append_message now session_id message store = load_session session_id store >>= λ loaded.
      save_session session_id (loaded.0 ++ message ∷ []) (record loaded.1 { updated_at = now })
        store

  unfoldable pub record_compaction :
      ℕ → String → CompactionPoint → Store J → Result SessionError (Store J)
  record_compaction now session_id point store = load_session session_id store >>= λ loaded.
      save_session session_id loaded.0
        (record loaded.1 {
          compaction_points = loaded.1.compaction_points ++ point ∷ [];
          updated_at = now;
        })
        store

  unfoldable pub page : Option ℕ → Option ℕ → List (SessionMessage J) → List (SessionMessage J)
  page (some start) (some end) messages = drop start (take end messages)
  page (some start) none messages = drop start messages
  page none (some end) messages = take end messages
  page none none messages = messages

  unfoldable pub get_messages :
      String → Option ℕ → Option ℕ → Store J → Result SessionError (List (SessionMessage J))
  get_messages session_id start end store =
      load_session session_id store >>= λ loaded. ok (page start end loaded.0)

  unfoldable pub get_compaction_points :
      String → Store J → Result SessionError (List CompactionPoint)
  get_compaction_points session_id store =
      load_session session_id store >>= λ loaded. ok loaded.1.compaction_points

  -- The loop of search_messages from index `i` on, with `found` results so far.
  unfoldable pub search_from :
      (String → Bool) → ℕ → ℕ → ℕ → List (SessionMessage J) → List (ℕ × SessionMessage J)
  search_from matches max_results i found [] = []
  search_from matches max_results i found (m ∷ rest) =
      let later = search_from matches max_results (suc i) (suc found) rest in
      let skipped = search_from matches max_results (suc i) found rest in
      if matches m.content
      then ((i, m) ∷ (if ltb (suc found) max_results then later else []))
      else skipped

  -- search_messages; `matches` is `query.lower() in content.lower()`
  unfoldable pub search_messages :
      (String → Bool) → String → ℕ → Store J → Result SessionError (List (ℕ × SessionMessage J))
  search_messages matches session_id max_results store =
      load_session session_id store >>= λ loaded. ok (search_from matches max_results 0 0 loaded.0)
