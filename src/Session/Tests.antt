-- ===== src/Session/Tests.antt =====
-- The model of agent_framework/session.py at concrete inputs.
use serac.Common.{
  ◌≡◌, ◌++◌, String, Bool, none, some, [], ◌∷◌, refl, ok, err, ◌>>=◌, map, contains, text_key,
}
use serac.Common.Dict
use serac.Session.{
  SessionMessage, SessionMetadata, stored, CompactionPoint, Store, invalid_id, to_dict, from_dict,
  read_file, load_session, save_session, create_session, append_message, record_compaction, page,
  get_messages,
}
use serac.Session.Ids.{is_session_id}
use serac.Tools.Names.{are_name_chars}
use serac.Session.History.{normal, get-append}

abbrev hello : SessionMessage String
hello = record {
  role = "user";
  content = "hello";
  timestamp = 3;
  tool_calls = some [];
  tool_call_id = some "";
  metadata = none;
}

abbrev meta : SessionMetadata
meta = record {
  session_id = "s1";
  title = "first";
  created_at = 1;
  updated_at = 1;
  compaction_points = [];
  model = "m";
  provider = "p";
}

abbrev store : Store String
store = ("s1", stored [] meta) ∷ ("s2", stored [] meta) ∷ []

abbrev point : CompactionPoint
point = record {
  timestamp = 5;
  summary = "short";
  messages_before = 9;
  messages_after = 3;
  compaction_method = "summary";
}

program : Unit {0}
unfolding to_dict from_dict read_file load_session save_session create_session append_message
    record_compaction page get_messages is_session_id are_name_chars Dict.get Dict.put
program = tt

append_hello :
    (append_message 4 "s1" hello store >>= λ s. get_messages "s1" none none s)
    ≡ ok (record hello { tool_calls = none; tool_call_id = none } ∷ [])
unfolding program
append_hello = refl

create_invalid : create_session "d1" "Session" 2 (some "../x") "" "m" "p" store ≡ err invalid_id
unfolding program
create_invalid = refl

get-append_example :
    (append_message 4 "s1" hello store >>= λ s. get_messages "s1" none none s)
    ≡ (get_messages "s1" none none store >>= λ ms. ok (map normal (ms ++ hello ∷ [])))
get-append_example = get-append "s1" store 4 hello

abbrev matches : String → Bool
matches s = contains s ("hello" ∷ [])
