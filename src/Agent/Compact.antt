-- ===== src/Agent/Compact.antt =====
-- Steering and context compaction of agent_framework/loop.py.
use Prim.Native.String.{count}
use serac.Common.{
  ℕ, ◌+◌, ◌-◌, ◌/◌, max, String, Bool, true, false, Option, none, some, List, [], ◌∷◌, ◌++◌,
  if◌then◌else◌, length, drop, ltb,
}
use serac.Common.Dict.{or_else}
use serac.Common.Text.{concat}
use serac.Agent.{
  Message, system, user, message, ToolCall, World, Config, LoopState, Request, compaction, Reply,
  answers, throws,
}

-- messages[-n:]
abbrev pub take_last {ℓ} : {A : Type ℓ} → ℕ → List A → List A
take_last n xs = drop (length xs - n) xs

abbrev pub is_system : Message → Bool
is_system m = elim m.role [ system ↦ true | _ ↦ false ]

abbrev pub is_user : Message → Bool
is_user m = elim m.role [ user ↦ true | _ ↦ false ]

-- [m] if the test holds of m, for the optional parts of the new history
abbrev pub only_if : (Message → Bool) → Message → List Message
only_if p m = if p m then m ∷ [] else []

abbrev pub first_system : List Message → List Message
first_system [] = []
first_system (m ∷ rest) = only_if is_system m

abbrev pub last_user : List Message → List Message
last_user [] = []
last_user (m ∷ []) = only_if is_user m
last_user (m ∷ n ∷ rest) = last_user (n ∷ rest)

unfoldable pub steering_text : String → String
steering_text msg = concat (
    "[OUT-OF-BAND STEERING]\n" ∷ msg
    ∷ "\n[END STEERING]\n\nPlease adjust your approach accordingly and continue." ∷ [])

-- `_check_steering` and `_inject_steering`: an empty message is taken from the queue and dropped.
unfoldable pub steer : List String → LoopState → LoopState
steer [] s = s
steer (msg ∷ rest) s =
    if ltb 0 (count msg)
    then record s {
      messages = s.messages ++ message user (steering_text msg) ∷ [];
      steering = rest;
    }
    else record s { steering = rest }

unfoldable pub calls_length : World → List ToolCall → ℕ
calls_length w [] = 0
calls_length w (c ∷ rest) = w.call_length c + calls_length w rest

unfoldable pub characters : World → List Message → ℕ
characters w [] = 0
characters w (m ∷ rest) =
    count (or_else m.content "") + calls_length w m.tool_calls + characters w rest

unfoldable pub estimate_tokens : World → List Message → ℕ
estimate_tokens w messages = max 1 (characters w messages / 4)

unfoldable pub compact_prompt : String → String
compact_prompt history = concat (
    "You are helping compress this conversation for context window management.\nSummarize the key decisions, findings, and current state in 10-15 bullet points.\nPreserve specific values, file paths, and conclusions.\n\nConversation history:\n"
    ∷ history ∷ [])

unfoldable pub carryover : String → Message
carryover text =
    message user (concat ("[COMPACTED CONTEXT]\n" ∷ text ∷ "\n[END COMPACTED CONTEXT]" ∷ []))

unfoldable pub compaction_request : World → String → Request
compaction_request w history = record {
  purpose = compaction;
  messages =
      message system "You are a concise summarizer." ∷ message user (compact_prompt history) ∷ [];
  with_tools = false;
  max_tokens = w.max_tokens;
}

-- The history behind the reply to the request for a summary. The response's `error` is not read.
unfoldable pub compacted : Reply → List Message → List Message
compacted (throws e) messages = messages
compacted (answers resp) messages =
    first_system messages ++ carryover resp.text ∷ last_user messages

-- Keeps the last ten messages, behind the system message.
unfoldable pub hard_truncate : List Message → List Message
hard_truncate messages = first_system messages ++ take_last 10 messages

-- `_self_compact`, and the truncation where the history cannot be written as JSON.
unfoldable pub self_compact : World → Option String → LoopState → LoopState
self_compact w none s = record s { messages = hard_truncate s.messages }
self_compact w (some history) s =
    let request = compaction_request w history in
    record s {
      messages = compacted (w.chat s.requests request) s.messages;
      requests = s.requests ++ request ∷ [];
    }

unfoldable pub maybe_compact : World → Config → LoopState → LoopState
maybe_compact w c s =
    if c.over_threshold (estimate_tokens w s.messages)
    then self_compact w (w.dumps (take_last 30 s.messages)) s
    else s
