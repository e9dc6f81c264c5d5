-- ===== src/Security/Tracker.antt =====
-- The record of tool calls of agent_framework/tool_security.py. Floats are a parameter with their sum and
-- quotient.
use serac.Common.{
  ℕ, zero, suc, ◌-◌, ◌+◌, ltb, Bool, true, false, Option, none, some, List, [], ◌∷◌, ◌++◌,
  if◌then◌else◌, keep, map, take, drop, length, String, text_key, ◌==◌,
}
use serac.Common.Dict.{Dict, get, put, or_else}
use serac.Common.Chars.{Text}

pub data ToolCallStatus : Type 0 where
  success failed : ToolCallStatus

abbrev pub is_failed : ToolCallStatus → Bool
is_failed success = false
is_failed failed = true

-- status.value
abbrev pub value : ToolCallStatus → String
value success = "success"
value failed = "failed"

-- xs[-n:]
abbrev pub last_of {ℓ} : {A : Type ℓ} → ℕ → List A → List A
last_of zero xs = xs
last_of (suc n) xs = drop (length xs - suc n) xs

module _ (F : Type 0) where
  pub record Floats : Type 0 where
    pub nil : F
    pub plus : F → F → F
    pub over : F → ℕ → F

  pub record ToolCallRecord : Type 0 where
    pub timestamp : F
    pub tool_name : String
    pub status : ToolCallStatus
    pub duration_ms : F
    pub sanitized : Bool
    pub original_query : Text
    pub sanitized_query : Text
    pub result_count : ℕ
    pub tokens_used : ℕ
    pub cost : F
    pub error : Text

  pub record RecentCall : Type 0 where
    pub tool : String
    pub status : String
    pub duration_ms : F
    pub sanitized : Bool
    pub query : Text

  pub record ToolUsageSummary : Type 0 where
    pub total_calls : ℕ
    pub total_duration_ms : F
    pub total_cost : F
    pub total_tokens : ℕ
    pub tools : Dict String ℕ
    pub sanitized_count : ℕ
    pub error_count : ℕ
    pub recent_calls : List RecentCall

  pub record ToolStats : Type 0 where
    pub count : ℕ
    pub avg_duration_ms : F
    pub total_cost : F
    pub sanitized_count : ℕ
    pub error_count : ℕ

  pub record ToolUsageTracker : Type 0 where
    pub session_id : String
    pub max_records : ℕ
    pub records : List ToolCallRecord

abbrev pub default_session : Option String → String
default_session none = "default"
default_session (some s) = if s == "" then "default" else s

module _ {F : Type 0} where
  unfoldable pub init : Option String → ℕ → ToolUsageTracker F
  init session_id max_records = record {
    session_id = default_session session_id;
    max_records = max_records;
    records = [];
  }

  -- The record of a call, whose texts are cut.
  abbrev pub cut : ToolCallRecord F → ToolCallRecord F
  cut r = record r {
    original_query = take 200 r.original_query;
    sanitized_query = take 200 r.sanitized_query;
    error = take 200 r.error;
  }

  unfoldable pub record_call : ToolCallRecord F → ToolUsageTracker F → ToolUsageTracker F
  record_call r t =
      let records = t.records ++ cut r ∷ [] in
      record t {
        records =
            if ltb t.max_records (length records) then last_of t.max_records records else records;
      }

  unfoldable pub count_tools : List (ToolCallRecord F) → Dict String ℕ → Dict String ℕ
  count_tools [] tools = tools
  count_tools (r ∷ rs) tools =
      count_tools rs (put r.tool_name (or_else (get r.tool_name tools) 0 + 1) tools)

  abbrev pub sum_tokens : List (ToolCallRecord F) → ℕ
  sum_tokens [] = 0
  sum_tokens (r ∷ rs) = r.tokens_used + sum_tokens rs

  abbrev pub recent : ToolCallRecord F → RecentCall F
  recent r = record {
    tool = r.tool_name;
    status = value r.status;
    duration_ms = r.duration_ms;
    sanitized = r.sanitized;
    query = take 80 r.sanitized_query;
  }

  module _ (floats : Floats F) where
    -- sum, from the left
    abbrev pub sum_from : F → List F → F
    sum_from total [] = total
    sum_from total (x ∷ xs) = sum_from (floats.plus total x) xs

    unfoldable pub summary : ℕ → ToolUsageTracker F → ToolUsageSummary F
    summary last_n t = record {
      total_calls = length t.records;
      total_duration_ms = sum_from floats.nil (map (λ r. r.duration_ms) t.records);
      total_cost = sum_from floats.nil (map (λ r. r.cost) t.records);
      total_tokens = sum_tokens t.records;
      tools = count_tools t.records [];
      sanitized_count = length (keep (λ r. r.sanitized) t.records);
      error_count = length (keep (λ r. is_failed r.status) t.records);
      recent_calls = map recent (last_of last_n t.records);
    }

    abbrev pub stats_of : List (ToolCallRecord F) → Option (ToolStats F)
    stats_of [] = none
    stats_of (r ∷ rs) = some (record {
      count = length (r ∷ rs);
      avg_duration_ms =
          floats.over (sum_from floats.nil (map (λ r. r.duration_ms) (r ∷ rs))) (length (r ∷ rs));
      total_cost = sum_from floats.nil (map (λ r. r.cost) (r ∷ rs));
      sanitized_count = length (keep (λ r. r.sanitized) (r ∷ rs));
      error_count = length (keep (λ r. is_failed r.status) (r ∷ rs));
    })

    -- none for {"count": 0}
    unfoldable pub get_tool_stats : String → ToolUsageTracker F → Option (ToolStats F)
    get_tool_stats tool_name t = stats_of (keep (λ r. r.tool_name == tool_name) t.records)
