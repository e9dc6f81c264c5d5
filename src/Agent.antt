-- ===== src/Agent.antt =====
-- agent_framework/loop.py: the agent's message loop, and the data of providers.py that it handles.
-- This module has the messages, the state of an `AgentLoop` and what the loop calls: the provider,
-- the tools, the clock and the JSON of a value are the fields of `World`. Logging and the tracer,
-- which only record, and the session store, whose errors are caught, are left out. A provider's `cost`
-- and the times are whole numbers of some small unit; the float test of `_maybe_compact` is a
-- parameter of the configuration.
pub mod Compact
pub mod Final
pub mod Turn
pub mod Calls
pub mod Run
pub mod Budget
pub mod History
pub mod Limits
pub mod Shorten
pub mod Tests
use serac.Common.{ℕ, ◌+◌, String, Bool, Option, List, [], ◌∷◌, none, some}
use serac.Retry.{ProviderError}

pub record UsageStats : Type 0 where
  pub prompt_tokens : ℕ
  pub completion_tokens : ℕ
  pub cost : ℕ

-- UsageStats.__add__
unfoldable pub add_usage : UsageStats → UsageStats → UsageStats
add_usage a b = record {
  prompt_tokens = a.prompt_tokens + b.prompt_tokens;
  completion_tokens = a.completion_tokens + b.completion_tokens;
  cost = a.cost + b.cost;
}

pub record ToolCall : Type 0 where
  pub id : String
  pub name : String
  pub arguments : String

pub data Role : Type 0 where
  system user assistant tool : Role

-- A message: the keys that it has. `tool_name` is `_tool_name`.
pub record Message : Type 0 where
  pub role : Role
  pub content : Option String
  pub tool_calls : List ToolCall
  pub tool_call_id : Option String
  pub tool_name : Option String

pub record ChatResponse : Type 0 where
  pub text : String
  pub reasoning_content : String
  pub tool_calls : List ToolCall
  pub finish_reason : Option String
  pub usage : UsageStats
  pub error : Option ProviderError

-- provider.chat returns a response, or raises.
pub data Reply : Type 0 where
  answers : ChatResponse → Reply
  throws : String → Reply

-- Which call of the loop asks the provider.
pub data Purpose : Type 0 where
  turn compaction finalization : Purpose

pub record Request : Type 0 where
  pub purpose : Purpose
  pub messages : List Message
  -- whether the tools' schema is sent
  pub with_tools : Bool
  -- provider.max_tokens at the call, if it is an int
  pub max_tokens : Option ℕ

pub record World : Type 0 where
  -- the answer to a request that follows the given ones
  pub chat : List Request → Request → Reply
  -- ToolRegistry.execute in a turn, on the conversation
  pub execute : ℕ → List ToolCall → List Message → List Message
  -- bool(tool_registry.tools)
  pub has_tools : Bool
  -- getattr(provider, "coalesce_tool_results", True)
  pub provider_coalesces : Bool
  -- provider.max_tokens, if it is an int
  pub max_tokens : Option ℕ
  -- time.monotonic() where a turn, or the finalization, tests it after so many requests
  pub clock : Purpose → ℕ → ℕ
  -- len(json.dumps(tool_call))
  pub call_length : ToolCall → ℕ
  -- json.dumps(messages, default=str), if it does not raise
  pub dumps : List Message → Option String
  -- str of a number
  pub decimal : ℕ → String

pub record Config : Type 0 where
  pub system_prompt : String
  pub max_turns : ℕ
  pub coalesce_results : Bool
  pub finalize_empty_tool_response : Bool
  pub finalization_prompt : String
  -- token_count / max_context_tokens >= compaction_threshold
  pub over_threshold : ℕ → Bool
  pub max_total_tokens : ℕ
  pub max_wall_clock : ℕ

pub data Rejection : Type 0 where
  truncated : Bool → Rejection
  token_budget_exhausted wall_clock_exhausted token_budget_exceeded : Rejection
  provider_failed unexpected_tool_calls : Rejection

pub record LoopState : Type 0 where
  pub messages : List Message
  pub total_usage : UsageStats
  pub turn_count : ℕ
  pub finalization_attempted : Bool
  pub last_response_rejected : Bool
  pub last_rejection_reason : Option Rejection
  -- what waits in the steering queue
  pub steering : List String
  -- the requests made of the provider, oldest first
  pub requests : List Request

abbrev pub no_usage : UsageStats
no_usage = record { prompt_tokens = 0; completion_tokens = 0; cost = 0 }

-- used tokens, as the budget counts them
abbrev pub used : UsageStats → ℕ
used u = u.prompt_tokens + u.completion_tokens

abbrev pub message : Role → String → Message
message role content = record {
  role = role;
  content = some content;
  tool_calls = [];
  tool_call_id = none;
  tool_name = none;
}

-- reset()
unfoldable pub reset : LoopState → LoopState
reset s = record s {
  messages = [];
  total_usage = no_usage;
  turn_count = 0;
  finalization_attempted = Bool.false;
  last_response_rejected = Bool.false;
  last_rejection_reason = none;
}
