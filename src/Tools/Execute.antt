-- ===== src/Tools/Execute.antt =====
-- ToolRegistry.execute of agent_framework/tools.py. The calls run one after the other: it is one of the
-- orders of the thread pool, whose `map` gives the results in the order of the calls. Parameters are
-- json.loads and the text methods that the source calls.
use serac.Common.{
  ℕ, String, Bool, true, false, Option, none, some, List, [], ◌∷◌, if◌then◌else◌, not, keep,
  text_key, Result, ok, err,
}
use serac.Common.Dict
use serac.Common.Dict.{Dict, or_else}
use serac.Common.Text.{concat, join}
use serac.Tools.{ToolDef, Done, returns, throws}
use serac.Tools.Resolver.{ToolResolver, Matching, AttributeError, resolve}

-- What json.loads gives: an object; a text or a list, with what `in` says of a key and what dict()
-- makes of it, none where it raises; or a value, as a number, of which both raise a TypeError.
pub data Loaded (J : Type 0) : Type 0 where
  object : Dict String J → Loaded J
  sized : (String → Bool) → Option (Dict String J) → Loaded J
  scalar : Loaded J

-- The arguments of a call: a text, a dict, or anything else.
pub data RawArguments (J : Type 0) : Type 0 where
  text : String → RawArguments J
  given : Dict String J → RawArguments J
  other : RawArguments J

pub record FunctionDict (J : Type 0) : Type 0 where
  pub name : Option String
  pub arguments : Option (RawArguments J)

-- A call, in OpenAI's format if it has the key "function", else flat.
pub record CallDict (J : Type 0) : Type 0 where
  pub function : Option (FunctionDict J)
  pub name : Option String
  pub arguments : Option (RawArguments J)
  pub id : Option String
  pub tool_call_id : Option String

pub record ToolResult : Type 0 where
  pub tool_call_id : String
  pub content : String
  pub tool_name : String
  -- whether the key "_error" says missing_required_arguments
  pub misses : Bool

pub record World (J : Type 0) : Type 0 where
  -- json.loads, none where it raises
  pub loads : String → Option (Loaded J)
  -- not s.strip()
  pub is_blank : String → Bool
  -- s[:100]
  pub clipped : String → String
  -- the sentence for a TypeError of dict()
  pub no_mapping : String
  -- time.monotonic()
  pub now : ℕ
  pub matching : Matching

-- What may leave `execute` as an exception.
pub data Raised : Type 0 where
  attribute_error : AttributeError → Raised
  type_error : Raised

abbrev pub call_name : {J : Type 0} → CallDict J → String
call_name call = elim call.function [
  | some f ↦ or_else f.name "unknown"
  | none ↦ or_else call.name "unknown"
]

abbrev pub call_id : {J : Type 0} → CallDict J → String
call_id call = or_else call.id (or_else call.tool_call_id "")

abbrev pub raw_arguments : {J : Type 0} → CallDict J → RawArguments J
raw_arguments call = elim call.function [
  | some f ↦ or_else f.arguments (text "{}")
  | none ↦ or_else call.arguments (given [])
]

abbrev pub result : String → String → String → ToolResult
result id name content = record {
  tool_call_id = id;
  content = content;
  tool_name = name;
  misses = false;
}

-- The exception, or the result, and the resolver behind it.
abbrev pub Ran : Type 0
Ran = Result Raised ToolResult × Option ToolResolver

module _ {J : Type 0} (w : World J) where
  unfoldable pub read_arguments : RawArguments J → Option (Loaded J)
  read_arguments (text s) = if w.is_blank s then some (object []) else w.loads s
  read_arguments (given d) = some (object d)
  read_arguments other = some (object [])

  -- [key for key in required if key not in args], none where `in` raises
  unfoldable pub missing : Loaded J → List String → Option (List String)
  missing (object d) required =
      some (keep (λ key. elim (Dict.get key d) [ none ↦ true | some _ ↦ false ]) required)
  missing (sized has d) required = some (keep (λ key. not (has key)) required)
  missing scalar [] = some []
  missing scalar (_ ∷ _) = none

  -- dict(args)
  unfoldable pub as_dict : Loaded J → Option (Dict String J)
  as_dict (object d) = some d
  as_dict (sized has d) = d
  as_dict scalar = none

  unfoldable pub with_context : Option J → Dict String J → Dict String J
  with_context none d = d
  with_context (some context) d = Dict.put "context" context d

  unfoldable pub done_content : String → Done → String
  done_content name (returns content) = or_else content ""
  done_content name (throws e) = concat ("Error executing '" ∷ name ∷ "': " ∷ e ∷ [])

  -- The executor's call, in its try block.
  unfoldable pub call_executor : String → ToolDef J → Option J → Option (Dict String J) → Done
  call_executor name t context none = throws w.no_mapping
  call_executor name t context (some d) = t.executor (with_context context d)

  unfoldable pub checked :
      String
      → String
      → ToolDef J
      → Option J
      → Loaded J
      → Option (List String)
      → Result Raised ToolResult
  checked id name t context args none = err type_error
  checked id name t context args (some []) =
      ok (result id name (done_content name (call_executor name t context (as_dict args))))
  checked id name t context args (some (key ∷ keys)) = ok (record {
    tool_call_id = id;
    content =
        concat
          ("Error: tool '" ∷ name ∷ "' missing required arguments: " ∷ join ", " (key ∷ keys) ∷ []);
    tool_name = name;
    misses = true;
  })

  unfoldable pub run_tool :
      String → String → Option (ToolDef J) → Option J → Loaded J → Result Raised ToolResult
  run_tool id name none context args =
      ok (result id name (concat ("Error: tool '" ∷ name ∷ "' not found" ∷ [])))
  run_tool id name (some t) context args = checked id name t context args (missing args t.required)

  module _ (tools : Dict String (ToolDef J)) (context : Option J) where
    unfoldable pub run_found :
        String → String → String → Loaded J → Option (ToolDef J) → Result Raised ToolResult
    run_found id name resolved args none = run_tool id name none context args
    run_found id name resolved args (some t) = run_tool id resolved (some t) context args

    -- Behind the resolver: `resolved and resolved in self._tools`
    unfoldable pub run_resolved :
        String → String → Loaded J → Result AttributeError (Option String) × ToolResolver → Ran
    run_resolved id name args (err e, r) = (err (attribute_error e), some r)
    run_resolved id name args (ok none, r) = (run_tool id name none context args, some r)
    run_resolved id name args (ok (some resolved), r) =
        (run_found id name resolved args (Dict.get resolved tools), some r)

    unfoldable pub run_named :
        String → String → Loaded J → Option (ToolDef J) → Option ToolResolver → Ran
    run_named id name args (some t) r = (run_tool id name (some t) context args, r)
    run_named id name args none none = (run_tool id name none context args, none)
    run_named id name args none (some r) =
        run_resolved id name args (resolve w.matching w.now name r)

    unfoldable pub run_read :
        String → String → RawArguments J → Option (Loaded J) → Option ToolResolver → Ran
    run_read id name raw (some args) r = run_named id name args (Dict.get name tools) r
    run_read id name raw none r = (
      ok (
          result id name (
            concat (
              "Error: tool '"
              ∷ name
              ∷ "' received invalid JSON arguments: "
              ∷ w.clipped (elim raw [ text s ↦ s | _ ↦ "" ])
              ∷ []))),
      r,
    )

    -- _run_one
    unfoldable pub run_one : CallDict J → Option ToolResolver → Ran
    run_one call r =
        run_read (call_id call) (call_name call) (raw_arguments call)
          (read_arguments (raw_arguments call)) r

    abbrev pub and_result :
        Result Raised ToolResult → Result Raised (List ToolResult) → Result Raised (List ToolResult)
    and_result (err e) rest = err e
    and_result (ok x) (err e) = err e
    and_result (ok x) (ok xs) = ok (x ∷ xs)

    -- execute: every call runs, and the first exception is raised.
    unfoldable pub execute :
        List (CallDict J)
        → Option ToolResolver
        → Result Raised (List ToolResult) × Option ToolResolver
    execute [] r = (ok [], r)
    execute (call ∷ calls) r =
        let (x, r') = run_one call r in let (xs, r'') = execute calls r' in (and_result x xs, r'')
