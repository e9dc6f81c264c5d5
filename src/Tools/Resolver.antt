-- ===== src/Tools/Resolver.antt =====
-- agent_framework/tool_resolver.py: from the name that a model asks for to a registered tool.
-- Of the registry that is attached, the resolver reads the names. difflib's get_close_matches and the
-- function that asks a model are parameters; a time is a whole number of some small unit.
use Prim.Native.String.{count}
use serac.Common.{
  ℕ, ◌-◌, String, Option, none, some, List, [], ◌∷◌, if◌then◌else◌, ltb, text_key, Result, ok, err,
  contains,
}
use serac.Common.Dict
use serac.Common.Dict.{Dict}

pub record Matching : Type 0 where
  -- difflib.get_close_matches(name, names, n=1, cutoff=0.8)
  pub close_matches : String → List String → List String
  -- 300 seconds
  pub miss_ttl : ℕ

pub record ToolResolver : Type 0 where
  -- AliasPolicy.aliases
  pub aliases : Dict String String
  -- LLMPolicy.resolve_fn
  pub llm_resolve : Option (String → List String → Option String)
  -- the names of the attached registry
  pub registry : Option (List String)
  pub cache : Dict String String
  pub miss_cache : Dict String ℕ

-- Calling `registry.tools` where there is no registry.
pub data AttributeError : Type 0 where
  no_registry : AttributeError

-- dict.update
unfoldable pub update : Dict String String → Dict String String → Dict String String
update [] d = d
update ((k, v) ∷ more) d = update more (Dict.put k v d)

abbrev pub default_aliases : Dict String String
default_aliases =
    ("file_read", "read_file")
    ∷ ("read", "read_file")
    ∷ ("cat", "read_file")
    ∷ ("read_text", "read_file")
    ∷ ("file_write", "write_file")
    ∷ ("write", "write_file")
    ∷ ("create_file", "write_file")
    ∷ ("patch", "patch_file")
    ∷ ("edit", "patch_file")
    ∷ ("edit_file", "patch_file")
    ∷ ("replace", "patch_file")
    ∷ ("search", "code_search")
    ∷ ("search_code", "code_search")
    ∷ ("grep", "code_search")
    ∷ ("codegrep", "code_search")
    ∷ ("grep_search", "code_search")
    ∷ ("find", "find_files")
    ∷ ("list_files", "find_files")
    ∷ ("ls", "find_files")
    ∷ ("list_directory", "find_files")
    ∷ ("dir", "find_files")
    ∷ ("run", "execute_terminal")
    ∷ ("shell", "execute_terminal")
    ∷ ("bash", "execute_terminal")
    ∷ ("run_command", "execute_terminal")
    ∷ ("exec", "execute_terminal")
    ∷ ("terminal", "execute_terminal")
    ∷ ("python", "execute_python")
    ∷ ("run_python", "execute_python")
    ∷ ("exec_python", "execute_python")
    ∷ ("git", "git_status")
    ∷ ("status", "git_status")
    ∷ ("diff", "git_diff")
    ∷ ("log", "git_log")
    ∷ ("gitlog", "git_log")
    ∷ []

-- __init__
unfoldable pub init :
    Option (Dict String String)
    → Option (List String)
    → Option (String → List String → Option String)
    → ToolResolver
init aliases registry llm_resolve = record {
  aliases = update (Dict.or_else aliases []) default_aliases;
  llm_resolve = llm_resolve;
  registry = registry;
  cache = [];
  miss_cache = [];
}

-- `if result:` of a text
abbrev pub truthy : Option String → Option String
truthy none = none
truthy (some text) = if ltb 0 (count text) then some text else none

-- A policy's answer that is accepted: a registered name.
unfoldable pub accepted : List String → Option String → Option String
accepted names none = none
accepted names (some text) = if contains text names then truthy (some text) else none

abbrev pub first : List String → Option String
first [] = none
first (name ∷ _) = some name

-- LLMPolicy.resolve; without a function the policy is not in the chain.
unfoldable pub llm_answer :
    Option (String → List String → Option String) → String → List String → Option String
llm_answer none name names = none
llm_answer (some ask) name names = accepted names (ask name names)

-- The first answer that there is.
abbrev pub or_next : Option String → Option String → Option String
or_next (some a) b = some a
or_next none b = b

-- The chain of policies, with a registry.
unfoldable pub policies : Matching → ToolResolver → String → List String → Option String
policies w r name names = or_next (accepted names (Dict.get name r.aliases)) (
    or_next (accepted names (first (w.close_matches name names)))
      (accepted names (llm_answer r.llm_resolve name names)))

-- Behind the policies.
unfoldable pub remembered :
    ℕ → String → Option String → ToolResolver → Result AttributeError (Option String) × ToolResolver
remembered now name (some tool) r =
    (ok (some tool), record r { cache = Dict.put name tool r.cache })
remembered now name none r = (ok none, record r { miss_cache = Dict.put name now r.miss_cache })

-- Without a registry, an alias is not accepted and the second policy raises.
unfoldable pub try_policies :
    Matching
    → ℕ
    → String
    → Option (List String)
    → ToolResolver
    → Result AttributeError (Option String) × ToolResolver
try_policies w now name none r = (err no_registry, r)
try_policies w now name (some names) r = remembered now name (policies w r name names) r

-- Behind the cache: a miss that is remembered, then the policies.
unfoldable pub try_misses :
    Matching
    → ℕ
    → String
    → Option ℕ
    → ToolResolver
    → Result AttributeError (Option String) × ToolResolver
try_misses w now name none r = try_policies w now name r.registry r
try_misses w now name (some time) r =
    if ltb (now - time) w.miss_ttl
    then (ok none, r)
    else try_policies w now name r.registry
        (record r { miss_cache = Dict.delete name r.miss_cache })

-- A cached answer: `cached and (registry is None or cached in registry.tools)`
unfoldable pub from_cache : Option (List String) → String → Option String
from_cache none cached = truthy (some cached)
from_cache (some names) cached = if contains cached names then truthy (some cached) else none

unfoldable pub try_cache :
    Matching
    → ℕ
    → String
    → Option String
    → ToolResolver
    → Result AttributeError (Option String) × ToolResolver
try_cache w now name (some cached) r = (ok (from_cache r.registry cached), r)
try_cache w now name none r = try_misses w now name (Dict.get name r.miss_cache) r

unfoldable pub resolve :
    Matching → ℕ → String → ToolResolver → Result AttributeError (Option String) × ToolResolver
resolve w now name r = try_cache w now name (Dict.get name r.cache) r

unfoldable pub set_registry : Option (List String) → ToolResolver → ToolResolver
set_registry registry r = record r { registry = registry; cache = [] }

unfoldable pub add_aliases : Dict String String → ToolResolver → ToolResolver
add_aliases aliases r = record r { aliases = update aliases r.aliases; cache = [] }
