-- ===== src/Tools/Tests.antt =====
-- Runs of the models of agent_framework/tools.py and tool_resolver.py, and the theorems at concrete
-- inputs.
use serac.Common.{
  ◌≡◌, ◌↔◌, String, true, false, Option, none, some, List, [], ◌∷◌, if◌then◌else◌, refl, arith,
  text_key, ok, err, keep, contains,
}
use serac.Common.Dict
use serac.Common.Dict.{Dict}
use serac.Tools.{
  ToolDef, returns, register, is_visible, add_visible, for_role, post_init, invalid_mode,
  invalid_name,
}
use serac.Tools.Names.{is_tool_name, are_name_chars}
use serac.Tools.Resolver.{
  ToolResolver, Matching, update, init, accepted, llm_answer, policies, remembered, try_policies,
  try_misses, from_cache, try_cache, resolve, set_registry, add_aliases,
}
use serac.Tools.Execute.{
  CallDict, RawArguments, text, given, Loaded, object, scalar, World, read_arguments, missing,
  as_dict, with_context, done_content, call_executor, checked, run_tool, run_found, run_resolved,
  run_named, run_read, run_one, execute,
}
use serac.Tools.Registry.{IsValid, AfterRegister, register-AfterRegister, serves, for_role-keep}
use serac.Tools.Resolve.{Registered}
use serac.Tools.Histories.{Event, resolves, attaches, aliases, registers, after, after-Registered}
use serac.Tools.Repeats.{resolve-again, Raises, NotMissed, resolve-Raises_iff}
use serac.Tools.Results.{Answers, execute-Answers}
use serac.Tools.Guards.{Answered, run_tool-required}

abbrev read_file : ToolDef String
read_file = record {
  name = "read_file";
  description = "reads a file";
  required = "path" ∷ [];
  executor = λ d. returns (Dict.get "path" d);
  role = none;
  execution_mode = "sandbox";
  requires_sandbox = false;
}

abbrev deploy : ToolDef String
deploy = record read_file { name = "deploy"; required = []; role = some "operator" }

abbrev tools : Dict String (ToolDef String)
tools = ("read_file", read_file) ∷ ("deploy", deploy) ∷ []

abbrev matching : Matching
matching = record { close_matches = λ name names. []; miss_ttl = 300 }

abbrev loads : String → Option (Loaded String)
loads s = if contains s ("5" ∷ []) then some scalar else none

abbrev world : World String
world = record {
  loads = loads;
  is_blank = λ s. contains s ("" ∷ []);
  clipped = λ s. s;
  no_mapping = "cannot convert";
  now = 7;
  matching = matching;
}

abbrev by_alias : ToolResolver
by_alias = record {
  aliases = ("cat", "read_file") ∷ [];
  llm_resolve = none;
  registry = some ("read_file" ∷ "deploy" ∷ []);
  cache = [];
  miss_cache = ("ls", 5) ∷ [];
}

abbrev call : String → String → RawArguments String → CallDict String
call id name args = record {
  function = some (record { name = some name; arguments = some args });
  name = none;
  arguments = none;
  id = some id;
  tool_call_id = none;
}

abbrev calls : List (CallDict String)
calls =
    call "a" "cat" (given (("path", "x.txt") ∷ []))
    ∷ call "b" "read_file" (given [])
    ∷ call "c" "ls" (text "")
    ∷ []

program : Unit {0}
unfolding post_init register is_visible add_visible for_role is_tool_name are_name_chars Dict.get
    Dict.put Dict.delete update init accepted llm_answer policies remembered try_policies try_misses
    from_cache try_cache resolve set_registry add_aliases read_arguments missing as_dict
    with_context done_content call_executor checked run_tool run_found run_resolved run_named
    run_read run_one execute
program = tt

execute_calls :
    (execute world tools none calls (some by_alias)).0
    ≡ ok (
        record { tool_call_id = "a"; content = "x.txt"; tool_name = "read_file"; misses = false }
        ∷ record {
          tool_call_id = "b";
          content = "Error: tool 'read_file' missing required arguments: path";
          tool_name = "read_file";
          misses = true;
        }
        ∷ record {
          tool_call_id = "c";
          content = "Error: tool 'ls' not found";
          tool_name = "ls";
          misses = false;
        }
        ∷ [])
unfolding program
execute_calls = refl

resolve_default :
    (resolve matching 0 "grep" (init none (some ("code_search" ∷ [])) none)).0
    ≡ ok (some "code_search")
unfolding program
resolve_default = refl

name_with_space :
    post_init (record read_file { name = "read file" }) ≡ err (invalid_name "read file")
unfolding program
name_with_space = refl

mode_remote :
    post_init (record read_file { execution_mode = "remote" }) ≡ err (invalid_mode "remote")
unfolding program
mode_remote = refl

register_both : register deploy (("read_file", read_file) ∷ []) ≡ ok tools
unfolding program
register_both = refl

one-IsValid : IsValid (("read_file", read_file) ∷ [])
unfolding program
one-IsValid = record { distinct = (refl, tt); named = ((refl, refl), tt) }

tools-IsValid : IsValid tools
unfolding program
tools-IsValid = record { distinct = (refl, (refl, tt)); named = ((refl, refl), ((refl, refl), tt)) }

register-AfterRegister_example :
    AfterRegister deploy
      (("read_file", read_file) ∷ [])
      (register deploy (("read_file", read_file) ∷ []))
register-AfterRegister_example =
    register-AfterRegister deploy (("read_file", read_file) ∷ []) one-IsValid

for_role-keep_example :
    for_role "reviewer" tools ≡ ok (keep (λ entry. serves "reviewer" entry.1.role) tools)
for_role-keep_example = for_role-keep "reviewer" tools tools-IsValid

abbrev events : List Event
events =
    resolves 1 "cat"
    ∷ attaches (some ("deploy" ∷ []))
    ∷ aliases (("ship", "deploy") ∷ [])
    ∷ registers "read_file"
    ∷ []

after-Registered_example :
    let r = after matching (init none none none) events in
    Registered r.registry (resolve matching 9 "ship" r).0
after-Registered_example = after-Registered matching none none none events 9 "ship"

resolve-again_example :
    resolve matching 9 "cat" (resolve matching 9 "cat" by_alias).1
    ≡ resolve matching 9 "cat" by_alias
resolve-again_example = resolve-again matching 9 "cat" (omega arith) by_alias

abbrev unattached : ToolResolver
unattached = record by_alias { registry = none }

resolve-Raises_iff_example :
    Raises (resolve matching 9 "cat" unattached)
    ↔ ((unattached.registry ≡ none) × NotMissed matching 9 (Dict.get "cat" unattached.miss_cache))
unfolding Dict.get
resolve-Raises_iff_example = resolve-Raises_iff matching 9 "cat" unattached (λ e name. refl)

execute-Answers_example :
    Answers ("a" ∷ "b" ∷ "c" ∷ []) (execute world tools none calls (some by_alias)).0
execute-Answers_example = execute-Answers world tools none calls (some by_alias)

abbrev no_arguments : Dict String String
no_arguments = []

run_tool-required_example :
    Answered "b" "read_file" read_file none no_arguments
      (run_tool world "b" "read_file" (some read_file) none (object no_arguments))
run_tool-required_example = run_tool-required world "b" "read_file" read_file none no_arguments
