-- ===== src/Tools.antt =====
-- agent_framework/tools.py: definitions of tools and their registry. `J` is the type of JSON values
-- that a tool takes as arguments. The thread pool stands with the calls, in Tools.Execute.
pub mod Names
pub mod Resolver
pub mod Execute
pub mod Resolve
pub mod Histories
pub mod Repeats
pub mod Registry
pub mod Results
pub mod Guards
pub mod Tests
use serac.Common.{
  ℕ, String, Bool, true, false, Option, none, some, List, [], ◌∷◌, ◌&&◌, ◌||◌, if◌then◌else◌, ltb,
  leb, nat_beq, not, ◌==◌, text_key, Result, ok, err, ◌>>=◌, contains, map,
}
use serac.Common.Dict
use serac.Tools.Names.{is_tool_name}
use serac.Common.Dict.{Dict}

-- What an executor gives: str(result), or none where the result is None; or it raises.
pub data Done : Type 0 where
  returns : Option String → Done
  throws : String → Done

pub record ToolDef (J : Type 0) : Type 0 where
  pub name : String
  pub description : String
  -- parameters.get("required", [])
  pub required : List String
  pub executor : Dict String J → Done
  pub role : Option String
  pub execution_mode : String
  pub requires_sandbox : Bool

pub data RegistryError : Type 0 where
  invalid_name invalid_mode already_registered : String → RegistryError

module _ {J : Type 0} where
  -- ToolDef.__post_init__
  unfoldable pub post_init : ToolDef J → Result RegistryError (ToolDef J)
  post_init t =
      if is_tool_name t.name
      then if contains t.execution_mode ("sandbox" ∷ "host" ∷ [])
        then ok t
        else err (invalid_mode t.execution_mode)
      else err (invalid_name t.name)

  -- ToolRegistry.register, on the registry's `_tools`
  unfoldable pub register :
      ToolDef J → Dict String (ToolDef J) → Result RegistryError (Dict String (ToolDef J))
  register t tools =
      if is_tool_name t.name
      then (elim (Dict.get t.name tools) [
        | some _ ↦ err (already_registered t.name)
        | none ↦ ok (Dict.put t.name t tools)
      ])
      else err (invalid_name t.name)

  unfoldable pub is_visible : String → ToolDef J → Bool
  is_visible role t = elim t.role [ none ↦ true | some r ↦ r == role ]

  unfoldable pub add_visible :
      String
      → Dict String (ToolDef J)
      → Dict String (ToolDef J)
      → Result RegistryError (Dict String (ToolDef J))
  add_visible role [] filtered = ok filtered
  add_visible role ((name, t) ∷ tools) filtered =
      (if is_visible role t then register t filtered else ok filtered) >>= λ more.
      add_visible role tools more

  -- ToolRegistry.for_role
  unfoldable pub for_role :
      String → Dict String (ToolDef J) → Result RegistryError (Dict String (ToolDef J))
  for_role role tools = add_visible role tools []

  -- The names, in the order of the registrations: list(registry.tools.keys())
  abbrev pub names : Dict String (ToolDef J) → List String
  names tools = map (λ entry. entry.0) tools
