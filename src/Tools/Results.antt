-- ===== src/Tools/Results.antt =====
-- What `execute` of agent_framework/tools.py gives.
use serac.Common.{
  ◌≡◌, String, Option, none, some, List, [], ◌∷◌, refl, ap₂, text_key, Result, ok, err, map,
}
use serac.Common.Dict.{Dict}
use serac.Tools.{ToolDef}
use serac.Tools.Resolver.{ToolResolver, AttributeError}
use serac.Tools.Execute.{
  CallDict, RawArguments, Loaded, World, ToolResult, Raised, call_id, checked, run_tool, run_found,
  run_resolved, run_named, run_read, run_one, and_result, execute,
}

-- A result, if there is one, has this id.
abbrev HasId : String → Result Raised ToolResult → Type 0
HasId id (err e) = Unit
HasId id (ok x) = x.tool_call_id ≡ id

-- The results, if no exception is raised, have these ids.
abbrev pub Answers : List String → Result Raised (List ToolResult) → Type 0
Answers ids (err e) = Unit
Answers ids (ok xs) = map (λ x. x.tool_call_id) xs ≡ ids

module _ {J : Type 0} (w : World J) (tools : Dict String (ToolDef J)) (context : Option J) where
  checked-HasId :
      (id name : String) (t : ToolDef J) (args : Loaded J) (o : Option (List String))
      → HasId id (checked w id name t context args o)
  unfolding checked
  checked-HasId id name t args none = tt
  checked-HasId id name t args (some []) = refl
  checked-HasId id name t args (some (key ∷ keys)) = refl

  run_tool-HasId :
      (id name : String) (o : Option (ToolDef J)) (args : Loaded J)
      → HasId id (run_tool w id name o context args)
  unfolding run_tool
  run_tool-HasId id name none args = refl
  run_tool-HasId id name (some t) args = checked-HasId id name t args _

  run_found-HasId :
      (id name resolved : String) (args : Loaded J) (o : Option (ToolDef J))
      → HasId id (run_found w tools context id name resolved args o)
  unfolding run_found
  run_found-HasId id name resolved args none = run_tool-HasId id name none args
  run_found-HasId id name resolved args (some t) = run_tool-HasId id resolved (some t) args

  run_resolved-HasId :
      (id name : String) (args : Loaded J)
      (p : Result AttributeError (Option String) × ToolResolver)
      → HasId id (run_resolved w tools context id name args p).0
  unfolding run_resolved
  run_resolved-HasId id name args (err e, r) = tt
  run_resolved-HasId id name args (ok none, r) = run_tool-HasId id name none args
  run_resolved-HasId id name args (ok (some resolved), r) = run_found-HasId id name resolved args _

  run_named-HasId :
      (id name : String) (args : Loaded J) (o : Option (ToolDef J)) (r : Option ToolResolver)
      → HasId id (run_named w tools context id name args o r).0
  unfolding run_named
  run_named-HasId id name args (some t) r = run_tool-HasId id name (some t) args
  run_named-HasId id name args none none = run_tool-HasId id name none args
  run_named-HasId id name args none (some r) = run_resolved-HasId id name args _

  run_read-HasId :
      (id name : String) (raw : RawArguments J) (o : Option (Loaded J)) (r : Option ToolResolver)
      → HasId id (run_read w tools context id name raw o r).0
  unfolding run_read
  run_read-HasId id name raw none r = refl
  run_read-HasId id name raw (some args) r = run_named-HasId id name args _ r

  and_result-Answers :
      (id : String) (ids : List String) (x : Result Raised ToolResult)
      (xs : Result Raised (List ToolResult))
      → HasId id x
      → Answers ids xs
      → Answers (id ∷ ids) (and_result w tools context x xs)
  and_result-Answers id ids (err e) xs h k = tt
  and_result-Answers id ids (ok x) (err e) h k = tt
  and_result-Answers id ids (ok x) (ok xs) h k = ap₂ (λ y ys. y ∷ ys) h k

  -- Unless an exception leaves `execute`, it gives one result for each call, in the order of the
  -- calls and under their ids, whatever the tools and the resolver do.
  pub execute-Answers :
      (calls : List (CallDict J)) (r : Option ToolResolver)
      → Answers (map call_id calls) (execute w tools context calls r).0
  unfolding execute run_one
  execute-Answers [] r = refl
  execute-Answers (call ∷ calls) r =
      and_result-Answers _ _ _ _ (run_read-HasId _ _ _ _ r) (execute-Answers calls _)
