-- ===== src/Tools/Guards.antt =====
-- The test of the required arguments in `execute` of agent_framework/tools.py.
use serac.Common.{
  ◌≡◌, ◌≢◌, String, ap, sym, ◌∙◌, subst, contains, ◌==◌, same_iff, same_refl, Bool, true, false,
  Option, none, some, List, [], ◌∷◌, refl, arith, Bool-cases, All-map, inl, inr, text_key, Result,
  ok, err, All, keep,
}
use serac.Common.Dict
use serac.Common.Dict.{Dict}
use serac.Common.Text.{concat, join}
use serac.Tools.{ToolDef, Done, returns, throws}
use serac.Tools.Resolver.{ToolResolver}
use serac.Tools.Execute.{
  CallDict, text, object, scalar, World, ToolResult, Raised, type_error, call_name, raw_arguments,
  read_arguments, missing, checked, done_content, with_context, call_executor, as_dict, run_tool,
  run_named, run_read, run_one,
}

-- The arguments that the executor gets: with the context, where there is one.
abbrev pub arguments_for : {J : Type 0} → Option J → Dict String J → Dict String J
arguments_for none d = d
arguments_for (some context) d = Dict.put "context" context d

-- What the content of a result says of the end of the executor.
pub data Says (name : String) : Done → String → Type 0 where
  nothing : Says name (returns none) ""
  content : (s : String) → Says name (returns (some s)) s
  error : (e : String) → Says name (throws e) (concat ("Error executing '" ∷ name ∷ "': " ∷ e ∷ []))

-- The answer to a call of the tool `t` with the object `d`: if each required argument is a key of the
-- object, the executor was run on it; otherwise the content names the ones that are missing.
pub data Answered {J : Type 0} (id name : String) (t : ToolDef J) (context : Option J)
    (d : Dict String J) : Result Raised ToolResult → Type 0 where
  ran :
      (s : String)
      → All (λ key. Dict.get key d ≢ none) t.required
      → Says name (t.executor (arguments_for context d)) s
      → Answered id name t context d
          (ok (record { tool_call_id = id; content = s; tool_name = name; misses = false }))
  refused :
      (key : String) (keys : List String)
      → All (λ k. (Dict.get k d ≡ none) × (contains k t.required ≡ true)) (key ∷ keys)
      → ((k : String)
          → contains k t.required ≡ true
          → contains k (key ∷ keys) ≡ false
          → Dict.get k d ≢ none)
      → Answered id name t context d (
          ok (record {
            tool_call_id = id;
            content = concat (
                "Error: tool '"
                ∷ name
                ∷ "' missing required arguments: "
                ∷ join ", " (key ∷ keys)
                ∷ []);
            tool_name = name;
            misses = true;
          }))

abbrev absent : {J : Type 0} → Dict String J → String → Bool
absent d key = elim (Dict.get key d) [ none ↦ true | some _ ↦ false ]

module _ {J : Type 0} (w : World J) where
  absent-none : (d : Dict String J) (key : String) → absent d key ≡ true → Dict.get key d ≡ none
  absent-none d key = by_value (Dict.get key d)
    where
      by_value : (o : Option J) → (elim o [ none ↦ true | some _ ↦ false ]) ≡ true → o ≡ none
      by_value none h = refl
      by_value (some v) h = absurd (ground (arith, h))

  present : (d : Dict String J) (key : String) → absent d key ≡ false → Dict.get key d ≢ none
  present d key = by_value (Dict.get key d)
    where
      by_value : (o : Option J) → (elim o [ none ↦ true | some _ ↦ false ]) ≡ false → o ≢ none
      by_value none h = absurd (ground (arith, h))
      by_value (some v) h = λ e. ground (arith, e)

  -- What a test keeps has it and was there, and of what was there and is not kept it does not hold.
  kept_there :
      (p : String → Bool) (keys : List String)
      → All (λ k. (p k ≡ true) × (contains k keys ≡ true)) (keep p keys)
  kept_there p keys = from keys (λ k h. h)
    where
      from :
          (xs : List String)
          → ((k : String) → contains k xs ≡ true → contains k keys ≡ true)
          → All (λ k. (p k ≡ true) × (contains k keys ≡ true)) (keep p xs)
      from [] h = tt
      from (x ∷ xs) h = elim (Bool-cases (p x)) [
        | inl e ↦
            rw e ((e, h x (ground (arith, same_refl x))), from xs (λ k c. h k (ground (arith, c))))
        | inr e ↦ rw e (from xs (λ k c. h k (ground (arith, c))))
      ]

  not_kept :
      (p : String → Bool) (keys : List String) (k : String)
      → contains k keys ≡ true
      → contains k (keep p keys) ≡ false
      → p k ≡ false
  not_kept p [] k c n = absurd (ground (arith, c))
  not_kept p (x ∷ xs) k c n = elim (Bool-cases (p x)) [
    | inl e ↦ elim (Bool-cases (x == k)) [
      | inl s ↦ absurd (ground (arith, rw (e, s) at n))
      | inr s ↦ not_kept p xs k (rw s at c) (rw (e, s) at n)
    ]
    | inr e ↦ elim (Bool-cases (x == k)) [
      | inl s ↦ ap p (sym ((same_iff x k).0 s)) ∙ e
      | inr s ↦ not_kept p xs k (rw s at c) (rw e at n)
    ]
  ]

  none_kept :
      (p : String → Bool) (keys : List String) → keep p keys ≡ [] → All (λ k. p k ≡ false) keys
  none_kept p [] h = tt
  none_kept p (x ∷ xs) h = elim (Bool-cases (p x)) [
    | inl e ↦ absurd (ground (arith, rw e at h))
    | inr e ↦ (e, none_kept p xs (rw e at h))
  ]

  done_content-Says : (name : String) (done : Done) → Says name done (done_content w name done)
  unfolding done_content
  done_content-Says name (returns none) = nothing
  done_content-Says name (returns (some s)) = content s
  done_content-Says name (throws e) = error e

  with_context-arguments_for :
      (context : Option J) (d : Dict String J) → with_context w context d ≡ arguments_for context d
  unfolding with_context
  with_context-arguments_for none d = refl
  with_context-arguments_for (some c) d = refl

  checked-Answered :
      (id name : String) (t : ToolDef J) (context : Option J) (d : Dict String J)
      (keys : List String)
      → keep (absent d) t.required ≡ keys
      → Answered id name t context d (checked w id name t context (object d) (some keys))
  unfolding checked call_executor as_dict
  checked-Answered id name t context d [] h =
      ran _ (All-map (present d) t.required (none_kept (absent d) t.required h)) (
        subst
          (λ a.
            Says name (t.executor a) (done_content w name (t.executor (with_context w context d))))
          (with_context-arguments_for context d) (done_content-Says name _))
  checked-Answered id name t context d (key ∷ keys) h =
      refused key keys
        (subst (All (λ k. (Dict.get k d ≡ none) × (contains k t.required ≡ true))) h
          (All-map (λ k e. (absent-none d k e.0, e.1)) _ (kept_there (absent d) t.required)))
        (λ k c n.
          present d k
            (not_kept (absent d) t.required k c (subst (λ ks. contains k ks ≡ false) (sym h) n)))

  -- A call of a tool with an object as arguments has a result under its id and the tool's name: if each
  -- required argument is a key of the object, the executor is run on the object, with the context if
  -- there is one, and the content is what it returns or says what it raises; otherwise the content
  -- names the required arguments that are missing, all of them and no other.
  pub run_tool-required :
      (id name : String) (t : ToolDef J) (context : Option J) (d : Dict String J)
      → Answered id name t context d (run_tool w id name (some t) context (object d))
  unfolding run_tool missing
  run_tool-required id name t context d =
      checked-Answered id name t context d (keep (absent d) t.required) refl

  -- A call whose arguments are the JSON text of a number, a Boolean or null raises out of `execute`
  -- where the tool has a required argument.
  pub scalar-raises :
      (tools : Dict String (ToolDef J)) (context : Option J) (call : CallDict J) (t : ToolDef J)
      (s key : String) (keys : List String) (r : Option ToolResolver)
      → raw_arguments call ≡ text s
      → w.is_blank s ≡ false
      → w.loads s ≡ some scalar
      → Dict.get (call_name call) tools ≡ some t
      → t.required ≡ key ∷ keys
      → (run_one w tools context call r).0 ≡ err type_error
  unfolding run_one read_arguments run_read run_named run_tool missing checked
  scalar-raises tools context call t s key keys r a b l g q = rw (a, b, l, g, q) refl
