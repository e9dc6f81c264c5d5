-- ===== src/Worker/Decompose.antt =====
-- `WorkerManager.decompose` of agent_framework/worker_manager.py: a model splits a goal into tasks. The
-- model's answer is a text of characters. Parameters are the provider's chat, json.loads with what the
-- entries of a list say, uuid4 as a sequence of texts, and str of a number. An exception of chat is
-- passed on as a text.
use serac.Common.{
  ℕ, ◌≡◌, ◌+◌, ◌-◌, refl, sym, ap, ◌∙◌, String, true, Option, none, some, List, [], ◌∷◌, ◌++◌,
  Result, ok, err, length, take, length-append, if◌then◌else◌, ◌&&◌, nat_key, append_assoc, nat_beq,
  contains, arith,
}
use serac.Common.Dict.{or_else}
use serac.Common.Int.{ℤ, pos}
use serac.Common.Text.{concat}
use serac.Common.Chars.{
  Text, codes, Without, is_empty, is_space, same_text_refl, strip, rstrip, lstrip, starts_with,
}
use serac.Security.{ends_with}
use serac.Security.Markers.{strip-newline, take-append}
use serac.Worker.{WorkerTask}

-- An object of the answer; what is absent is none.
pub record Subtask : Type 0 where
  pub goal : Option String
  pub system_prompt : Option String
  pub tool_names : Option (List String)
  pub priority : Option ℤ

pub record Model : Type 0 where
  pub chat : List (String × String) → Result String Text
  pub loads : Text → Option (List Subtask)
  pub uuid : ℕ → String
  pub str_of : ℕ → String

-- What is behind the first line break, or the text.
unfoldable pub after_line : Text → Text
after_line [] = []
after_line (c ∷ s) = let rest = after_line s in if nat_beq c 10 then s else rest

unfoldable pub without_first_line : Text → Text
without_first_line text = if contains 10 text then after_line text else text

unfoldable pub without_end : Text → Text
without_end text = if ends_with (codes "```") text then take (length text - 3) text else text

-- The markdown code fence is taken off.
unfoldable pub without_fence : Text → Text
without_fence text =
    let stripped = strip text in
    if starts_with (codes "```") stripped
    then strip (without_end (without_first_line stripped))
    else stripped

module _ (model : Model) where
  unfoldable pub decompose_prompt : ℕ → String → String → String
  decompose_prompt n goal context = concat (
      "You are a task decomposition assistant. Break the following high-level goal\ninto "
      ∷ model.str_of n
      ∷ " parallel, independent subtasks that together accomplish the goal.\n\nGoal: "
      ∷ goal
      ∷ "\n\nContext: "
      ∷ context
      ∷ "\n\nReturn a JSON array with exactly "
      ∷ model.str_of n
      ∷ " objects. Each object must have:\n- \"goal\": a clear, actionable subtask description (string)\n- \"tool_names\": a list of tool names this subtask needs (e.g. [\"web_search\", \"file_read\"])\n- \"system_prompt\": an optional system prompt for the subtask worker (string, can be empty)\n- \"priority\": integer dispatch priority (0 = highest)\n\nReturn ONLY the JSON array, no explanation or markdown."
      ∷ [])

  unfoldable pub task_of : ℕ → ℕ → String → Subtask → WorkerTask
  task_of drawn i context sub = record {
    task_id = model.uuid drawn;
    goal = or_else sub.goal (concat ("Subtask " ∷ model.str_of (i + 1) ∷ []));
    context = context;
    system_prompt = or_else sub.system_prompt "";
    tool_names = sub.tool_names;
    max_turns = 20;
    priority = or_else sub.priority (pos i);
  }

  unfoldable pub tasks_from : ℕ → ℕ → String → List Subtask → List WorkerTask
  tasks_from drawn i context [] = []
  tasks_from drawn i context (sub ∷ subtasks) =
      task_of drawn i context sub ∷ tasks_from (drawn + 1) (i + 1) context subtasks

  -- The tasks of what json.loads gives, or one task with the goal where it raises.
  unfoldable pub tasks_of : ℕ → String → String → Option (List Subtask) → List WorkerTask
  tasks_of drawn goal context none =
      record {
        task_id = model.uuid drawn;
        goal = goal;
        context = context;
        system_prompt = "";
        tool_names = none;
        max_turns = 20;
        priority = pos 0;
      }
      ∷ []
  tasks_of drawn goal context (some subtasks) = tasks_from drawn 0 context subtasks

  unfoldable pub answered :
      ℕ → String → String → Result String Text → Result String (List WorkerTask)
  answered drawn goal context (err error) = err error
  answered drawn goal context (ok text) =
      ok (tasks_of drawn goal context (model.loads (without_fence text)))

  unfoldable pub decompose : ℕ → String → String → ℕ → Result String (List WorkerTask)
  decompose drawn goal context num_tasks = answered drawn goal context (
      model.chat (
        ("system", "You are a task decomposition assistant. Output valid JSON only.")
        ∷ ("user", decompose_prompt num_tasks goal context)
        ∷ []))

after_line-append : (s rest : Text) → Without 10 s → after_line (s ++ 10 ∷ rest) ≡ rest
unfolding after_line
after_line-append [] rest h = refl
after_line-append (c ∷ s) rest h = ground (arith, h, after_line-append s rest)

contains_newline : (s rest : Text) → contains 10 (s ++ 10 ∷ rest) ≡ true
contains_newline [] rest = refl
contains_newline (c ∷ s) rest = ground (arith, contains_newline s rest)

rstrip-fence : (s : Text) → rstrip (s ++ codes "```") ≡ s ++ codes "```"
unfolding rstrip
rstrip-fence [] = refl
rstrip-fence (c ∷ s) = rw (rstrip-fence s) (not_empty s)
  where
    not_empty :
        (s : Text)
        → (if is_space c && is_empty (s ++ codes "```") then [] else c ∷ (s ++ codes "```"))
          ≡ c ∷ (s ++ codes "```")
    not_empty [] = ground arith
    not_empty (d ∷ s) = ground arith

ends_with-append : (s end : Text) → ends_with end (s ++ end) ≡ true
unfolding ends_with
ends_with-append [] [] = refl
ends_with-append [] (c ∷ end) = ground (arith, same_text_refl (c ∷ end))
ends_with-append (c ∷ s) end = ground (arith, ends_with-append s end)

without_end-append : (s : Text) → without_end (s ++ codes "```") ≡ s
unfolding without_end
without_end-append s = rw (ends_with-append s (codes "```")) (
    ap (λ n. take n (s ++ codes "```")) (omega (arith, length-append s (codes "```")))
    ∙ take-append s (codes "```"))

strip-fenced :
    (s : Text) → strip (codes "```" ++ (s ++ codes "```")) ≡ codes "```" ++ (s ++ codes "```")
unfolding strip lstrip
strip-fenced s = ap lstrip (rstrip-fence (codes "```" ++ s))

starts_fenced : (s : Text) → starts_with (codes "```") (codes "```" ++ s) ≡ true
unfolding starts_with
starts_fenced s = refl

first_line-fenced :
    (language rest : Text)
    → Without 10 language
    → without_first_line (codes "```" ++ (language ++ 10 ∷ rest)) ≡ rest
unfolding without_first_line
first_line-fenced language rest h =
    rw (contains_newline (codes "```" ++ language) rest)
      (after_line-append (codes "```" ++ language) rest (ground (arith, h)))

fenced_whole :
    (language body : Text)
    → language ++ 10 ∷ (body ++ 10 ∷ codes "```")
      ≡ (language ++ 10 ∷ (body ++ 10 ∷ [])) ++ codes "```"
fenced_whole language body = sym (
    append_assoc language (10 ∷ (body ++ 10 ∷ [])) (codes "```")
    ∙ ap (λ s. language ++ 10 ∷ s) (append_assoc body (10 ∷ []) (codes "```")))

-- A fenced answer is read as the text between its fences, without the spaces at its ends; the first line
-- may name a language.
pub without_fence-fenced :
    (language body : Text)
    → Without 10 language
    → without_fence (codes "```" ++ (language ++ 10 ∷ (body ++ 10 ∷ codes "```"))) ≡ strip body
unfolding without_fence
without_fence-fenced language body h =
    rw
      (
        unstripped,
        starts_fenced (language ++ 10 ∷ (body ++ 10 ∷ codes "```")),
        first_line-fenced language (body ++ 10 ∷ codes "```") h,
      )
      (ap (λ s. strip (without_end s)) (sym (append_assoc body (10 ∷ []) (codes "```")))
        ∙ ap strip (without_end-append (body ++ 10 ∷ []))
        ∙ strip-newline body)
  where
    unstripped :
        strip (codes "```" ++ (language ++ 10 ∷ (body ++ 10 ∷ codes "```")))
        ≡ codes "```" ++ (language ++ 10 ∷ (body ++ 10 ∷ codes "```"))
    unstripped =
        ap (λ s. strip (codes "```" ++ s)) (fenced_whole language body)
        ∙ strip-fenced (language ++ 10 ∷ (body ++ 10 ∷ []))
        ∙ ap (λ s. codes "```" ++ s) (sym (fenced_whole language body))
