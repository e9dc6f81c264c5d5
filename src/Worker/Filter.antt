-- ===== src/Worker/Filter.antt =====
-- The tools of a worker of agent_framework/worker_manager.py.
use serac.Common.{
  ◌≡◌, String, refl, sym, ap, ◌∙◌, ok, err, true, text_key, none, some, List, [], ◌∷◌, ◌++◌, All,
  append-nil, append_assoc, same_refl, Distinct,
}
use serac.Common.Dict
use serac.Common.Dict.{Dict}
use serac.Tools.{ToolDef, already_registered, register, names}
use serac.Tools.Names.{is_tool_name}
use serac.Tools.Registry.{IsValid, Named, Fresh, register-new, still_absent, get-Named}
use serac.Worker.{add_each, add_known, add_named, filter_tools}

module _ {J : Type 0} where
  add_each-lem :
      (tools filtered : Dict String (ToolDef J))
      → All Named tools
      → Distinct (names tools)
      → All (Fresh filtered) tools
      → add_each tools filtered ≡ ok (filtered ++ tools)
  unfolding add_each
  add_each-lem [] filtered n d h = ap ok (sym (append-nil filtered))
  add_each-lem ((name, t) ∷ tools) filtered ((e, v), n) (c, d) (a, h) = rw added (
      add_each-lem tools (filtered ++ (name, t) ∷ []) n d (still_absent name t filtered tools a c h)
      ∙ ap ok (append_assoc filtered ((name, t) ∷ []) tools))
    where
      added : register t filtered ≡ ok (filtered ++ (name, t) ∷ [])
      added = rw e (register-new t filtered v (rw (sym e) a))

  -- Without a choice of tools, a worker gets every tool of a valid registry, in its order.
  pub filter_tools-none :
      (tools : Dict String (ToolDef J)) → IsValid tools → filter_tools tools none ≡ ok tools
  unfolding filter_tools Dict.get
  filter_tools-none tools h = add_each-lem tools [] h.named h.distinct (none_there tools)
    where
      none_there : (rest : Dict String (ToolDef J)) → All (Fresh []) rest
      none_there [] = tt
      none_there (_ ∷ rest) = (refl, none_there rest)

  register-twice :
      (t : ToolDef J)
      → is_tool_name t.name ≡ true
      → register t ((t.name, t) ∷ []) ≡ err (already_registered t.name)
  unfolding register Dict.get
  register-twice t v = rw (v, same_refl t.name) refl

  -- A choice that starts with the name of a registered tool twice is refused, though the tool is
  -- there: the second registration raises.
  pub filter_tools-twice :
      (tools : Dict String (ToolDef J)) (name : String) (t : ToolDef J) (rest : List String)
      → IsValid tools
      → Dict.get name tools ≡ some t
      → filter_tools tools (some (name ∷ name ∷ rest)) ≡ err (already_registered name)
  unfolding filter_tools add_named add_known Dict.get
  filter_tools-twice tools name t rest h g =
      let (e, v) = get-Named name t tools h.named g in
      rw (g, register-new t [] v refl, register-twice t v, e) refl
