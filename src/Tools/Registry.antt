-- ===== src/Tools/Registry.antt =====
-- The registry of agent_framework/tools.py: its invariant, and the view for a role.
use serac.Common.{
  some, Option, Bool, subst, ◌⊎◌, ◌≡◌, String, true, false, none, List, [], ◌∷◌, ◌++◌, refl, sym,
  ap, ◌∙◌, arith, Bool-cases, Option-cases, inl, inr, text_key, same_iff, ◌==◌, Result, ok, err,
  contains, keep, All, All-append, Distinct, Distinct-append, map-append, append-nil, append_assoc,
}
use serac.Common.Dict
use serac.Common.Dict.{or_else, Dict, get-put, put-absent}
use serac.Tools.{ToolDef, RegistryError, register, is_visible, add_visible, for_role, names}
use serac.Tools.Names.{is_tool_name}

apart :
    (x : String) (xs : List String)
    → contains x xs ≡ false
    → All (λ y. contains y (x ∷ []) ≡ false) xs
apart x [] h = tt
apart x (y ∷ xs) h = (ground (arith, same_iff x y, same_iff y x), apart x xs (ground (arith, h)))

-- What is kept with one test is kept with another that gives the same.
keep_alike :
    {A : Type 0} (p q : A → Bool) → ((x : A) → p x ≡ q x) → (xs : List A) → keep p xs ≡ keep q xs
keep_alike p q h [] = refl
keep_alike p q h (x ∷ xs) = rw (h x, keep_alike p q h xs) refl

-- Whether a tool for this role, or for any where it has none, is for `role`.
abbrev pub serves : String → Option String → Bool
serves role none = true
serves role (some own) = own == role

module _ {J : Type 0} where
  abbrev pub Named : String × ToolDef J → Type 0
  Named entry = (entry.0 ≡ entry.1.name) × (is_tool_name entry.1.name ≡ true)

  -- Each tool stands under its own name, which is a valid one, and no name repeats.
  pub record IsValid (tools : Dict String (ToolDef J)) : Type 0 where
    pub distinct : Distinct (names tools)
    pub named : All Named tools

  pub get-Named :
      (name : String) (t : ToolDef J) (tools : Dict String (ToolDef J))
      → All Named tools
      → Dict.get name tools ≡ some t
      → Named (name, t)
  unfolding Dict.get
  get-Named name t [] h g = ground (arith, g)
  get-Named name t ((n, u) ∷ tools) ((e, v), h) g = elim (Bool-cases (n == name)) [
    | inl i ↦
        subst (λ u. Named (name, u)) (ap (λ o. or_else o u) (rw i at g))
          (sym ((same_iff n name).0 i) ∙ e, v)
    | inr i ↦ get-Named name t tools h (rw i at g)
  ]

  get-contains :
      (name : String) (tools : Dict String (ToolDef J))
      → Dict.get name tools ≡ none
      → contains name (names tools) ≡ false
  unfolding Dict.get
  get-contains name [] h = refl
  get-contains name ((n, t) ∷ tools) h = ground (arith, get-contains name tools)

  contains-get :
      (name : String) (tools : Dict String (ToolDef J))
      → contains name (names tools) ≡ false
      → Dict.get name tools ≡ none
  unfolding Dict.get
  contains-get name [] h = refl
  contains-get name ((n, t) ∷ tools) h = ground (arith, contains-get name tools)

  pub register-new :
      (t : ToolDef J) (tools : Dict String (ToolDef J))
      → is_tool_name t.name ≡ true
      → Dict.get t.name tools ≡ none
      → register t tools ≡ ok (tools ++ (t.name, t) ∷ [])
  unfolding register
  register-new t tools v a = rw (v, a, put-absent t.name t tools a) refl

  new-IsValid :
      (t : ToolDef J) (tools : Dict String (ToolDef J))
      → is_tool_name t.name ≡ true
      → Dict.get t.name tools ≡ none
      → IsValid tools
      → IsValid (tools ++ (t.name, t) ∷ [])
  new-IsValid t tools v a h = record {
    distinct = rw map-append (
        Distinct-append (names tools) (t.name ∷ []) h.distinct (refl, tt)
          (apart t.name (names tools) (get-contains t.name tools a)));
    named = All-append Named tools _ h.named ((refl, v), tt);
  }

  abbrev pub AfterRegister :
      ToolDef J → Dict String (ToolDef J) → Result RegistryError (Dict String (ToolDef J)) → Type 0
  AfterRegister t tools (err e) =
      (is_tool_name t.name ≡ false) ⊎ (contains t.name (names tools) ≡ true)
  AfterRegister t tools (ok tools') = (tools' ≡ tools ++ (t.name, t) ∷ []) × IsValid tools'

  -- A registration in a valid registry either raises, and then the name is no valid one or is taken
  -- already, or adds the tool behind the others, and the registry is valid again.
  pub register-AfterRegister :
      (t : ToolDef J) (tools : Dict String (ToolDef J))
      → IsValid tools
      → AfterRegister t tools (register t tools)
  unfolding register
  register-AfterRegister t tools h = elim (Bool-cases (is_tool_name t.name)) [
    | inr v ↦ rw v (inl v)
    | inl v ↦ elim (Option-cases (Dict.get t.name tools)) [
      | inl a ↦ rw (v, a, put-absent t.name t tools a) (refl, new-IsValid t tools v a h)
      | inr (u, a) ↦ rw (v, a) (inr (ground (arith, contains-get t.name tools, a)))
    ]
  ]

  get-new :
      (name other : String) (t : ToolDef J) (tools : Dict String (ToolDef J))
      → Dict.get name tools ≡ none
      → Dict.get other tools ≡ none
      → (name == other) ≡ false
      → Dict.get other (tools ++ (name, t) ∷ []) ≡ none
  get-new name other t tools a b d = rw (sym (put-absent name t tools a), get-put, d) b

  abbrev pub Fresh : Dict String (ToolDef J) → String × ToolDef J → Type 0
  Fresh filtered entry = Dict.get entry.0 filtered ≡ none

  pub still_absent :
      (name : String) (t : ToolDef J) (filtered tools : Dict String (ToolDef J))
      → Dict.get name filtered ≡ none
      → contains name (names tools) ≡ false
      → All (Fresh filtered) tools
      → All (Fresh (filtered ++ (name, t) ∷ [])) tools
  still_absent name t filtered [] a c h = tt
  still_absent name t filtered ((n, u) ∷ tools) a c (b, h) = (
    get-new name n t filtered a b (ground (arith, c, same_iff n name, same_iff name n)),
    still_absent name t filtered tools a (ground (arith, c)) h,
  )

  add_visible-keep :
      (role : String) (tools filtered : Dict String (ToolDef J))
      → All Named tools
      → Distinct (names tools)
      → All (Fresh filtered) tools
      → add_visible role tools filtered
        ≡ ok (filtered ++ keep (λ entry. is_visible role entry.1) tools)
  unfolding add_visible
  add_visible-keep role [] filtered n d h = ap ok (sym (append-nil filtered))
  add_visible-keep role ((name, t) ∷ tools) filtered ((e, v), n) (c, d) (a, h) =
      elim (Bool-cases (is_visible role t)) [
        | inr i ↦ rw i (add_visible-keep role tools filtered n d h)
        | inl i ↦
            rw (i, added)
              (add_visible-keep role tools (filtered ++ (name, t) ∷ []) n d
                  (still_absent name t filtered tools a c h)
                ∙ ap ok (append_assoc filtered ((name, t) ∷ []) _))
      ]
    where
      added : register t filtered ≡ ok (filtered ++ (name, t) ∷ [])
      added = rw e (register-new t filtered v (rw (sym e) a))

  is_visible-serves : (role : String) (t : ToolDef J) → is_visible role t ≡ serves role t.role
  unfolding is_visible
  is_visible-serves role t = by_role t.role
    where
      by_role : (o : Option String) → (elim o [ none ↦ true | some r ↦ r == role ]) ≡ serves role o
      by_role none = refl
      by_role (some r) = refl

  -- The view of a valid registry for a role never raises; it has the tools whose role is that one and
  -- those without a role, in their order.
  pub for_role-keep :
      (role : String) (tools : Dict String (ToolDef J))
      → IsValid tools
      → for_role role tools ≡ ok (keep (λ entry. serves role entry.1.role) tools)
  unfolding for_role Dict.get
  for_role-keep role tools h =
      add_visible-keep role tools [] h.named h.distinct (none_there tools)
      ∙ ap ok (keep_alike _ _ (λ entry. is_visible-serves role entry.1) tools)
    where
      none_there : (rest : Dict String (ToolDef J)) → All (Fresh []) rest
      none_there [] = tt
      none_there (_ ∷ rest) = (refl, none_there rest)
