-- ===== src/Tools/Resolve.antt =====
-- What the resolver of agent_framework/tool_resolver.py answers.
use Prim.Native.String.{count}
use serac.Common.{
  ℕ, ◌-◌, ◌≡◌, ◌≢◌, inl, inr, String, true, Option, none, some, List, ltb, refl, arith, Bool-cases,
  text_key, Result, ok, err, contains,
}
use serac.Common.Dict
use serac.Common.Dict.{Dict, get-put, get-delete}
use serac.Tools.Resolver.{
  ToolResolver, Matching, AttributeError, accepted, or_next, policies, remembered, try_policies,
  try_misses, from_cache, try_cache, resolve,
}

-- A resolver without a registry remembers no answer.
abbrev pub IsSound : ToolResolver → Type 0
IsSound r = r.registry ≡ none → (name : String) → Dict.get name r.cache ≡ none

-- What `resolve` promises of an answer: a tool that it names is registered.
abbrev pub Registered : Option (List String) → Result AttributeError (Option String) → Type 0
Registered registry (err e) = Unit
Registered registry (ok none) = Unit
Registered registry (ok (some tool)) =
    (names : List String) × (registry ≡ some names) × (contains tool names ≡ true)

-- An answer of the policies that the cache would give again.
abbrev pub Fit : List String → Option String → Type 0
Fit names none = Unit
Fit names (some tool) = from_cache (some names) tool ≡ some tool

accepted-Fit : (names : List String) (o : Option String) → Fit names (accepted names o)
unfolding accepted from_cache
accepted-Fit names none = tt
accepted-Fit names (some text) = elim (Bool-cases (contains text names)) [
  | inr e ↦ rw e tt
  | inl e ↦ elim (Bool-cases (ltb 0 (count text))) [
    | inr f ↦ rw (e, f) tt
    | inl f ↦ rw (e, f, e, f) refl
  ]
]

or_next-Fit :
    (names : List String) (a b : Option String)
    → Fit names a
    → Fit names b
    → Fit names (or_next a b)
or_next-Fit names none b h k = k
or_next-Fit names (some a) b h k = h

pub policies-Fit :
    (w : Matching) (r : ToolResolver) (name : String) (names : List String)
    → Fit names (policies w r name names)
unfolding policies
policies-Fit w r name names =
    or_next-Fit names _ _ (accepted-Fit names _)
      (or_next-Fit names _ _ (accepted-Fit names _) (accepted-Fit names _))

Fit-contains :
    (names : List String) (tool : String)
    → from_cache (some names) tool ≡ some tool
    → contains tool names ≡ true
unfolding from_cache
Fit-contains names tool h = ground (arith, h)

module _ (w : Matching) (now : ℕ) (name : String) where
  remembered-Registered :
      (registry : Option (List String)) (names : List String) (o : Option String) (r : ToolResolver)
      → registry ≡ some names
      → Fit names o
      → Registered registry (remembered now name o r).0
  unfolding remembered
  remembered-Registered registry names none r e h = tt
  remembered-Registered registry names (some tool) r e h = (names, e, Fit-contains names tool h)

  try_policies-Registered :
      (registry : Option (List String)) (r : ToolResolver)
      → Registered registry (try_policies w now name registry r).0
  unfolding try_policies
  try_policies-Registered none r = tt
  try_policies-Registered (some names) r =
      remembered-Registered (some names) names _ r refl (policies-Fit w r name names)

  try_misses-Registered :
      (o : Option ℕ) (r : ToolResolver) → Registered r.registry (try_misses w now name o r).0
  unfolding try_misses
  try_misses-Registered none r = try_policies-Registered r.registry r
  try_misses-Registered (some time) r = elim (Bool-cases (ltb (now - time) w.miss_ttl)) [
    | inl e ↦ rw e tt
    | inr e ↦ rw e (try_policies-Registered r.registry _)
  ]

  from_cache-Registered :
      (registry : Option (List String)) (cached : String)
      → registry ≢ none
      → Registered registry (ok (from_cache registry cached))
  unfolding from_cache
  from_cache-Registered none cached h = absurd (h refl)
  from_cache-Registered (some names) cached h = elim (Bool-cases (contains cached names)) [
    | inr e ↦ rw e tt
    | inl e ↦ elim (Bool-cases (ltb 0 (count cached))) [
      | inr f ↦ rw (e, f) tt
      | inl f ↦ rw (e, f) (names, refl, e)
    ]
  ]

  try_cache-Registered :
      (o : Option String) (r : ToolResolver)
      → (r.registry ≡ none → o ≡ none)
      → Registered r.registry (try_cache w now name o r).0
  unfolding try_cache
  try_cache-Registered none r h = try_misses-Registered _ r
  try_cache-Registered (some cached) r h =
      from_cache-Registered r.registry cached (λ e. ground (arith, h e))

  -- From a sound state, a name that `resolve` answers is one of the attached registry.
  pub resolve-Registered :
      (r : ToolResolver) → IsSound r → Registered r.registry (resolve w now name r).0
  unfolding resolve
  resolve-Registered r h = try_cache-Registered _ r (λ e. h e name)
