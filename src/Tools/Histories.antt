-- ===== src/Tools/Histories.antt =====
-- The resolver of agent_framework/tool_resolver.py over any sequence of its operations.
use serac.Common.{
  ℕ, ◌-◌, ◌≡◌, inl, inr, String, Option, none, some, List, [], ◌∷◌, ◌++◌, ltb, refl, arith,
  Bool-cases, text_key,
}
use serac.Common.Dict
use serac.Common.Dict.{Dict}
use serac.Tools.Resolver.{
  ToolResolver, Matching, init, remembered, try_policies, try_misses, try_cache, resolve,
  set_registry, add_aliases,
}
use serac.Tools.Resolve.{IsSound, Registered, resolve-Registered}

-- The operations on a resolver, and a registration in the registry that is attached to it.
pub data Event : Type 0 where
  resolves : ℕ → String → Event
  attaches : Option (List String) → Event
  aliases : Dict String String → Event
  registers : String → Event

unfoldable pub with_name : String → Option (List String) → Option (List String)
with_name name none = none
with_name name (some names) = some (names ++ name ∷ [])

module _ (w : Matching) where
  unfoldable pub step : ToolResolver → Event → ToolResolver
  step r (resolves now name) = (resolve w now name r).1
  step r (attaches registry) = set_registry registry r
  step r (aliases more) = add_aliases more r
  step r (registers name) = record r { registry = with_name name r.registry }

  unfoldable pub after : ToolResolver → List Event → ToolResolver
  after r [] = r
  after r (e ∷ events) = after (step r e) events

  module _ (now : ℕ) (name : String) where
    remembered-IsSound :
        (names : List String) (o : Option String) (r : ToolResolver)
        → r.registry ≡ some names
        → IsSound r
        → IsSound (remembered now name o r).1
    unfolding remembered
    remembered-IsSound names none r e h = h
    remembered-IsSound names (some tool) r e h = λ e' n. ground (arith, e, e')

    try_policies-IsSound :
        (registry : Option (List String)) (r : ToolResolver)
        → r.registry ≡ registry
        → IsSound r
        → IsSound (try_policies w now name registry r).1
    unfolding try_policies
    try_policies-IsSound none r e h = h
    try_policies-IsSound (some names) r e h = remembered-IsSound names _ r e h

    try_misses-IsSound :
        (o : Option ℕ) (r : ToolResolver) → IsSound r → IsSound (try_misses w now name o r).1
    unfolding try_misses
    try_misses-IsSound none r h = try_policies-IsSound r.registry r refl h
    try_misses-IsSound (some time) r h = elim (Bool-cases (ltb (now - time) w.miss_ttl)) [
      | inl e ↦ rw e h
      | inr e ↦ rw e (try_policies-IsSound r.registry _ refl h)
    ]

    try_cache-IsSound :
        (o : Option String) (r : ToolResolver) → IsSound r → IsSound (try_cache w now name o r).1
    unfolding try_cache
    try_cache-IsSound none r h = try_misses-IsSound _ r h
    try_cache-IsSound (some cached) r h = h

  was_none :
      (name : String) (registry : Option (List String))
      → with_name name registry ≡ none
      → registry ≡ none
  unfolding with_name
  was_none name none e = refl
  was_none name (some names) e = ground (arith, e)

  step-IsSound : (r : ToolResolver) (e : Event) → IsSound r → IsSound (step r e)
  unfolding step resolve set_registry add_aliases Dict.get
  step-IsSound r (resolves now name) h = try_cache-IsSound now name _ r h
  step-IsSound r (attaches registry) h = λ e name. refl
  step-IsSound r (aliases more) h = λ e name. refl
  step-IsSound r (registers name) h = λ e. h (was_none name r.registry e)

  after-IsSound : (events : List Event) (r : ToolResolver) → IsSound r → IsSound (after r events)
  unfolding after
  after-IsSound [] r h = h
  after-IsSound (e ∷ events) r h = after-IsSound events (step r e) (step-IsSound r e h)

-- After any calls of `resolve`, `set_registry` and `add_aliases` and any registrations, from a new
-- resolver on, a name that `resolve` answers is registered in the registry that is attached then:
-- the caches never give a tool that is not there.
pub after-Registered :
    (w : Matching) (more : Option (Dict String String)) (registry : Option (List String))
    (llm : Option (String → List String → Option String)) (events : List Event) (now : ℕ)
    (name : String)
    → let r = after w (init more registry llm) events in
      Registered r.registry (resolve w now name r).0
unfolding init Dict.get
after-Registered w more registry llm events now name =
    resolve-Registered w now name _
      (after-IsSound w events (init more registry llm) (λ e name. refl))
