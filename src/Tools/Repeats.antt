-- ===== src/Tools/Repeats.antt =====
-- What the caches of agent_framework/tool_resolver.py change.
use serac.Common.{
  ◌↔◌, false, ℕ, ◌-◌, ◌<◌, ◌≡◌, inl, inr, String, true, Option, none, some, List, ltb, refl, arith,
  Bool-cases, text_key, same_refl, Result, ok, err, contains,
}
use Prim.Native.String.{count}
use serac.Common.Dict
use serac.Common.Dict.{Dict, get-put, get-delete}
use serac.Tools.Resolver.{
  ToolResolver, Matching, AttributeError, no_registry, accepted, policies, remembered, try_policies,
  try_misses, try_cache, resolve, set_registry, add_aliases,
}
use serac.Tools.Resolve.{IsSound, Fit, policies-Fit}

module _ (w : Matching) (now : ℕ) (name : String) (ttl : 0 < w.miss_ttl) where
  abbrev Stays : Result AttributeError (Option String) × ToolResolver → Type 0
  Stays p = resolve w now name p.1 ≡ p

  remembered-again :
      (names : List String) (o : Option String) (r : ToolResolver)
      → r.registry ≡ some names
      → Dict.get name r.cache ≡ none
      → Fit names o
      → Stays (remembered now name o r)
  unfolding remembered resolve try_cache try_misses
  remembered-again names none r e c h = rw (c, get-put, same_refl name, is_recent) refl
    where
      is_recent : ltb (now - now) w.miss_ttl ≡ true
      is_recent = ground (arith, ttl)
  remembered-again names (some tool) r e c h = rw (get-put, same_refl name, e, h) refl

  policies-again :
      (registry : Option (List String)) (r : ToolResolver)
      → r.registry ≡ registry
      → Dict.get name r.cache ≡ none
      → Dict.get name r.miss_cache ≡ none
      → Stays (try_policies w now name registry r)
  unfolding try_policies resolve try_cache try_misses
  policies-again none r e c m = rw (c, m, e) refl
  policies-again (some names) r e c m = remembered-again names _ r e c (policies-Fit w r name names)

  misses-again :
      (o : Option ℕ) (r : ToolResolver)
      → Dict.get name r.cache ≡ none
      → Dict.get name r.miss_cache ≡ o
      → Stays (try_misses w now name o r)
  unfolding try_misses resolve try_cache
  misses-again none r c m = policies-again r.registry r refl c m
  misses-again (some time) r c m = elim (Bool-cases (ltb (now - time) w.miss_ttl)) [
    | inl e ↦ rw (e, c, m, e) refl
    | inr e ↦ rw e (policies-again r.registry _ refl c (rw (get-delete, same_refl name) refl))
  ]

  cache-again :
      (o : Option String) (r : ToolResolver)
      → Dict.get name r.cache ≡ o
      → Stays (try_cache w now name o r)
  unfolding try_cache resolve
  cache-again none r c = misses-again _ r c refl
  cache-again (some cached) r c = rw c refl

  opened :
      (r : ToolResolver)
      → Stays (try_cache w now name (Dict.get name r.cache) r)
      → Stays (resolve w now name r)
  unfolding resolve
  opened r h = h

  -- Asked again at the same time, with a positive time to live of a miss, the resolver gives the
  -- same answer, or raises again, and stays as it is.
  pub resolve-again :
      (r : ToolResolver) → resolve w now name (resolve w now name r).1 ≡ resolve w now name r
  resolve-again r = opened r (cache-again _ r refl)

-- A name that was missed less than the time to live ago stays unknown, whatever aliases are added
-- and whatever registry is attached in between.
pub missed-stale :
    (w : Matching) (now time : ℕ) (name : String) (r : ToolResolver)
    → Dict.get name r.miss_cache ≡ some time
    → now - time < w.miss_ttl
    → (more : Dict String String) (registry : Option (List String))
    → (resolve w now name (add_aliases more r)).0 ≡ ok none
      × (resolve w now name (set_registry registry r)).0 ≡ ok none
unfolding resolve try_cache try_misses add_aliases set_registry Dict.get
missed-stale w now time name r m h more registry = (rw (m, is_recent) refl, rw (m, is_recent) refl)
  where
    is_recent : ltb (now - time) w.miss_ttl ≡ true
    is_recent = ground (arith, h)

-- The resolver raises.
abbrev pub Raises : Result AttributeError (Option String) × ToolResolver → Type 0
Raises p = p.0 ≡ err no_registry

-- No miss of the name is remembered that is younger than the time to live.
abbrev pub NotMissed : Matching → ℕ → Option ℕ → Type 0
NotMissed w now none = Unit
NotMissed w now (some time) = ltb (now - time) w.miss_ttl ≡ false

module _ (w : Matching) (now : ℕ) (name : String) where
  remembered-answers : (o : Option String) (r : ToolResolver) → ¬ Raises (remembered now name o r)
  unfolding remembered
  remembered-answers none r h = ground (arith, h)
  remembered-answers (some tool) r h = ground (arith, h)

  policies-raise :
      (registry : Option (List String)) (r : ToolResolver)
      → Raises (try_policies w now name registry r) ↔ (registry ≡ none)
  unfolding try_policies
  policies-raise none r = (λ h. refl, λ h. refl)
  policies-raise (some names) r = (λ h. absurd (remembered-answers _ r h), λ h. ground (arith, h))

  misses-raise :
      (o : Option ℕ) (r : ToolResolver)
      → Raises (try_misses w now name o r) ↔ ((r.registry ≡ none) × NotMissed w now o)
  unfolding try_misses
  misses-raise none r =
      (λ h. ((policies-raise r.registry r).0 h, tt), λ h. (policies-raise r.registry r).1 h.0)
  misses-raise (some time) r = elim (Bool-cases (ltb (now - time) w.miss_ttl)) [
    | inl e ↦ rw e (λ h. ground (arith, h), λ h. ground (arith, h.1))
    | inr e ↦
        rw e
          (λ h. ((policies-raise r.registry _).0 h, refl), λ h. (policies-raise r.registry _).1 h.0)
  ]

  cache-raise :
      (o : Option String) (r : ToolResolver)
      → (r.registry ≡ none → o ≡ none)
      → Raises (try_cache w now name o r)
        ↔ ((r.registry ≡ none) × NotMissed w now (Dict.get name r.miss_cache))
  unfolding try_cache
  cache-raise none r s = misses-raise _ r
  cache-raise (some cached) r s = (λ h. ground (arith, h), λ h. ground (arith, s h.0))

  -- From a sound state, `resolve` raises an AttributeError exactly if there is no registry and no
  -- miss of the name is remembered that is younger than the time to live, whatever aliases there are.
  pub resolve-Raises_iff :
      (r : ToolResolver)
      → IsSound r
      → Raises (resolve w now name r)
        ↔ ((r.registry ≡ none) × NotMissed w now (Dict.get name r.miss_cache))
  unfolding resolve
  resolve-Raises_iff r s = cache-raise _ r (λ e. s e name)

-- Where nothing is remembered of a name and its alias is a registered tool with a name that is not
-- empty, the answer is that tool, whatever the other policies say.
pub alias-first :
    (w : Matching) (now : ℕ) (name tool : String) (names : List String) (r : ToolResolver)
    → Dict.get name r.cache ≡ none
    → Dict.get name r.miss_cache ≡ none
    → r.registry ≡ some names
    → Dict.get name r.aliases ≡ some tool
    → contains tool names ≡ true
    → 0 < count tool
    → (resolve w now name r).0 ≡ ok (some tool)
unfolding resolve try_cache try_misses try_policies policies accepted remembered
alias-first w now name tool names r c m e a h l = rw (c, m, e, a, h, is_text) refl
  where
    is_text : ltb 0 (count tool) ≡ true
    is_text = ground (arith, l)
