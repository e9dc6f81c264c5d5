-- ===== src/Security/Rules.antt =====
-- The outbound rules of agent_framework/tool_security.py. The rules are those of the module variable
-- _OUTBOUND_RULES; a compiled pattern is a parameter, with what findall, sub and search say of a text.
pub mod Defaults
use serac.Common.{
  ℕ, ◌≡◌, ◌-◌, ◌+◌, ◌≤◌, refl, sym, ap, ap₂, ◌∙◌, Bool, true, false, List, [], ◌∷◌, ◌++◌, ◌&&◌,
  ◌||◌, not, if◌then◌else◌, keep, map, length, String, text_key, ◌==◌, All, All-map, Bool-cases,
  inl, inr, keep_everything, arith, length-keep-le,
}
use serac.Common.Chars.{Text}

-- A list that is not empty is true.
abbrev pub is_any {ℓ} : {A : Type ℓ} → List A → Bool
is_any [] = false
is_any (x ∷ xs) = true

module _ (P : Type 0) where
  pub record SanitizationRule : Type 0 where
    pub pattern : P
    pub replacement : Text
    pub category : String
    -- set by add_outbound_rule alone
    pub custom : Bool

  -- A change of the rules.
  pub data Change : Type 0 where
    resets : Change
    adds : P → Text → String → Change
    removes : String → Change

  -- What the methods of a compiled pattern give.
  pub record Engine : Type 0 where
    pub findall : P → Text → List Text
    pub sub : P → Text → Text → Text
    pub search : P → Text → Bool

module _ {P : Type 0} where
  unfoldable pub reset_outbound_rules :
      List (SanitizationRule P) → List (SanitizationRule P) → List (SanitizationRule P)
  reset_outbound_rules defaults rules = defaults

  unfoldable pub add_outbound_rule :
      P → Text → String → List (SanitizationRule P) → List (SanitizationRule P)
  add_outbound_rule pattern replacement category rules =
      rules
      ++ record { pattern = pattern; replacement = replacement; category = category; custom = true }
        ∷ []

  unfoldable pub remove_outbound_rule :
      String → List (SanitizationRule P) → ℕ × List (SanitizationRule P)
  remove_outbound_rule category rules =
      let kept = keep (λ r. not (r.category == category) || not r.custom) rules in
      (length rules - length kept, kept)

  module _ (engine : Engine P) where
    unfoldable pub apply_rule : SanitizationRule P → Text → Text
    apply_rule r result =
        if is_any (engine.findall r.pattern result)
        then engine.sub r.pattern r.replacement result
        else result

    unfoldable pub sanitize_outbound : List (SanitizationRule P) → Text → Text
    sanitize_outbound [] value = value
    sanitize_outbound (r ∷ rules) value = sanitize_outbound rules (apply_rule r value)

    unfoldable pub has_sensitive_info : List (SanitizationRule P) → Text → Bool
    has_sensitive_info [] value = false
    has_sensitive_info (r ∷ rules) value =
        engine.search r.pattern value || has_sensitive_info rules value

    none_of : (a b : Bool) → (a || b) ≡ false → (a ≡ false) × (b ≡ false)
    none_of a b h = ground (arith, h)

    -- A text without sensitive information is sent as it is; search finds a match where findall does.
    pub sanitize_outbound-clean :
        (rules : List (SanitizationRule P)) (value : Text)
        → ((p : P) (s : Text) → engine.search p s ≡ is_any (engine.findall p s))
        → has_sensitive_info rules value ≡ false
        → sanitize_outbound rules value ≡ value
    unfolding sanitize_outbound has_sensitive_info apply_rule
    sanitize_outbound-clean [] value agree h = refl
    sanitize_outbound-clean (r ∷ rules) value agree h =
        rw (sym (agree r.pattern value) ∙ (none_of _ _ h).0)
          (sanitize_outbound-clean rules value agree (none_of _ _ h).1)

    sanitize-append :
        (rules more : List (SanitizationRule P)) (value : Text)
        → sanitize_outbound (rules ++ more) value
          ≡ sanitize_outbound more (sanitize_outbound rules value)
    unfolding sanitize_outbound
    sanitize-append [] more value = refl
    sanitize-append (r ∷ rules) more value = sanitize-append rules more (apply_rule r value)

    -- A pattern that was added last has no match in what is sent, where sub leaves no match of it.
    pub add_outbound_rule-applied :
        (pattern : P) (replacement : Text) (category : String) (rules : List (SanitizationRule P))
        (value : Text)
        → ((p : P) (s : Text) → engine.search p s ≡ is_any (engine.findall p s))
        → ((s : Text) → engine.search pattern (engine.sub pattern replacement s) ≡ false)
        → engine.search pattern
            (sanitize_outbound (add_outbound_rule pattern replacement category rules) value)
          ≡ false
    unfolding add_outbound_rule sanitize_outbound apply_rule
    add_outbound_rule-applied pattern replacement category rules value agree gone =
        ap (engine.search pattern) (sanitize-append rules _ value)
        ∙ last (sanitize_outbound rules value)
      where
        last :
            (s : Text)
            → engine.search pattern
                (if is_any (engine.findall pattern s) then engine.sub pattern replacement s else s)
              ≡ false
        last s = elim (Bool-cases (is_any (engine.findall pattern s))) [
          | inl e ↦ rw e (gone s)
          | inr e ↦ rw e (agree pattern s ∙ e)
        ]

  abbrev pub after_changes :
      List (SanitizationRule P)
      → List (SanitizationRule P)
      → List (Change P)
      → List (SanitizationRule P)
  after_changes defaults rules [] = rules
  after_changes defaults rules (resets ∷ changes) =
      after_changes defaults (reset_outbound_rules defaults rules) changes
  after_changes defaults rules (adds p s category ∷ changes) =
      after_changes defaults (add_outbound_rule p s category rules) changes
  after_changes defaults rules (removes category ∷ changes) =
      after_changes defaults ((remove_outbound_rule category rules).1) changes

  abbrev pub defaults_in : List (SanitizationRule P) → List (SanitizationRule P)
  defaults_in rules = keep (λ r. not r.custom) rules

  add-defaults_in :
      (p : P) (s : Text) (category : String) (rules : List (SanitizationRule P))
      → defaults_in (add_outbound_rule p s category rules) ≡ defaults_in rules
  unfolding add_outbound_rule
  add-defaults_in p s category [] = refl
  add-defaults_in p s category (r ∷ rules) = ground (arith, add-defaults_in p s category rules)

  remove-defaults_in :
      (category : String) (rules : List (SanitizationRule P))
      → defaults_in (remove_outbound_rule category rules).1 ≡ defaults_in rules
  unfolding remove_outbound_rule
  remove-defaults_in category [] = refl
  remove-defaults_in category (r ∷ rules) = ground (arith, remove-defaults_in category rules)

  -- Whatever is added, removed and reset, the default rules stay, in their order.
  pub defaults_in-after_changes :
      (defaults : List (SanitizationRule P))
      → All (λ r. r.custom ≡ false) defaults
      → (changes : List (Change P))
      → defaults_in (after_changes defaults defaults changes) ≡ defaults
  unfolding reset_outbound_rules
  defaults_in-after_changes defaults d changes = go defaults (same) changes
    where
      same : defaults_in defaults ≡ defaults
      same = keep_everything (λ r. not r.custom) defaults (All-map (λ r e. rw e refl) defaults d)

      go :
          (rules : List (SanitizationRule P))
          → defaults_in rules ≡ defaults
          → (changes : List (Change P))
          → defaults_in (after_changes defaults rules changes) ≡ defaults
      go rules h [] = h
      go rules h (resets ∷ changes) = go defaults same changes
      go rules h (adds p s category ∷ changes) =
          go _ (add-defaults_in p s category rules ∙ h) changes
      go rules h (removes category ∷ changes) = go _ (remove-defaults_in category rules ∙ h) changes

  -- A removal takes away the custom rules of the category and no other, and tells how many they were.
  pub remove_outbound_rule-count :
      (category : String) (rules : List (SanitizationRule P))
      → ((remove_outbound_rule category rules).0
          ≡ length (keep (λ r. (r.category == category) && r.custom) rules))
        × ((remove_outbound_rule category rules).1
            ≡ keep (λ r. not ((r.category == category) && r.custom)) rules)
  unfolding remove_outbound_rule
  remove_outbound_rule-count category [] = (refl, refl)
  remove_outbound_rule-count category (r ∷ rules) =
      let (count, kept) = remove_outbound_rule-count category rules in
      ground (
        arith,
        count,
        kept,
        length-keep-le (λ r. not (r.category == category) || not r.custom) rules,
      )
