-- ===== src/Security/Usage.antt =====
-- What the tracker of agent_framework/tool_security.py keeps and sums up.
use serac.Common.{
  ℕ, zero, suc, ◌≡◌, ◌-◌, ◌+◌, ◌≤◌, ◌<◌, ltb, refl, sym, ap, ◌∙◌, Option, none, some, List, [], ◌∷◌,
  ◌++◌, if◌then◌else◌, keep, map, drop, length, length-append, length-drop, String, text_key, ◌==◌,
  same_iff, arith, append_assoc, append-nil, Bool-cases, inl, inr,
}
use serac.Common.Dict.{Dict, get, or_else, get-put}
use serac.Security.Tracker.{
  ToolCallRecord, ToolUsageTracker, Floats, ToolStats, init, cut, record_call, last_of, count_tools,
  summary, get_tool_stats, stats_of,
}

module _ {ℓ} {A : Type ℓ} where
  drop-append_le : (n : ℕ) (xs ys : List A) → n ≤ length xs → drop n (xs ++ ys) ≡ drop n xs ++ ys
  drop-append_le zero xs ys h = refl
  drop-append_le (suc n) [] ys h = absurd (omega (arith, h))
  drop-append_le (suc n) (x ∷ xs) ys h = drop-append_le n xs ys (omega (arith, h))

  drop-nil : (n : ℕ) → drop {A = A} n [] ≡ []
  drop-nil zero = refl
  drop-nil (suc n) = refl

  drop-drop : (m n : ℕ) (xs : List A) → drop m (drop n xs) ≡ drop (n + m) xs
  drop-drop m zero xs = ap (λ k. drop k xs) (omega arith)
  drop-drop m (suc n) [] = drop-nil m ∙ sym (drop-nil (suc n + m))
  drop-drop m (suc n) (x ∷ xs) = drop-drop m n xs ∙ ap (λ k. drop k (x ∷ xs)) (later m n)
    where
      later : (m n : ℕ) → suc (n + m) ≡ suc n + m
      later m n = omega arith

  -- A list that is cut as it grows has what a cut of the whole list gives.
  last_of-append :
      (n : ℕ) (seen : List A) (x : A)
      → (if ltb (suc n) (length (last_of (suc n) seen ++ x ∷ []))
          then last_of (suc n) (last_of (suc n) seen ++ x ∷ [])
          else last_of (suc n) seen ++ x ∷ [])
        ≡ last_of (suc n) (seen ++ x ∷ [])
  last_of-append n seen x = elim (Bool-cases (ltb (suc n) (length kept))) [
    | inl e ↦ rw e (
        ap (λ k. drop (length kept - suc n) k) whole
        ∙ drop-drop (length kept - suc n) (length seen - suc n) (seen ++ x ∷ [])
        ∙ ap (λ k. drop k (seen ++ x ∷ [])) (cut_twice (ground (arith, e))))
    | inr e ↦ rw e (whole ∙ ap (λ k. drop k (seen ++ x ∷ [])) (no_cut (ground (arith, e))))
  ]
    where
      kept : List A
      kept = last_of (suc n) seen ++ x ∷ []

      whole : kept ≡ drop (length seen - suc n) (seen ++ x ∷ [])
      whole = sym (drop-append_le (length seen - suc n) seen (x ∷ []) (omega arith))

      kept_length : length kept ≡ length seen - (length seen - suc n) + 1
      kept_length =
          length-append (last_of (suc n) seen) (x ∷ [])
          ∙ ap (λ k. k + 1) (length-drop (length seen - suc n) seen)

      cut_twice :
          suc n < length kept
          → length seen - suc n + (length kept - suc n) ≡ length (seen ++ x ∷ []) - suc n
      cut_twice h = omega (arith, h, kept_length, length-append seen (x ∷ []))

      no_cut : length kept ≤ suc n → length seen - suc n ≡ length (seen ++ x ∷ []) - suc n
      no_cut h = omega (arith, h, kept_length, length-append seen (x ∷ []))

module _ {F : Type 0} where
  abbrev pub all_recorded : List (ToolCallRecord F) → ToolUsageTracker F → ToolUsageTracker F
  all_recorded [] t = t
  all_recorded (r ∷ rs) t = all_recorded rs (record_call r t)

  one_recorded :
      {n : ℕ} (r : ToolCallRecord F) (t : ToolUsageTracker F) (seen : List (ToolCallRecord F))
      → t.max_records ≡ suc n
      → t.records ≡ last_of (suc n) seen
      → (record_call r t).records ≡ last_of (suc n) (seen ++ cut r ∷ [])
  unfolding record_call
  one_recorded {n} r t seen m h = rw (m, h) (last_of-append n seen (cut r))

  -- With a limit above 0 the tracker has the last calls, as many as the limit allows, in their order, each
  -- with its texts cut.
  pub record_call-last_of :
      (session_id : Option String) (n : ℕ) (rs : List (ToolCallRecord F))
      → (all_recorded rs (init session_id (suc n))).records ≡ last_of (suc n) (map cut rs)
  unfolding init record_call
  record_call-last_of session_id n rs =
      all-last_of rs (init session_id (suc n)) [] refl (sym (drop-nil (0 - suc n)))
    where
      all-last_of :
          (rs : List (ToolCallRecord F)) (t : ToolUsageTracker F) (seen : List (ToolCallRecord F))
          → t.max_records ≡ suc n
          → t.records ≡ last_of (suc n) seen
          → (all_recorded rs t).records ≡ last_of (suc n) (seen ++ map cut rs)
      all-last_of [] t seen m h = h ∙ ap (last_of (suc n)) (sym (append-nil seen))
      all-last_of (r ∷ rs) t seen m h =
          all-last_of rs (record_call r t) (seen ++ cut r ∷ []) m (one_recorded r t seen m h)
          ∙ ap (last_of (suc n)) (append_assoc seen (cut r ∷ []) (map cut rs))

  counted :
      (name : String) (rs : List (ToolCallRecord F)) (tools : Dict String ℕ)
      → or_else (get name (count_tools rs tools)) 0
        ≡ or_else (get name tools) 0 + length (keep (λ r. r.tool_name == name) rs)
  unfolding count_tools
  counted name [] tools = omega arith
  counted name (r ∷ rs) tools =
      counted name rs _
      ∙ ground (
        arith,
        get-put r.tool_name name (or_else (get r.tool_name tools) 0 + 1) tools,
        same_iff r.tool_name name,
      )

  abbrev pub count_of : Option (ToolStats F) → ℕ
  count_of none = 0
  count_of (some s) = s.count

  count_stats :
      (floats : Floats F) (rs : List (ToolCallRecord F)) → length rs ≡ count_of (stats_of floats rs)
  count_stats floats [] = refl
  count_stats floats (r ∷ rs) = refl

  -- The summary counts for each tool the calls that the statistics of that tool count, and no calls for a
  -- tool without statistics.
  pub summary-get_tool_stats :
      (floats : Floats F) (last_n : ℕ) (name : String) (t : ToolUsageTracker F)
      → or_else (get name (summary floats last_n t).tools) 0
        ≡ count_of (get_tool_stats floats name t)
  unfolding summary get_tool_stats get
  summary-get_tool_stats floats last_n name t =
      counted name t.records []
      ∙ omega arith
      ∙ count_stats floats (keep (λ r. r.tool_name == name) t.records)
