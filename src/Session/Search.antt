-- ===== src/Session/Search.antt =====
-- The search of agent_framework/session.py.
use serac.Common.{
  ◌≡◌, ◌≤◌, ◌<◌, ◌+◌, ℕ, suc, String, Bool, true, refl, some, List, [], ◌∷◌, Bool-cases, inl, inr,
  ltb, max, arith, length, All, All-map, get_elem?,
}
use serac.Session.{SessionMessage, search_from}

module _ {J : Type 0} (matches : String → Bool) (max_results : ℕ) where
  search-bound :
      (i found : ℕ) (ms : List (SessionMessage J))
      → found < max_results
      → found + length (search_from matches max_results i found ms) ≤ max_results
  unfolding search_from
  search-bound i found [] h = omega (arith, h)
  search-bound i found (m ∷ ms) h =
      ground (arith, search-bound (suc i) (suc found) ms, search-bound (suc i) found ms h)

  search-bound_zero :
      (i found : ℕ) (ms : List (SessionMessage J))
      → max_results ≡ 0
      → length (search_from matches max_results i found ms) ≤ 1
  unfolding search_from
  search-bound_zero i found [] h = omega arith
  search-bound_zero i found (m ∷ ms) h = ground (arith, h, search-bound_zero (suc i) found ms h)

  -- A result of a search at index `i` stands there in the messages, and matches.
  abbrev pub Found : ℕ → List (SessionMessage J) → ℕ × SessionMessage J → Type 0
  Found i ms r =
      (k : ℕ) × (r.0 ≡ k + i) × (get_elem? ms k ≡ some r.1) × (matches r.1.content ≡ true)

  later-Found :
      (i : ℕ) (m : SessionMessage J) (ms : List (SessionMessage J)) (r : ℕ × SessionMessage J)
      → Found (suc i) ms r
      → Found i (m ∷ ms) r
  later-Found i m ms r (k, e, g, h) = (suc k, omega (arith, e), g, h)

  search-Found :
      (i found : ℕ) (ms : List (SessionMessage J))
      → All (Found i ms) (search_from matches max_results i found ms)
  unfolding search_from
  search-Found i found [] = tt
  search-Found i found (m ∷ ms) = elim (Bool-cases (matches m.content)) [
    | inr e ↦ rw e (All-map (later-Found i m ms) _ (search-Found (suc i) found ms))
    | inl e ↦ elim (Bool-cases (ltb (suc found) max_results)) [
      | inl f ↦
          rw (e, f)
            (
              (0, omega arith, refl, e),
              All-map (later-Found i m ms) _ (search-Found (suc i) (suc found) ms),
            )
      | inr f ↦ rw (e, f) ((0, omega arith, refl, e), tt)
    ]
  ]

  -- A search gives no more results than the greater of max_results and one, and each result is a
  -- message of the list at the index that it says, whose content matches.
  pub search_sound :
      (ms : List (SessionMessage J))
      → (length (search_from matches max_results 0 0 ms) ≤ max 1 max_results)
        × All (Found 0 ms) (search_from matches max_results 0 0 ms)
  search_sound ms =
      (ground (arith, search-bound 0 0 ms, search-bound_zero 0 0 ms), search-Found 0 0 ms)
