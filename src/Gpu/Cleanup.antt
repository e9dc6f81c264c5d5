-- ===== src/Gpu/Cleanup.antt =====
-- What `cleanup` of agent_framework/sandbox/gpu_jobs.py removes and keeps.
use serac.Common.{
  length-map, All-keep_if, All-of_keep, inl, inr, zero, suc, keep_none, keep_everything, keep-agree,
  All-every, All-map, All-of_map, All-contains, ℕ, ◌≡◌, ◌≤◌, ◌-◌, ◌++◌, min, refl, sym, ap, ◌∙◌,
  Bool, true, false, none, List, [], ◌∷◌, ◌==◌, same_iff, text_key, arith, String, Bool-cases,
  contains, contains-append, Distinct, keep, take, drop, subst, length, length-take, length-drop,
  map, map-append, All, not, ◌&&◌,
}
use serac.Common.Dict.{Dict, delete}
use serac.Common.Sorting.{
  sorted, sorted-IsSorted, length-keep-sorted, length-sorted, take-IsSorted, All-of_sorted,
  Distinct-sorted,
}
use serac.Gpu.{
  GpuJob, GpuManager, delete_each, to_remove, cleanup, is_finished, finished, earlier_end, end_of,
}

abbrev pub keys {ℓ} : {V : Type ℓ} → Dict String V → List String
keys d = map (λ e. e.0) d

module _ {ℓ} {V : Type ℓ} where
  keep-swap : (p q : String × V → Bool) (d : Dict String V) → keep p (keep q d) ≡ keep q (keep p d)
  keep-swap p q [] = refl
  keep-swap p q (e ∷ d) = ground (arith, keep-swap p q d)

  keep-delete :
      (p : String × V → Bool) (k : String) (d : Dict String V)
      → keep p (delete k d) ≡ keep (λ e. p e && not (e.0 == k)) d
  unfolding delete
  keep-delete p k [] = refl
  keep-delete p k (e ∷ d) = ground (arith, keep-delete p k d)

  -- The entries under other keys stay, in their order.
  delete_each-keep :
      (ks : List String) (d : Dict String V)
      → delete_each ks d ≡ keep (λ e. not (contains e.0 ks)) d
  unfolding delete_each
  delete_each-keep [] d = sym (keep_everything (λ e. true) d (All-every (λ e. refl) d))
  delete_each-keep (k ∷ ks) d =
      delete_each-keep ks (delete k d)
      ∙ keep-delete (λ e. not (contains e.0 ks)) k d
      ∙ keep-agree _ _ d (All-every (λ e. ground (arith, same_iff e.0 k, same_iff k e.0)) d)

  keep-append :
      (p : String × V → Bool) (xs ys : Dict String V) → keep p (xs ++ ys) ≡ keep p xs ++ keep p ys
  keep-append p [] ys = refl
  keep-append p (x ∷ xs) ys = ground (arith, keep-append p xs ys)

  apart :
      (xs ys : Dict String V)
      → Distinct (keys (xs ++ ys))
      → All (λ e. contains e.0 (keys xs) ≡ false) ys
  apart [] ys d = All-every (λ e. refl) ys
  apart (x ∷ xs) ys d =
      with_key ys (apart xs ys d.1)
        (ground (arith, d.0, map-append (λ e. e.0) xs ys, contains-append x.0 (keys xs) (keys ys)))
    where
      with_key :
          (zs : Dict String V)
          → All (λ e. contains e.0 (keys xs) ≡ false) zs
          → contains x.0 (keys zs) ≡ false
          → All (λ e. contains e.0 (keys (x ∷ xs)) ≡ false) zs
      with_key [] a h = tt
      with_key (z ∷ zs) (e, a) h = (
        ground (arith, e, h, same_iff z.0 x.0, same_iff x.0 z.0),
        with_key zs a (ground (arith, h)),
      )

  rest_kept :
      (xs ys : Dict String V)
      → Distinct (keys (xs ++ ys))
      → keep (λ e. not (contains e.0 (keys xs))) (xs ++ ys) ≡ ys
  rest_kept xs ys d =
      rw
        (
          keep-append (λ e. not (contains e.0 (keys xs))) xs ys,
          keep_none (λ e. not (contains e.0 (keys xs))) xs
              (All-map (λ e h. ground (arith, h)) xs
                (All-of_map (λ k. contains k (keys xs) ≡ true) (λ e. e.0) xs
                  (All-contains (keys xs)))),
        )
        (keep_everything _ ys (All-map (λ e h. ground (arith, h)) ys (apart xs ys d)))

  absent-keep :
      (p : String × V → Bool) (x : String) (d : Dict String V)
      → contains x (keys d) ≡ false
      → contains x (keys (keep p d)) ≡ false
  absent-keep p x [] h = refl
  absent-keep p x (y ∷ d) h = ground (arith, h, absent-keep p x d)

  Distinct-keys :
      (p : String × V → Bool) (d : Dict String V) → Distinct (keys d) → Distinct (keys (keep p d))
  Distinct-keys p [] h = tt
  Distinct-keys p (e ∷ d) (h, k) = elim (Bool-cases (p e)) [
    | inl t ↦ rw t (absent-keep p e.0 d h, Distinct-keys p d k)
    | inr t ↦ rw t (Distinct-keys p d k)
  ]

take-drop {ℓ} : {A : Type ℓ} (n : ℕ) (xs : List A) → take n xs ++ drop n xs ≡ xs
take-drop zero xs = refl
take-drop (suc n) [] = refl
take-drop (suc n) (x ∷ xs) = ap (λ ys. x ∷ ys) (take-drop n xs)

module _ (now : ℕ) (m : GpuManager) (distinct : Distinct (keys m.active_jobs)) where
  abbrev ordered : List (String × GpuJob)
  ordered = sorted earlier_end (finished m.active_jobs)

  abbrev excess : ℕ
  excess = length ordered - m.max_retained_jobs

  abbrev stays : String × GpuJob → Bool
  stays e = not (contains e.0 (keys (take excess ordered)))

  Distinct-ordered : Distinct (keys ordered)
  unfolding finished
  Distinct-ordered =
      Distinct-sorted earlier_end (λ e. e.0) (finished m.active_jobs)
        (Distinct-keys (λ e. is_finished e.1) m.active_jobs distinct)

  finished-after : finished (cleanup none now m).1.active_jobs ≡ keep stays (finished m.active_jobs)
  unfolding cleanup finished to_remove
  finished-after =
      ap finished (delete_each-keep (keys (to_remove none now m)) m.active_jobs)
      ∙ keep-swap (λ e. is_finished e.1) _ m.active_jobs

  rest-ordered : keep stays ordered ≡ drop excess ordered
  rest-ordered =
      ap (λ xs. keep stays xs) (sym (take-drop excess ordered))
      ∙ rest_kept (take excess ordered) (drop excess ordered)
          (subst (λ xs. Distinct (keys xs)) (sym (take-drop excess ordered)) Distinct-ordered)

  length-ordered : length ordered ≡ length (finished m.active_jobs)
  length-ordered = length-sorted earlier_end (finished m.active_jobs)

  length-after : length (keep stays (finished m.active_jobs)) ≡ length ordered - excess
  length-after =
      sym (length-keep-sorted earlier_end stays (finished m.active_jobs))
      ∙ ap (λ xs. length xs) rest-ordered
      ∙ length-drop excess ordered

  -- A cleanup without an age limit keeps as many of the finished jobs as the limit on their number allows,
  -- and returns the number of the finished jobs above the limit; for a dictionary, which has a key once.
  pub cleanup-limit :
      (length (finished (cleanup none now m).1.active_jobs)
        ≡ min (length (finished m.active_jobs)) m.max_retained_jobs)
      × ((cleanup none now m).0 ≡ length (finished m.active_jobs) - m.max_retained_jobs)
  unfolding cleanup to_remove
  cleanup-limit = (
    ap (λ d. length d) finished-after ∙ length-after ∙ omega (arith, length-ordered),
    length-map (λ e. e.0) (take excess ordered)
        ∙ length-take excess ordered
        ∙ omega (arith, length-ordered),
  )

  -- In a cleanup without an age limit a finished job that is removed for the limit on their number ended no
  -- later than any finished job that is kept; for a dictionary, which has a key once.
  pub cleanup-oldest :
      All
        (λ r. All (λ e. end_of r ≤ end_of e) (finished (cleanup none now m).1.active_jobs))
        (to_remove none now m)
  unfolding to_remove
  cleanup-oldest = rw finished-after (All-map upto (take excess ordered) in_order)
    where
      kept_after : String × GpuJob → Type 0
      kept_after r = All (λ e. earlier_end r e ≡ true) (drop excess ordered)

      in_order : All kept_after (take excess ordered)
      in_order = take-IsSorted earlier_end excess ordered (
          sorted-IsSorted earlier_end (λ x y e. ground (arith, e))
            (λ x y z e k. ground (arith, e, k)) (finished m.active_jobs))

      upto :
          (r : String × GpuJob)
          → kept_after r
          → All (λ e. end_of r ≤ end_of e) (keep stays (finished m.active_jobs))
      upto r h =
          All-keep_if (λ e. end_of r ≤ end_of e) stays (finished m.active_jobs)
            (All-of_sorted earlier_end (λ e. stays e ≡ true → end_of r ≤ end_of e)
              (finished m.active_jobs)
              (All-of_keep (λ e. end_of r ≤ end_of e) stays ordered
                (rw rest-ordered (All-map (λ e k. ground (arith, k)) (drop excess ordered) h))))
