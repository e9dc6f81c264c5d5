-- ===== src/Gpu/Endings.antt =====
-- How jobs of agent_framework/sandbox/gpu_jobs.py end: once, by their process or by a kill.
use serac.Common.{
  ℕ, zero, suc, nat_beq, ◌≡◌, ◌≢◌, ◌⊎◌, inl, inr, refl, sym, ap, ◌∙◌, Bool, true, false, Option,
  none, some, [], ◌∷◌, if◌then◌else◌, ◌==◌, same_iff, same_refl, text_key, nat_key, arith, String,
  Bool-cases, contains, map, subst,
}
use serac.Common.Dict.{get, get-put}
use serac.Common.Int.{ℤ, pos, negsuc}
use serac.Gpu.{
  GpuJob, World, job_id_of, new_job, spawn_job, is_zero, ended, monitor_job, kill_job, to_remove,
  cleanup, is_finished,
}
use serac.Gpu.Steps.{
  Step, Reached, Reached-IsValid, Tracked, nothing, is_running, is_ended, is_killed, spawns, exits,
  monitors, kills, cleans, after_monitor, after_kill, get-observed, get-kill_found, get-delete_each,
  status_is,
}

opposite : {b : Bool} → b ≡ true → b ≡ false → ⊥
opposite e f = ground (arith, e, f)

running_unfinished : (j : GpuJob) → j.status ≡ "running" → is_finished j ≡ false
running_unfinished j e = ap (λ s. contains s ("completed" ∷ "failed" ∷ "killed" ∷ [])) e

abbrev is_none_or_finished : Option GpuJob → Bool
is_none_or_finished none = true
is_none_or_finished (some j) = is_finished j

monitor-finished :
    (code : ℤ) (now : ℕ) (out log : Option String) {o : Option GpuJob} {pid : ℕ}
    {process : Option ℕ}
    → Tracked o (some pid) process
    → is_none_or_finished o ≡ true
    → after_monitor code now out log o ≡ o
monitor-finished code now out log nothing f = refl
monitor-finished code now out log (is_running j s e x) f =
    absurd (opposite f (running_unfinished j s))
monitor-finished code now out log (is_killed t j s e x) f = rw (status_is j "killed" s) refl

kill-finished : (now : ℕ) (j : GpuJob) → is_finished j ≡ true → after_kill now (some j) ≡ some j
kill-finished now j f = elim (Bool-cases (j.status == "running")) [
  | inl e ↦ absurd (never ((same_iff j.status "running").0 e))
  | inr e ↦ rw e refl
]
  where
    never : j.status ≡ "running" → ⊥
    never e = opposite f (running_unfinished j e)

differ : {j : GpuJob} → none ≡ some j → ⊥
differ e = ground (arith, e)

-- A step leaves a finished job as it is or removes it.
pub Step-finished :
    {m : ℕ} {v w : World}
    → Reached m v
    → Step v w
    → (id : String) (j : GpuJob) → get id v.manager.active_jobs ≡ some j
    → is_finished j ≡ true
    → (get id w.manager.active_jobs ≡ none) ⊎ (get id w.manager.active_jobs ≡ some j)
unfolding spawn_job monitor_job kill_job cleanup
Step-finished {v = v} r (spawns suffix now pid name script e m p) id j h f = inr (
    get-put (job_id_of name suffix) id _ v.manager.active_jobs
    ∙ there (job_id_of name suffix == id) (same_iff (job_id_of name suffix) id).0)
  where
    there :
        (b : Bool)
        → (b ≡ true → job_id_of name suffix ≡ id)
        → (if b
            then some (new_job (job_id_of name suffix) now pid name script)
            else get id v.manager.active_jobs)
          ≡ some j
    there true k =
        absurd (differ (sym (subst (λ i. get i v.manager.active_jobs ≡ none) (k refl) e) ∙ h))
    there false k = h
Step-finished r (exits pid code e) id j h f = inr h
Step-finished {v = v} r (monitors job_id pid now code out log e x) id j h f = inr (
    get-observed job_id id code now out log _ v.manager refl
    ∙ there (job_id == id) (same_iff job_id id).0)
  where
    there :
        (b : Bool)
        → (b ≡ true → job_id ≡ id)
        → (if b
            then after_monitor code now out log (get job_id v.manager.active_jobs)
            else get id v.manager.active_jobs)
          ≡ some j
    there true k =
        let here = ap (λ i. get i v.manager.active_jobs) (k refl) ∙ h in
        monitor-finished code now out log
          (subst
            (λ x. Tracked (get job_id v.manager.active_jobs) x (get job_id v.manager.processes)) e
            (Reached-IsValid r job_id))
          (ap is_none_or_finished here ∙ f)
        ∙ here
    there false k = h
Step-finished {v = v} r (kills job_id now) id j h f =
    inr ((get-kill_found job_id id now _ v refl).0 ∙ there (job_id == id) (same_iff job_id id).0)
  where
    there :
        (b : Bool)
        → (b ≡ true → job_id ≡ id)
        → (if b
            then after_kill now (get job_id v.manager.active_jobs)
            else get id v.manager.active_jobs)
          ≡ some j
    there true k = rw (ap (λ i. get i v.manager.active_jobs) (k refl) ∙ h) (kill-finished now j f)
    there false k = h
Step-finished {v = v} r (cleans max_age_hours now) id j h f =
    rw
      (get-delete_each (map (λ e. e.0) (to_remove max_age_hours now v.manager)) id
        v.manager.active_jobs)
      (there (contains id (map (λ e. e.0) (to_remove max_age_hours now v.manager))))
  where
    there :
        (b : Bool)
        → ((if b then none else get id v.manager.active_jobs) ≡ none)
          ⊎ ((if b then none else get id v.manager.active_jobs) ≡ some j)
    there true = inl refl
    there false = inr h

abbrev is_running_job : Option GpuJob → Bool
is_running_job none = false
is_running_job (some j) = j.status == "running"

watched_process :
    {o : Option GpuJob} {watched process : Option ℕ}
    → Tracked o watched process
    → is_running_job o ≡ true
    → (pid : ℕ) × (watched ≡ some pid) × (process ≡ some pid)
watched_process nothing f = absurd (opposite f refl)
watched_process (is_running {pid} j s e x) f = (pid, refl, refl)
watched_process (is_ended code t j s e x) f =
    absurd (never (is_zero code) (sym s ∙ (same_iff j.status "running").0 f))
  where
    never : (b : Bool) → ◌≡◌ {A = String} (if b then "completed" else "failed") "running" → ⊥
    never true e =
        opposite {b = ◌==◌ {K = String} "completed" "running"}
          ((same_iff "completed" "running").1 e) refl
    never false e =
        opposite {b = ◌==◌ {K = String} "failed" "running"} ((same_iff "failed" "running").1 e) refl
watched_process (is_killed t j s e x) f = absurd (opposite f (status_is j "running" s))

positive : (n : ℕ) → nat_beq (suc n) 0 ≡ false
positive n = ground arith

ended-status :
    (code : ℤ) (now : ℕ) (out log : Option String) (j : GpuJob)
    → ((code ≡ pos 0) × ((ended code now out log j).status ≡ "completed"))
      ⊎ ((code ≢ pos 0) × ((ended code now out log j).status ≡ "failed"))
unfolding ended
ended-status (pos zero) now out log j = inl (refl, refl)
ended-status (pos (suc n)) now out log j = inr ((λ e. ground (arith, e)), rw (positive n) refl)
ended-status (negsuc n) now out log j = inr ((λ e. ground (arith, e)), refl)

ended-times :
    (code : ℤ) (now : ℕ) (out log : Option String) (j : GpuJob)
    → ((ended code now out log j).exit_code ≡ some code)
      × ((ended code now out log j).end_time ≡ some now)
unfolding ended
ended-times code now out log j = (refl, refl)

-- While a job runs, some process is kept for it, and once this process has ended the thread that watches it
-- can go on: the job is then completed if the exit code is 0 and else failed, and has that exit code and
-- the time as its end.
pub running-ends :
    {m : ℕ} {w : World}
    → Reached m w
    → (id : String) (j : GpuJob) → get id w.manager.active_jobs ≡ some j
    → j.status ≡ "running"
    → (pid : ℕ) × (get id w.manager.processes ≡ some pid)
      × ((code : ℤ) (now : ℕ) (out log : Option String)
          → get pid w.exits ≡ some code
          → Step w (monitor_job id code now out log w)
            × (j' : GpuJob) × (get id (monitor_job id code now out log w).manager.active_jobs
                ≡ some j')
            × (((code ≡ pos 0) × (j'.status ≡ "completed"))
                ⊎ ((code ≢ pos 0) × (j'.status ≡ "failed")))
            × (j'.exit_code ≡ some code)
            × (j'.end_time ≡ some now))
unfolding monitor_job
running-ends {w = w} r id j h s =
    let (pid, m, p) =
      watched_process (Reached-IsValid r id)
        (ap is_running_job h ∙ (same_iff j.status "running").1 s) in
    (
      pid,
      p,
      λ code now out log e. (
        monitors id pid now code out log m e,
        ended code now out log j,
        there code now out log,
        ended-status code now out log j,
        (ended-times code now out log j).0,
        (ended-times code now out log j).1,
      ),
    )
  where
    there :
        (code : ℤ) (now : ℕ) (out log : Option String)
        → get id (monitor_job id code now out log w).manager.active_jobs
          ≡ some (ended code now out log j)
    there code now out log =
        get-observed id id code now out log _ w.manager refl
        ∙ rw (same_refl id, h, status_is j "killed" s) refl
