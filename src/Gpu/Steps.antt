-- ===== src/Gpu/Steps.antt =====
-- How jobs of agent_framework/sandbox/gpu_jobs.py live: a step relation of the manager, the processes
-- and the threads that watch, with what holds in every world that is reached.
use serac.Common.{
  map, subst, ℕ, ◌≡◌, refl, ap, Bool, true, false, Option, none, some, List, [], ◌∷◌, if◌then◌else◌,
  ◌==◌, same_iff, text_key, nat_key, arith, String, contains,
}
use serac.Common.Dict.{Dict, get, put, delete, get-put, get-delete}
use serac.Common.Int.{ℤ}
use serac.Gpu.{
  GpuJob, GpuManager, World, init, job_id_of, new_job, spawn_job, is_zero, ended, observed,
  monitor_job, killed, kill_found, kill_job, delete_each, to_remove, cleanup,
}

pub data Step (w : World) : World → Type 0 where
  -- uuid4 gives an id, and the system a pid, that is not in use.
  spawns :
      (suffix : String) (now pid : ℕ) (name script : String)
      → get (job_id_of name suffix) w.manager.active_jobs ≡ none
      → get (job_id_of name suffix) w.monitors ≡ none
      → get pid w.exits ≡ none
      → Step w ((spawn_job true suffix now pid name script w).1)
  -- A process ends by itself.
  exits :
      (pid : ℕ) (code : ℤ)
      → get pid w.exits ≡ none
      → Step w (record w { exits = put pid code w.exits })
  -- A thread sees that its process has ended.
  monitors :
      (job_id : String) (pid now : ℕ) (code : ℤ) (out log : Option String)
      → get job_id w.monitors ≡ some pid
      → get pid w.exits ≡ some code
      → Step w (monitor_job job_id code now out log w)
  kills : (job_id : String) (now : ℕ) → Step w ((kill_job job_id now w).1)
  cleans :
      (max_age_hours : Option ℕ) (now : ℕ)
      → Step w (record w { manager = (cleanup max_age_hours now w.manager).1 })

pub data Reached (m : ℕ) : World → Type 0 where
  starts : Reached m (record { manager = init m; exits = []; monitors = [] })
  goes_on : {v w : World} → Reached m v → Step v w → Reached m w

-- What is known of one id: its job, the process that a thread watches for it, and its process. The
-- fields of a job agree with its status. While it runs a thread watches its process; behind a kill the
-- thread may still be there.
pub data Tracked : Option GpuJob → Option ℕ → Option ℕ → Type 0 where
  nothing : {watched process : Option ℕ} → Tracked none watched process
  is_running :
      {pid : ℕ} (j : GpuJob)
      → j.status ≡ "running"
      → j.end_time ≡ none
      → j.exit_code ≡ none
      → Tracked (some j) (some pid) (some pid)
  is_ended :
      {process : Option ℕ} (code : ℤ) (now : ℕ) (j : GpuJob)
      → j.status ≡ (if is_zero code then "completed" else "failed")
      → j.end_time ≡ some now
      → j.exit_code ≡ some code
      → Tracked (some j) none process
  is_killed :
      {watched process : Option ℕ} (now : ℕ) (j : GpuJob)
      → j.status ≡ "killed"
      → j.end_time ≡ some now
      → j.exit_code ≡ none
      → Tracked (some j) watched process

abbrev pub IsValid : World → Type 0
IsValid w =
    (id : String)
    → Tracked (get id w.manager.active_jobs) (get id w.monitors) (get id w.manager.processes)

spawn-IsValid :
    (suffix : String) (now pid : ℕ) (name script : String) (w : World)
    → IsValid w
    → IsValid ((spawn_job true suffix now pid name script w).1)
unfolding spawn_job
spawn-IsValid suffix now pid name script w v id =
    rw
      (
        get-put (job_id_of name suffix) id _ w.manager.active_jobs,
        get-put (job_id_of name suffix) id pid w.monitors,
        get-put (job_id_of name suffix) id pid w.manager.processes,
      )
      (new (job_id_of name suffix == id))
  where
    new :
        (b : Bool)
        → Tracked
            (if b
              then some (new_job (job_id_of name suffix) now pid name script)
              else get id w.manager.active_jobs)
            (if b then some pid else get id w.monitors)
            (if b then some pid else get id w.manager.processes)
    new true = is_running _ refl refl refl
    new false = v id

-- The job that a monitor leaves.
abbrev pub after_monitor : ℤ → ℕ → Option String → Option String → Option GpuJob → Option GpuJob
after_monitor code now out log none = none
after_monitor code now out log (some j) =
    if j.status == "killed" then some j else some (ended code now out log j)

pub get-observed :
    (job_id id : String) (code : ℤ) (now : ℕ) (out log : Option String) (o : Option GpuJob)
    (m : GpuManager)
    → get job_id m.active_jobs ≡ o
    → get id (observed job_id code now out log o m).active_jobs
      ≡ (if job_id == id then after_monitor code now out log o else get id m.active_jobs)
unfolding observed
get-observed job_id id code now out log none m e = ground (arith, e, same_iff job_id id)
get-observed job_id id code now out log (some j) m e =
    ground
      (arith, e, same_iff job_id id, get-put job_id id (ended code now out log j) m.active_jobs)

observed-processes :
    (job_id : String) (code : ℤ) (now : ℕ) (out log : Option String) (o : Option GpuJob)
    (m : GpuManager)
    → (observed job_id code now out log o m).processes ≡ m.processes
unfolding observed
observed-processes job_id code now out log none m = refl
observed-processes job_id code now out log (some j) m = ground arith

pub status_is : (j : GpuJob) {s : String} (t : String) → j.status ≡ s → (j.status == t) ≡ (s == t)
status_is j t e = ap (λ x. x == t) e

observed-Tracked :
    (code : ℤ) (now : ℕ) (out log : Option String) {o : Option GpuJob} {pid : ℕ}
    {process : Option ℕ}
    → Tracked o (some pid) process
    → Tracked (after_monitor code now out log o) none process
unfolding ended
observed-Tracked code now out log nothing = nothing
observed-Tracked code now out log (is_running j s e x) =
    rw (status_is j "killed" s) (is_ended code now _ refl refl refl)
observed-Tracked code now out log (is_killed t j s e x) =
    rw (status_is j "killed" s) (is_killed t j s e x)

monitor-IsValid :
    (job_id : String) (pid now : ℕ) (code : ℤ) (out log : Option String) (w : World)
    → get job_id w.monitors ≡ some pid
    → IsValid w
    → IsValid (monitor_job job_id code now out log w)
unfolding monitor_job
monitor-IsValid job_id pid now code out log w m v id =
    rw
      (
        get-observed job_id id code now out log _ w.manager refl,
        observed-processes job_id code now out log (get job_id w.manager.active_jobs) w.manager,
        get-delete job_id id w.monitors,
      )
      (there (job_id == id) (same_iff job_id id).0)
  where
    there :
        (b : Bool)
        → (b ≡ true → job_id ≡ id)
        → Tracked
            (if b
              then after_monitor code now out log (get job_id w.manager.active_jobs)
              else get id w.manager.active_jobs)
            (if b then none else get id w.monitors)
            (get id w.manager.processes)
    there true e =
        subst
          (λ i.
            Tracked (after_monitor code now out log (get job_id w.manager.active_jobs)) none
              (get i w.manager.processes))
          (e refl)
          (observed-Tracked code now out log (
            subst
              (λ x. Tracked (get job_id w.manager.active_jobs) x (get job_id w.manager.processes)) m
              (v job_id)))
    there false e = v id

-- The job that a kill leaves.
abbrev pub after_kill : ℕ → Option GpuJob → Option GpuJob
after_kill now none = none
after_kill now (some j) = if j.status == "running" then some (killed now j) else some j

pub get-kill_found :
    (job_id id : String) (now : ℕ) (o : Option GpuJob) (w : World)
    → get job_id w.manager.active_jobs ≡ o
    → (get id ((kill_found job_id now o w).1).manager.active_jobs
        ≡ (if job_id == id then after_kill now o else get id w.manager.active_jobs))
      × (((kill_found job_id now o w).1).monitors ≡ w.monitors)
      × (((kill_found job_id now o w).1).manager.processes ≡ w.manager.processes)
unfolding kill_found
get-kill_found job_id id now none w e = ground (arith, e, same_iff job_id id)
get-kill_found job_id id now (some j) w e =
    ground (arith, e, same_iff job_id id, get-put job_id id (killed now j) w.manager.active_jobs)

killed-Tracked :
    (now : ℕ) {o : Option GpuJob} {watched process : Option ℕ}
    → Tracked o watched process
    → Tracked (after_kill now o) watched process
unfolding killed
killed-Tracked now nothing = nothing
killed-Tracked now (is_running j s e x) = rw (status_is j "running" s) (is_killed now _ refl refl x)
killed-Tracked now (is_ended code t j s e x) =
    rw (status_is j "running" s, not_running (is_zero code)) (is_ended code t j s e x)
  where
    not_running :
        (b : Bool) → ◌==◌ {K = String} (if b then "completed" else "failed") "running" ≡ false
    not_running true = refl
    not_running false = refl
killed-Tracked now (is_killed t j s e x) = rw (status_is j "running" s) (is_killed t j s e x)

kill-IsValid :
    (job_id : String) (now : ℕ) (w : World) → IsValid w → IsValid ((kill_job job_id now w).1)
unfolding kill_job
kill-IsValid job_id now w v id =
    let (same_jobs, same_monitors, same_processes) =
      get-kill_found job_id id now (get job_id w.manager.active_jobs) w refl in
    rw (same_jobs, same_monitors, same_processes) (there (job_id == id) (same_iff job_id id).0)
  where
    there :
        (b : Bool)
        → (b ≡ true → job_id ≡ id)
        → Tracked
            (if b
              then after_kill now (get job_id w.manager.active_jobs)
              else get id w.manager.active_jobs)
            (get id w.monitors)
            (get id w.manager.processes)
    there true e =
        subst
          (λ i.
            Tracked (after_kill now (get job_id w.manager.active_jobs)) (get i w.monitors)
              (get i w.manager.processes))
          (e refl) (killed-Tracked now (v job_id))
    there false e = v id

pub get-delete_each {ℓ} :
    {V : Type ℓ} (ks : List String) (id : String) (d : Dict String V)
    → get id (delete_each ks d) ≡ (if contains id ks then none else get id d)
unfolding delete_each
get-delete_each [] id d = refl
get-delete_each (k ∷ ks) id d =
    ground (arith, get-delete_each ks id (delete k d), get-delete k id d)

cleanup-IsValid :
    (max_age_hours : Option ℕ) (now : ℕ) (w : World)
    → IsValid w
    → IsValid (record w { manager = (cleanup max_age_hours now w.manager).1 })
unfolding cleanup
cleanup-IsValid max_age_hours now w v id =
    rw
      (
        get-delete_each (map (λ e. e.0) (to_remove max_age_hours now w.manager)) id
            w.manager.active_jobs,
        get-delete_each (map (λ e. e.0) (to_remove max_age_hours now w.manager)) id
            w.manager.processes,
      )
      (there (contains id (map (λ e. e.0) (to_remove max_age_hours now w.manager))))
  where
    there :
        (b : Bool)
        → Tracked
            (if b then none else get id w.manager.active_jobs)
            (get id w.monitors)
            (if b then none else get id w.manager.processes)
    there true = nothing
    there false = v id

Step-IsValid : {v w : World} → Step v w → IsValid v → IsValid w
Step-IsValid {v} (spawns suffix now pid name script e m p) h =
    spawn-IsValid suffix now pid name script v h
Step-IsValid (exits pid code e) h = h
Step-IsValid {v} (monitors job_id pid now code out log e x) h =
    monitor-IsValid job_id pid now code out log v e h
Step-IsValid {v} (kills job_id now) h = kill-IsValid job_id now v h
Step-IsValid {v} (cleans max_age_hours now) h = cleanup-IsValid max_age_hours now v h

-- In every world that is reached, under every id: no job; or a running job without an end time and an
-- exit code, whose process, the one that is kept, a thread watches; or a job that ended, completed if its
-- exit code is 0 and else failed, that no thread watches; or a killed job with an end time and no exit code.
pub Reached-IsValid : {m : ℕ} {w : World} → Reached m w → IsValid w
unfolding init get
Reached-IsValid starts = λ id. nothing
Reached-IsValid (goes_on r s) = Step-IsValid s (Reached-IsValid r)
