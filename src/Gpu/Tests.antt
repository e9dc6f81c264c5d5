-- ===== src/Gpu/Tests.antt =====
-- Runs of gpu_jobs.py: two jobs, one that ends by itself and one that is killed.
use serac.Common.{
  ◌≡◌, ◌≢◌, ◌≤◌, ◌∷◌, [], ℕ, some, none, refl, true, false, String, All, length, min, text_key,
  nat_key, map, List, zero, suc, ltb, ◌-◌, ◌⊎◌, Option,
}
use serac.Common.Text.{concat}
use serac.Common.Dict
use serac.Common.Dict.{Dict, get}
use serac.Common.Int.{ℤ, pos, negsuc}
use serac.Common.Sorting.{sorted, insert_by}
use serac.Gpu.{
  GpuJob, World, init, new_job, spawn_job, ended, observed, monitor_job, kill_process, killed,
  kill_found, kill_job, get_job, list_jobs, finished, end_of, to_remove, delete_each, cleanup,
}
use serac.Gpu.Child.{
  GpuResource, Shown, several, cuda_visible_devices, update, job_env, wrapper_content, ran,
  run_gpu_job,
}
use serac.Gpu.Steps.{
  Step, Reached, Reached-IsValid, Tracked, spawns, exits, monitors, kills, starts, goes_on,
}
use serac.Gpu.Cleanup.{cleanup-limit, cleanup-oldest, keys}
use serac.Gpu.Endings.{Step-finished, running-ends}

abbrev keys_of : List GpuJob → List String
keys_of jobs = map (λ j. j.job_id) jobs

abbrev number : ℤ → String
number (pos zero) = "0"
number (pos (suc n)) = "1"
number (negsuc n) = "-1"

program : Unit {0}
unfolding Dict.get Dict.put Dict.delete sorted insert_by init spawn_job ended observed monitor_job
    kill_process killed kill_found kill_job get_job list_jobs finished to_remove delete_each cleanup
    cuda_visible_devices update job_env wrapper_content ran run_gpu_job
program = tt

abbrev empty : World
empty = record { manager = init 1; exits = []; monitors = [] }

abbrev first : World
first = (spawn_job true "aa" 10 100 "train" "train.py" empty).1

abbrev both : World
both = (spawn_job true "bb" 20 200 "test" "test.py" first).1

abbrev one_ended : World
one_ended = record both { exits = (100, pos 3) ∷ [] }

abbrev one_failed : World
one_failed = monitor_job "train_aa" (pos 3) 30 (some "out") none one_ended

abbrev other_killed : World
other_killed = (kill_job "test_bb" 40 one_failed).1

abbrev after_cleanup : World
after_cleanup = record other_killed { manager = (cleanup none 50 other_killed.manager).1 }

no_script : (spawn_job false "aa" 10 100 "train" "train.py" empty).1 ≡ empty
unfolding program
no_script = refl

killed_once : (kill_job "test_bb" 45 other_killed).0 ≡ false
unfolding program
killed_once = refl

process_killed : get 200 other_killed.exits ≡ some (negsuc 8)
unfolding program
process_killed = refl

listed : keys_of (list_jobs none other_killed.manager) ≡ "test_bb" ∷ "train_aa" ∷ []
unfolding program
listed = refl

oldest_removed : keys after_cleanup.manager.active_jobs ≡ "test_bb" ∷ []
unfolding program
oldest_removed = refl

age_removed : (cleanup (some 1) 3631 other_killed.manager).0 ≡ 1
unfolding program
age_removed = refl

one_ended-Reached : Reached 1 one_ended
unfolding program
one_ended-Reached =
    goes_on
      (goes_on (goes_on starts (spawns "aa" 10 100 "train" "train.py" refl refl refl))
        (spawns "bb" 20 200 "test" "test.py" refl refl refl))
      (exits 100 (pos 3) refl)

one_failed-Reached : Reached 1 one_failed
unfolding program
one_failed-Reached =
    goes_on one_ended-Reached (monitors "train_aa" 100 30 (pos 3) (some "out") none refl refl)

Reached-IsValid_example : Tracked (get "train_aa" one_failed.manager.active_jobs) none (some 100)
unfolding program
Reached-IsValid_example = Reached-IsValid one_failed-Reached "train_aa"

abbrev failed : GpuJob
failed = ended (pos 3) 30 (some "out") none (new_job "train_aa" 10 100 "train" "train.py")

Step-finished_example :
    (get "train_aa" other_killed.manager.active_jobs ≡ none)
    ⊎ (get "train_aa" other_killed.manager.active_jobs ≡ some failed)
unfolding program
Step-finished_example =
    Step-finished one_failed-Reached (kills "test_bb" 40) "train_aa" failed refl refl

running-ends_example :
    (pid : ℕ) × (get "train_aa" one_ended.manager.processes ≡ some pid)
    × ((code : ℤ) (now : ℕ) (out log : Option String)
        → get pid one_ended.exits ≡ some code
        → Step one_ended (monitor_job "train_aa" code now out log one_ended)
          × (j : GpuJob) × (get "train_aa"
                (monitor_job "train_aa" code now out log one_ended).manager.active_jobs
              ≡ some j)
          × (((code ≡ pos 0) × (j.status ≡ "completed")) ⊎ ((code ≢ pos 0) × (j.status ≡ "failed")))
          × (j.exit_code ≡ some code)
          × (j.end_time ≡ some now))
unfolding program
running-ends_example =
    running-ends one_ended-Reached "train_aa" (new_job "train_aa" 10 100 "train" "train.py") refl
      refl

cleanup-limit_example :
    (length (finished (cleanup none 50 other_killed.manager).1.active_jobs)
      ≡ min (length (finished other_killed.manager.active_jobs)) 1)
    × ((cleanup none 50 other_killed.manager).0
        ≡ length (finished other_killed.manager.active_jobs) - 1)
unfolding program
cleanup-limit_example = cleanup-limit 50 other_killed.manager (refl, (refl, tt))

cleanup-oldest_example :
    All
      (λ r.
        All
          (λ e. end_of r ≤ end_of e)
          (finished (cleanup none 50 other_killed.manager).1.active_jobs))
      (to_remove none 50 other_killed.manager)
unfolding program
cleanup-oldest_example = cleanup-oldest 50 other_killed.manager (refl, (refl, tt))

abbrev shown : Shown ℕ
shown = record {
  str_of = number;
  str_of_float = λ n. "4.0";
  is_positive = λ n. ltb 0 n;
  megabytes = λ n. "4096";
  repr = λ s. concat ("'" ∷ s ∷ "'" ∷ []);
}

abbrev two_devices : GpuResource ℕ
two_devices = record {
  device = several (pos 0 ∷ pos 1 ∷ []);
  max_memory_gb = 4;
  extra_env = ("SEED", "7") ∷ [];
}
