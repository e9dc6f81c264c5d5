-- ===== src/Gpu.antt =====
-- agent_framework/sandbox/gpu_jobs.py: jobs, each a process that a thread watches. The state is that of
-- a GPUManager with the processes that have ended and the threads that still watch. A process is known
-- by its pid. Times count from datetime.min in seconds.
pub mod Child
pub mod Steps
pub mod Cleanup
pub mod Endings
pub mod Tests
use serac.Common.{
  ℕ, ◌+◌, ◌-◌, ◌*◌, ltb, leb, Bool, true, false, Option, none, some, List, [], ◌∷◌, ◌++◌,
  if◌then◌else◌, map, keep, take, length, contains, ◌==◌, text_key, nat_key, String, Result, ok,
  err, not,
}
use serac.Common.Dict.{Dict, get, put, delete, or_else}
use serac.Common.Int.{ℤ, pos, negsuc}
use serac.Common.Sorting.{sorted}
use serac.Common.Text.{concat}

pub record GpuJob : Type 0 where
  pub job_id : String
  pub name : String
  pub script : String
  pub status : String
  pub start_time : ℕ
  pub end_time : Option ℕ
  pub exit_code : Option ℤ
  pub stdout : String
  pub stderr : String
  pub pid : Option ℕ

pub record GpuManager : Type 0 where
  pub active_jobs : Dict String GpuJob
  pub processes : Dict String ℕ
  pub max_retained_jobs : ℕ

pub record World : Type 0 where
  pub manager : GpuManager
  -- the exit codes of the processes that have ended
  pub exits : Dict ℕ ℤ
  -- the threads in _monitor_job, by job and process
  pub monitors : Dict String ℕ

pub data Error : Type 0 where
  file_not_found_error : String → Error

unfoldable pub init : ℕ → GpuManager
init max_retained_jobs = record {
  active_jobs = [];
  processes = [];
  max_retained_jobs = max_retained_jobs;
}

-- job_id, for the suffix that uuid4 gives
abbrev pub job_id_of : String → String → String
job_id_of name suffix = concat (name ∷ "_" ∷ suffix ∷ [])

abbrev pub new_job : String → ℕ → ℕ → String → String → GpuJob
new_job job_id now pid name script = record {
  job_id = job_id;
  name = name;
  script = script;
  status = "running";
  start_time = now;
  end_time = none;
  exit_code = none;
  stdout = "";
  stderr = "";
  pid = some pid;
}

unfoldable pub spawn_job :
    Bool → String → ℕ → ℕ → String → String → World → Result Error String × World
spawn_job is_file suffix now pid name script w =
    if not is_file then (err (file_not_found_error script), w) else (
      ok (job_id_of name suffix),
      record w {
        manager = record w.manager {
          active_jobs =
              put (job_id_of name suffix) (new_job (job_id_of name suffix) now pid name script)
                w.manager.active_jobs;
          processes = put (job_id_of name suffix) pid w.manager.processes;
        };
        monitors = put (job_id_of name suffix) pid w.monitors;
      },
    )

abbrev pub is_zero : ℤ → Bool
is_zero (pos n) = n == 0
is_zero (negsuc n) = false

-- What the monitor makes of a job that was not killed, with the texts of the logs that exist.
unfoldable pub ended : ℤ → ℕ → Option String → Option String → GpuJob → GpuJob
ended code now out log j = record j {
  status = if is_zero code then "completed" else "failed";
  exit_code = some code;
  end_time = some now;
  stdout = or_else out j.stdout;
  stderr = or_else log j.stderr;
}

unfoldable pub observed :
    String → ℤ → ℕ → Option String → Option String → Option GpuJob → GpuManager → GpuManager
observed job_id code now out log none m = m
observed job_id code now out log (some j) m =
    if j.status == "killed"
    then m
    else record m { active_jobs = put job_id (ended code now out log j) m.active_jobs }

-- _monitor_job, behind its loop
unfoldable pub monitor_job : String → ℤ → ℕ → Option String → Option String → World → World
monitor_job job_id code now out log w = record w {
  manager = observed job_id code now out log (get job_id w.manager.active_jobs) w.manager;
  monitors = delete job_id w.monitors;
}

-- proc.kill() of a process that is alive: it ends with the code of SIGKILL.
abbrev pub kill_alive : ℕ → Option ℤ → Dict ℕ ℤ → Dict ℕ ℤ
kill_alive pid none exits = put pid (negsuc 8) exits
kill_alive pid (some code) exits = exits

unfoldable pub kill_process : Option ℕ → Dict ℕ ℤ → Dict ℕ ℤ
kill_process none exits = exits
kill_process (some pid) exits = kill_alive pid (get pid exits) exits

unfoldable pub killed : ℕ → GpuJob → GpuJob
killed now j = record j { status = "killed"; end_time = some now }

unfoldable pub kill_found : String → ℕ → Option GpuJob → World → Bool × World
kill_found job_id now none w = (false, w)
kill_found job_id now (some j) w =
    if j.status == "running"
    then (
      true,
      record w {
        exits = kill_process (get job_id w.manager.processes) w.exits;
        manager = record w.manager {
          active_jobs = put job_id (killed now j) w.manager.active_jobs;
        };
      },
    )
    else (false, w)

unfoldable pub kill_job : String → ℕ → World → Bool × World
kill_job job_id now w = kill_found job_id now (get job_id w.manager.active_jobs) w

unfoldable pub get_job : String → GpuManager → Option GpuJob
get_job job_id m = get job_id m.active_jobs

abbrev pub later_start : GpuJob → GpuJob → Bool
later_start a b = leb b.start_time a.start_time

abbrev pub values : Dict String GpuJob → List GpuJob
values jobs = map (λ e. e.1) jobs

unfoldable pub list_jobs : Option String → GpuManager → List GpuJob
list_jobs none m = sorted later_start (values m.active_jobs)
list_jobs (some status) m = sorted later_start (
    if status == ""
    then values m.active_jobs
    else keep (λ j. j.status == status) (values m.active_jobs))

abbrev pub is_finished : GpuJob → Bool
is_finished j = contains j.status ("completed" ∷ "failed" ∷ "killed" ∷ [])

unfoldable pub finished : Dict String GpuJob → Dict String GpuJob
finished jobs = keep (λ e. is_finished e.1) jobs

abbrev pub end_of : String × GpuJob → ℕ
end_of e = or_else e.1.end_time 0

abbrev pub earlier_end : String × GpuJob → String × GpuJob → Bool
earlier_end a b = leb (end_of a) (end_of b)

abbrev pub is_older : ℕ → ℕ → Option ℕ → Bool
is_older now hours none = false
is_older now hours (some end_time) = ltb (hours * 3600) (now - end_time)

unfoldable pub to_remove : Option ℕ → ℕ → GpuManager → Dict String GpuJob
to_remove (some max_age_hours) now m =
    keep (λ e. is_older now max_age_hours e.1.end_time) (finished m.active_jobs)
to_remove none now m =
    let sorted_finished = sorted earlier_end (finished m.active_jobs) in
    take (length sorted_finished - m.max_retained_jobs) sorted_finished

unfoldable pub delete_each {ℓ} : {V : Type ℓ} → List String → Dict String V → Dict String V
delete_each [] d = d
delete_each (k ∷ ks) d = delete_each ks (delete k d)

unfoldable pub cleanup : Option ℕ → ℕ → GpuManager → ℕ × GpuManager
cleanup max_age_hours now m =
    let removed = map (λ e. e.0) (to_remove max_age_hours now m) in
    (
      length removed,
      record m {
        active_jobs = delete_each removed m.active_jobs;
        processes = delete_each removed m.processes;
      },
    )
