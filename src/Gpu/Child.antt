-- ===== src/Gpu/Child.antt =====
-- The process of a job, `_run_gpu_job` of agent_framework/sandbox/gpu_jobs.py: the environment, the
-- script that it runs, the files that it writes and its exit code. Parameters are str() and the tests of
-- numbers, repr of a path, and subprocess.run, which fails or gives the exit code.
use serac.Common.{
  ◌≡◌, refl, ◌∙◌, arith, contains, Bool, true, false, some, List, [], ◌∷◌, if◌then◌else◌, map,
  text_key, String, Result, ok, err,
}
use serac.Common.Dict.{Dict, get, put, get-put}
use serac.Common.Int.{ℤ, negsuc}
use serac.Common.Text.{concat, join}

pub data Device : Type 0 where
  one : ℤ → Device
  several : List ℤ → Device
  written : String → Device

module _ (F : Type 0) where
  pub record GpuResource : Type 0 where
    pub device : Device
    pub max_memory_gb : F
    pub extra_env : Dict String String

  pub record Shown : Type 0 where
    pub str_of : ℤ → String
    pub str_of_float : F → String
    pub is_positive : F → Bool
    -- str(int(gb * 1024))
    pub megabytes : F → String
    pub repr : String → String

module _ {F : Type 0} (shown : Shown F) where
  unfoldable pub cuda_visible_devices : Device → String
  cuda_visible_devices (one d) = shown.str_of d
  cuda_visible_devices (written s) = s
  cuda_visible_devices (several ds) = join "," (map shown.str_of ds)

  -- env.update(d)
  unfoldable pub update : Dict String String → Dict String String → Dict String String
  update env [] = env
  update env ((k, v) ∷ rest) = update (put k v env) rest

  unfoldable pub job_env : GpuResource F → Dict String String → Dict String String
  job_env r environ =
      let env = put "CUDA_VISIBLE_DEVICES" (cuda_visible_devices r.device) environ in
      let grown = put "TF_FORCE_GPU_ALLOW_GROWTH" "true" env in
      let env' = if shown.is_positive r.max_memory_gb then grown else env in
      update (put "GPUJOBS_START_METHOD" "spawn" env') r.extra_env

  unfoldable pub wrapper_content : F → String → String
  wrapper_content max_memory_gb script = concat (
      "import sys\n"
      ∷ "# VRAM cap: "
      ∷ shown.str_of_float max_memory_gb
      ∷ " GB = "
      ∷ shown.megabytes max_memory_gb
      ∷ " MB\n"
      ∷ "try:\n"
      ∷ "    import tensorflow as tf\n"
      ∷ "    gpus = tf.config.list_physical_devices('GPU')\n"
      ∷ "    if gpus:\n"
      ∷ "        tf.config.set_logical_device_configuration(\n"
      ∷ "            gpus[0],\n"
      ∷ "            [tf.config.LogicalDeviceConfiguration(memory_limit="
      ∷ shown.megabytes max_memory_gb
      ∷ ")]\n"
      ∷ "        )\n"
      ∷ "except ImportError:\n"
      ∷ "    pass  # TensorFlow not available; VRAM cap not enforced\n"
      ∷ "except Exception:\n"
      ∷ "    pass  # TF init failed; continue without cap\n"
      ∷ "# Execute the user script\n"
      ∷ "exec(compile(open("
      ∷ shown.repr script
      ∷ ").read(), "
      ∷ shown.repr script
      ∷ ", 'exec'))\n"
      ∷ [])

  -- os.path.join(output_dir, f"{job_id}{ending}")
  abbrev pub path_of : String → String → String → String
  path_of output_dir job_id ending = concat (output_dir ∷ "/" ∷ job_id ∷ ending ∷ [])

  -- The files that are left and the code that the process exits with. Of the environment, the path of the script that is run
  -- and the files before it, subprocess.run with both logs open gives the files and the code, or the text
  -- of an exception.
  unfoldable pub ran :
      String → String → Dict String String → Result String ℤ → Dict String String × ℤ
  ran output_dir job_id files (ok code) = (
    put (path_of output_dir job_id ".status") (concat (shown.str_of code ∷ "\n" ∷ [])) files,
    code,
  )
  ran output_dir job_id files (err e) =
      (put (path_of output_dir job_id ".status") (concat ("-1\n" ∷ e ∷ "\n" ∷ [])) files, negsuc 0)

  unfoldable pub run_gpu_job :
      (Dict String String → String → Dict String String → Dict String String × Result String ℤ)
      → GpuResource F
      → String
      → String
      → String
      → Dict String String
      → Dict String String
      → Dict String String × ℤ
  run_gpu_job subprocess_run r script job_id output_dir environ files =
      let wrapper_path = path_of output_dir job_id ".wrapper.py" in
      let (effective_script, files') =
        (if shown.is_positive r.max_memory_gb
          then (wrapper_path, put wrapper_path (wrapper_content r.max_memory_gb script) files)
          else (script, files)) in
      let (files'', result) = subprocess_run (job_env r environ) effective_script files' in
      ran output_dir job_id files'' result

  get-update :
      (k : String) (extra env : Dict String String)
      → contains k (map (λ e. e.0) extra) ≡ false
      → get k (update env extra) ≡ get k env
  unfolding update
  get-update k [] env h = refl
  get-update k ((j, v) ∷ extra) env h =
      get-update k extra (put j v env) (ground (arith, h)) ∙ get-put j k v env ∙ ground (arith, h)

  -- A process sees the devices of the resource, and says that it was spawned, whatever the environment
  -- holds, unless the additional environment of the resource sets these variables itself.
  pub job_env_pinned :
      (r : GpuResource F) (environ : Dict String String)
      → contains "CUDA_VISIBLE_DEVICES" (map (λ e. e.0) r.extra_env) ≡ false
      → contains "GPUJOBS_START_METHOD" (map (λ e. e.0) r.extra_env) ≡ false
      → (get "CUDA_VISIBLE_DEVICES" (job_env r environ) ≡ some (cuda_visible_devices r.device))
        × (get "GPUJOBS_START_METHOD" (job_env r environ) ≡ some "spawn")
  unfolding job_env
  job_env_pinned r environ h k = (
    get-update "CUDA_VISIBLE_DEVICES" r.extra_env _ h
        ∙ get-put "GPUJOBS_START_METHOD" "CUDA_VISIBLE_DEVICES" "spawn"
            (env' (shown.is_positive r.max_memory_gb))
        ∙ devices (shown.is_positive r.max_memory_gb),
    get-update "GPUJOBS_START_METHOD" r.extra_env _ k
        ∙ get-put "GPUJOBS_START_METHOD" "GPUJOBS_START_METHOD" "spawn"
            (env' (shown.is_positive r.max_memory_gb)),
  )
    where
      env : Dict String String
      env = put "CUDA_VISIBLE_DEVICES" (cuda_visible_devices r.device) environ

      env' : Bool → Dict String String
      env' b = if b then put "TF_FORCE_GPU_ALLOW_GROWTH" "true" env else env

      there : get "CUDA_VISIBLE_DEVICES" env ≡ some (cuda_visible_devices r.device)
      there = get-put "CUDA_VISIBLE_DEVICES" "CUDA_VISIBLE_DEVICES" _ environ

      devices :
          (b : Bool) → get "CUDA_VISIBLE_DEVICES" (env' b) ≡ some (cuda_visible_devices r.device)
      devices true = get-put "TF_FORCE_GPU_ALLOW_GROWTH" "CUDA_VISIBLE_DEVICES" "true" env ∙ there
      devices false = there
