-- ===== src/Client/Config/Requests.antt =====
-- googlecloudprofiler/client.py: what `_create_profile` asks the server for.
use cloud_profiler_python.Prelude.{◌≡◌, List, [], ◌∷◌, ◌++◌, some, arith, not, ◌&&◌, String}
use cloud_profiler_python.Prelude.{string_eq, if◌then◌else◌}
use cloud_profiler_python.Prelude.Result.{ok}
use cloud_profiler_python.Prelude.Float.{Float}
use cloud_profiler_python.Prelude.Dict
use cloud_profiler_python.Prelude.Dict.{Dict}
use cloud_profiler_python.Wall
use cloud_profiler_python.Client.Config.{
  Environment, Args, Config, done, Profiler, resolve_project, config, config_cpu_profiling,
  config_profilers, config_wall_profiling, create_request,
}
use cloud_profiler_python.Client.Config.Checks.{config-Parts}

-- The modes that are on, in the order in which they are configured.
abbrev pub modes : Environment → Args → List String
modes env args =
    (if env.cpu_profiling_supported && not args.disable_cpu_profiling then "CPU" ∷ [] else [])
    ++ (if args.disable_wall_profiling then [] else "WALL" ∷ [])

module _ (fl : Float) (uri : String) (env : Environment) (args : Args) where
  pub keys-config_profilers :
      (w : Wall.WallProfiler fl.F) (ps : Dict String (Profiler fl.F))
      → Wall.init fl args.period_ms ≡ ok w
      → config_profilers fl env args ≡ done ps
      → Dict.keys ps ≡ modes env args
  unfolding config_profilers config_cpu_profiling config_wall_profiling Dict.insert
  keys-config_profilers w ps made h = ground (arith, made, h)

  -- The request of a client whose configuration has succeeded, where the period can be divided by
  -- 1000: it names the types `CPU` and `WALL`, each once and exactly if its mode is on, and the project
  -- that was found is that of its deployment.
  pub create_request-modes :
      (w : Wall.WallProfiler fl.F) (c : Config fl.F)
      → Wall.init fl args.period_ms ≡ ok w
      → config fl uri env args ≡ done c
      → ((create_request c).profile_type ≡ modes env args)
        × (resolve_project env args.project_id ≡ some (create_request c).deployment.project_id)
  unfolding create_request
  create_request-modes w c made h =
      let parts = config-Parts fl uri env args c h in
      (keys-config_profilers w c.profilers made parts.profilers, parts.project)
