-- ===== src/Agent/Enabled.antt =====
-- googlecloudprofiler/__init__.py with client.py: what a started agent collects.
use cloud_profiler_python.Prelude.{◌≡◌, ◌⊎◌, inl, inr, Option, List, String, arith, true, false}
use cloud_profiler_python.Prelude.{string_eq, nat_eq, All, All-weaken, contains, eq_iff}
use mathlib.Core.Path.{subst}
use cloud_profiler_python.Prelude.Float.{Float}
use cloud_profiler_python.Prelude.Result.{Result, Result-cases}
use cloud_profiler_python.Prelude.Dict
use cloud_profiler_python.Prelude.Dict.{Dict}
use cloud_profiler_python.Wall
use cloud_profiler_python.Backoff.{Backoff, Library}
use cloud_profiler_python.Client.Config.{
  Environment, Args, Config, done, Profiler, config, config_profilers, config_cpu_profiling,
  config_wall_profiling,
}
use cloud_profiler_python.Client.Config.Checks.{config-Parts}
use cloud_profiler_python.Client.Config.Requests.{modes, keys-config_profilers}
use cloud_profiler_python.Client.Auth.{setup_auth}
use cloud_profiler_python.Client.Upload.{Services, profiled, patched}
use cloud_profiler_python.Client.Poll.{Response, Action, slept, called, poll_profiler_service}
use cloud_profiler_python.Client.Poll.Types.{ActionOf, poll_profiler_service-AreListed}
use cloud_profiler_python.Agent.{World, StartArgs, configure, with_project}

-- The types of profile that the arguments and the platform allow.
abbrev pub IsEnabled : Environment → Args → String → Type 0
IsEnabled env args kind =
    ((kind ≡ "WALL") × (args.disable_wall_profiling ≡ false))
    ⊎ ((kind ≡ "CPU") × (env.cpu_profiling_supported ≡ true) × (args.disable_cpu_profiling ≡ false))

modes-IsEnabled :
    (env : Environment) (args : Args) (kind : String)
    → contains (modes env args) kind ≡ true
    → IsEnabled env args kind
modes-IsEnabled env args kind h = ground (arith, h, eq_iff kind "WALL", eq_iff kind "CPU")

module _ (fl : Float) (env : Environment) (args : Args) where
  keys-modes :
      (ps : Dict String (Profiler fl.F))
      → config_profilers fl env args ≡ done ps
      → Dict.keys ps ≡ modes env args
  unfolding config_profilers config_cpu_profiling config_wall_profiling Dict.insert
  keys-modes ps h = elim (Result-cases (Wall.init fl args.period_ms)) [
    | inl (w, made) ↦ keys-config_profilers fl "" env args w ps made h
    | inr (e, raised) ↦ ground (arith, raised, h)
  ]

ActionOf-weaken :
    {F : Type 0} {P Q : String → Type 0}
    → ((kind : String) → P kind → Q kind)
    → (action : Action F) → ActionOf P action
    → ActionOf Q action
ActionOf-weaken f (slept seconds) h = tt
ActionOf-weaken f (called (profiled kind duration_ns)) h = f kind h
ActionOf-weaken f (called (patched name body)) h = tt

module _ (fl : Float) (world : World) (a : StartArgs) where
  configure-config :
      (c : Config fl.F)
      → configure fl world a ≡ done c
      → (p : Option String) × (config fl world.discovery_uri world.env (with_project p a.args)
          ≡ done c)
  unfolding configure
  configure-config c h =
      elim (Result-cases (setup_auth world.auth a.args.project_id a.service_account_json_file)) [
        | inl ((credentials, p), found) ↦ (p, rw found at h)
        | inr (e, raised) ↦ absurd (ground (arith, raised, h))
      ]

  -- The agent of a call of `start` whose configuration succeeds: whatever the server answers, however
  -- often the service fails to be built, its polling thread collects wall-time profiles only if the
  -- arguments do not disable them, CPU profiles only if they are supported and the arguments do not
  -- disable them, and no other profile.
  pub configure-IsEnabled :
      (lib : Library fl) (services : Services) (c : Config fl.F) (b : Backoff fl.F)
      (attempts : List (Result (Unit {0}) × lib.Draw))
      (responses : List (Response lib.Content × lib.Draw))
      → configure fl world a ≡ done c
      → All
          (ActionOf (IsEnabled world.env a.args))
          (poll_profiler_service fl lib services (Dict.keys c.profilers) b attempts responses).0
  configure-IsEnabled lib services c b attempts responses h =
      let (p, configured) = configure-config c h in
      let args : Args = with_project p a.args in
      let parts = config-Parts fl world.discovery_uri world.env args c configured in
      let keys : Dict.keys c.profilers ≡ modes world.env args =
        keys-modes fl world.env args c.profilers parts.profilers in
      All-weaken
        (ActionOf-weaken (λ kind listed.
          modes-IsEnabled world.env args kind (subst (λ l. contains l kind ≡ true) keys listed)))
        (poll_profiler_service fl lib services (Dict.keys c.profilers) b attempts responses).0
        (poll_profiler_service-AreListed fl lib services (Dict.keys c.profilers) b attempts
          responses)
