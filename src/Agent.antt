-- ===== src/Agent.antt =====
-- googlecloudprofiler/__init__.py: `start`, with the module's flag `_started`. What the functions that it
-- calls need is one record; `logging` is not modelled but for the level.
pub mod Once
pub mod Projects
pub mod Enabled
use cloud_profiler_python.Prelude.{
  ℕ, ◌+◌, ◌-◌, Bool, true, false, not, Option, none, some, List, [], ◌∷◌, ◌&&◌, ◌||◌, String,
}
use cloud_profiler_python.Prelude.{if◌then◌else◌, ltb, nat_beq, get_elem?}
use cloud_profiler_python.Prelude.Int.{ℤ, pos, negsuc}
use cloud_profiler_python.Prelude.Float.{Float}
use cloud_profiler_python.Prelude.Result.{
  Result, ok, err, or_raise, index_error, not_implemented_error,
}
use cloud_profiler_python.Client.ServiceName.{codes}
use cloud_profiler_python.Client.Config.{
  ◌>>=◌, Environment, Config, Args, Outcome, done, failed, raised, lift, config,
}
use cloud_profiler_python.Client.Auth.{Auth, setup_auth}
use cloud_profiler_python.Client.Start.{Host, fresh}
use cloud_profiler_python.Client.Start

-- The process that the agent runs in.
pub record World : Type 1 where
  pub platform : String
  pub auth : Auth
  pub env : Environment
  pub host : Host
  pub discovery_uri : String

pub record StartArgs : Type 0 where
  pub service_account_json_file : Option String
  pub verbose : ℤ
  pub args : Args

-- The module: its flag, the level of its logger, and the polling threads.
pub record Agent : Type 0 where
  pub started : Bool
  pub level : Option ℕ
  pub threads : ℕ

-- `s.startswith(p)`
unfoldable pub starts_with : List ℕ → List ℕ → Bool
starts_with s [] = true
starts_with [] (p ∷ ps) = false
starts_with (c ∷ s) (p ∷ ps) = nat_beq c p && starts_with s ps

unfoldable pub is_supported : String → Bool
is_supported platform =
    starts_with (codes platform) (codes "linux") || starts_with (codes platform) (codes "darwin")

-- Where client.py imports `cpu_profiler`, which imports the extension; elsewhere the name is `None`.
unfoldable pub cpu_profiler_imported : String → Bool
cpu_profiler_imported platform = starts_with (codes platform) (codes "linux")

-- ERROR, WARNING, INFO and DEBUG
abbrev pub levels : List ℕ
levels = 40 ∷ 30 ∷ 20 ∷ 10 ∷ []

-- `levels[min(verbose, 3)]`, where a negative index counts from the end.
unfoldable pub logging_level : ℤ → Result ℕ
logging_level (pos n) = or_raise index_error (get_elem? levels (if ltb 3 n then 3 else n))
logging_level (negsuc n) =
    if ltb n 4 then or_raise index_error (get_elem? levels (3 - n)) else err index_error

-- The project's identifier that `setup_auth` finds.
abbrev pub with_project : Option String → Args → Args
with_project project_id args = record {
  project_id = project_id;
  service = args.service;
  service_version = args.service_version;
  disable_cpu_profiling = args.disable_cpu_profiling;
  disable_wall_profiling = args.disable_wall_profiling;
  period_ms = args.period_ms;
  discovery_service_url = args.discovery_service_url;
}

module _ (fl : Float) (world : World) where
  open world use {platform, auth, env, host, discovery_uri}

  -- The client's `setup_auth` and `config`.
  unfoldable pub configure : StartArgs → Outcome (Config fl.F)
  configure a = do
    (credentials, project_id) ← lift (setup_auth auth a.args.project_id a.service_account_json_file)
    config fl discovery_uri env (with_project project_id a.args)

  -- `profiler_client.start()`, and the flag behind it.
  unfoldable pub launch : Config fl.F → Agent → Agent × Outcome (Unit {0})
  launch c agent =
      let (running, result) = Start.start host c.profilers fresh in
      let threads = agent.threads + running.threads in
      elim result [
        | err e ↦ (
          record { started = agent.started; level = agent.level; threads = threads },
          failed (raised e),
        )
        | ok _ ↦ (record { started = true; level = agent.level; threads = threads }, done tt)
      ]

  -- From `setup_auth` on.
  unfoldable pub set_up : StartArgs → Agent → Agent × Outcome (Unit {0})
  set_up a agent = elim (configure a) [ failed e ↦ (agent, failed e) | done c ↦ launch c agent ]

  unfoldable pub start : StartArgs → Agent → Agent × Outcome (Unit {0})
  start a agent =
      if agent.started
      then (agent, done tt)
      else if not (is_supported platform)
      then (agent, failed (raised not_implemented_error))
      else elim (logging_level a.verbose) [
        | err e ↦ (agent, failed (raised e))
        | ok l ↦
            set_up a (record { started = agent.started; level = some l; threads = agent.threads })
      ]

  -- The calls of a process, one after the other.
  unfoldable pub start_all : List StartArgs → Agent → Agent
  start_all [] agent = agent
  start_all (a ∷ as') agent = start_all as' (start a agent).0

-- The module when it has been imported.
unfoldable pub imported : Agent
imported = record { started = false; level = none; threads = 0 }
