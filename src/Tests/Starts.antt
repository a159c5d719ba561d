-- ===== src/Tests/Starts.antt =====
-- googlecloudprofiler/__init__.py: `start`, called again and again.
use cloud_profiler_python.Prelude.{ℕ, ◌≡◌, refl, true, false, none, some, [], ◌∷◌, String}
use cloud_profiler_python.Prelude.{if◌then◌else◌, ◌==◌, string_eq}
use cloud_profiler_python.Prelude.Int.{pos}
use cloud_profiler_python.Prelude.Result.{ok, err, external}
use cloud_profiler_python.Prelude.Dict
use cloud_profiler_python.Prelude.Dict.{Dict}
use cloud_profiler_python.Prelude.Micros.{micros}
use cloud_profiler_python.Cpu
use cloud_profiler_python.Wall
use cloud_profiler_python.Client.Config.{Environment, Args, Profiler, cpu, done, ◌or_else◌}
use cloud_profiler_python.Client.Config
use cloud_profiler_python.Client.Auth.{Auth, setup_auth}
use cloud_profiler_python.Client.Start.{Host, start_times, start_times-threads, fresh, register}
use cloud_profiler_python.Agent.{World, StartArgs, start_all, imported, configure}
use cloud_profiler_python.Client.ServiceName
use cloud_profiler_python.Agent.Projects.{configure-project}
use cloud_profiler_python.Prelude.{All}
use cloud_profiler_python.Json.{Json}
use cloud_profiler_python.Backoff.{new}
use cloud_profiler_python.Client.Upload.{Profile}
use cloud_profiler_python.Client.Poll.{created, poll_profiler_service}
use cloud_profiler_python.Client.Poll.Types.{ActionOf}
use cloud_profiler_python.Agent.Enabled.{IsEnabled, configure-IsEnabled}
use cloud_profiler_python.Tests.{new_wall, library, services}
use cloud_profiler_python.Agent.Once.{start_all-threads}

abbrev auth : Auth
auth = record {
  Credentials = String;
  from_service_account_file = λ file. ok file;
  file_project_id = λ file. ok (some "of-the-file");
  default_credentials = ok ("default", some "my-project");
}

abbrev env : Environment
env = record {
  environ = λ key. if key == "GAE_SERVICE" then some "web" else none;
  http_get = λ url. err external;
  cpu_profiling_supported = true;
}

abbrev host : Host
host = record {
  signal_calls = record { signal = ok tt; siginterrupt = ok tt; atexit = ok tt };
  thread_start = ok tt;
}

abbrev world : World
world = record { platform = "linux"; auth = auth; env = env; host = host; discovery_uri = "uri" }

abbrev call : StartArgs
call = record {
  service_account_json_file = none;
  verbose = pos 0;
  args = record {
    project_id = none;
    service = none;
    service_version = none;
    disable_cpu_profiling = false;
    disable_wall_profiling = false;
    period_ms = pos 10;
    discovery_service_url = none;
  };
}

abbrev profilers : Dict String (Profiler ℕ)
profilers = ("CPU", cpu (Cpu.init (pos 10))) ∷ []

start_all-threads_example :
    (start_all micros world (call ∷ call ∷ []) imported).threads
    ≡ (if (start_all micros world (call ∷ call ∷ []) imported).started then 1 else 0)
start_all-threads_example = start_all-threads micros world (call ∷ call ∷ [])

start_times-threads_example : (start_times host profilers 3 fresh).threads ≡ 3
unfolding register Dict.get
start_times-threads_example = start_times-threads host profilers 3 refl refl

abbrev configured : Config.Config ℕ
configured = record {
  profilers = ("CPU", cpu (Cpu.init (pos 10))) ∷ ("WALL", Config.wall new_wall) ∷ [];
  deployment = record {
    project_id = "my-project";
    target = "web";
    labels = ("language", "python") ∷ [];
  };
  profile_labels = [];
  discovery_service_url = "uri";
}

call_lem : configure micros world call ≡ done configured
unfolding configure setup_auth Config.config Config.resolve_project Config.resolve_service
    Config.deployment_labels Config.truthy Config.retrieve_gce_metadata Config.resolve_version
    Config.check_service_name Config.config_profilers Config.config_cpu_profiling
    Config.config_wall_profiling Config.last_segment Config.after_slash Wall.init Cpu.init
    Dict.insert Dict.get ServiceName.matches ServiceName.run ServiceName.is_alnum
    ServiceName.is_inner ServiceName.repeat ServiceName.at_end
call_lem = refl

new_wall_lem : Wall.init micros (pos 10) ≡ ok new_wall
unfolding Wall.init
new_wall_lem = refl

configure-project_example :
    Config.truthy (
      none
      or_else (some "my-project" or_else Config.retrieve_gce_metadata env "project/project-id"))
    ≡ some "my-project"
unfolding Config.truthy
configure-project_example =
    configure-project micros world call new_wall "default" (some "my-project") configured
      new_wall_lem refl refl call_lem

abbrev job : Profile
job = ("name", Json.str "p1") ∷ ("profileType", Json.str "CPU") ∷ ("duration", Json.str "3.5s") ∷ []

-- A service that is built at the second attempt, and one profile.
configure-IsEnabled_example :
    All
      (ActionOf (IsEnabled env call.args))
      (poll_profiler_service micros library services
        (Dict.keys configured.profilers)
        (new micros)
        ((err external, true) ∷ (ok tt, true) ∷ [])
        ((created job, true) ∷ [])).0
configure-IsEnabled_example =
    configure-IsEnabled micros world call library services configured (new micros)
      ((err external, true) ∷ (ok tt, true) ∷ []) ((created job, true) ∷ []) call_lem
