-- ===== src/Tests/Requests.antt =====
-- googlecloudprofiler/client.py: the configuration of a client on Knative, its headers and its filter.
use cloud_profiler_python.Prelude.{
  ℕ, ◌≡◌, refl, ◌↔◌, true, false, Option, none, some, List, [], ◌∷◌, ◌++◌, String,
}
use cloud_profiler_python.Prelude.{if◌then◌else◌, ◌==◌, string_eq}
use cloud_profiler_python.Prelude.Int.{pos}
use cloud_profiler_python.Prelude.Result.{Result, ok, err, external}
use cloud_profiler_python.Prelude.Dict
use cloud_profiler_python.Prelude.Dict.{Dict}
use cloud_profiler_python.Prelude.Micros.{micros}
use cloud_profiler_python.Wall
use cloud_profiler_python.Wall.{WallProfiler}
use cloud_profiler_python.Client.ServiceName.{
  codes, matches, run, is_alnum, is_inner, repeat, at_end,
}
use cloud_profiler_python.Client.ServiceName.Shape.{IsName, IsEnd, matches_iff}
use cloud_profiler_python.Client.Config.{
  Environment, Args, Config, done, config, resolve_project, resolve_service, deployment_labels,
  last_segment, after_slash, wall, truthy, retrieve_gce_metadata, resolve_version,
  check_service_name, config_profilers, config_cpu_profiling, config_wall_profiling,
}
use cloud_profiler_python.Client.Config.Checks.{IsComplete, config_iff}
use cloud_profiler_python.Tests.{new_wall}

abbrev environ : String → Option String
environ key = if key == "K_SERVICE" then some "web" else none

abbrev http_get : String → Result (ℕ × String)
http_get url =
    if url == "http://metadata/computeMetadata/v1/instance/zone"
    then ok (200, "projects/7/zones/us-a")
    else if url == "http://metadata/computeMetadata/v1/instance/name"
    then err external
    else ok (404, "not found")

abbrev env : Environment
env = record { environ = environ; http_get = http_get; cpu_profiling_supported = true }

abbrev args : Args
args = record {
  project_id = some "my-project";
  service = none;
  service_version = some "v1";
  disable_cpu_profiling = true;
  disable_wall_profiling = false;
  period_ms = pos 10;
  discovery_service_url = none;
}

new_wall_lem : Wall.init micros (pos 10) ≡ ok new_wall
unfolding Wall.init
new_wall_lem = refl

abbrev configured : Config ℕ
configured = record {
  profilers = ("WALL", wall new_wall) ∷ [];
  deployment = record {
    project_id = "my-project";
    target = "web";
    labels = ("language", "python") ∷ ("version", "v1") ∷ ("zone", "us-a") ∷ [];
  };
  profile_labels = [];
  discovery_service_url = "uri";
}

configured_lem : config micros "uri" env args ≡ done configured
unfolding config resolve_project resolve_service deployment_labels last_segment after_slash truthy
    retrieve_gce_metadata resolve_version check_service_name config_profilers config_cpu_profiling
    config_wall_profiling Wall.init Dict.insert matches run is_alnum is_inner repeat at_end
configured_lem = refl

config_iff_example :
    ((c : Config ℕ) × (config micros "uri" env args ≡ done c)) ↔ IsComplete env args
config_iff_example = config_iff micros "uri" env args new_wall new_wall_lem

matches_iff_example : (matches (codes "web\n") ≡ true) ↔ (
    (name : List ℕ) × (rest : List ℕ) × (codes "web\n" ≡ name ++ rest) × IsName name × IsEnd rest)
matches_iff_example = matches_iff (codes "web\n")
