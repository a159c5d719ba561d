-- ===== src/Client/Config.antt =====
-- googlecloudprofiler/client.py: `config`, with `retrieve_gce_metadata` and the request that
-- `_create_profile` sends. The environment and the metadata server are parameters. What a client keeps whose configuration has raised is not modelled: it is dropped.
pub mod Checks
pub mod Segment
pub mod Requests
use cloud_profiler_python.Prelude.{ℕ, ◌<◌, Bool, Option, none, some, List, [], ◌∷◌, not, String}
use cloud_profiler_python.Prelude.{◌==◌, nat_eq, string_eq, if◌then◌else◌, nat_beq}
use cloud_profiler_python.Prelude.Int.{ℤ}
use cloud_profiler_python.Prelude.Result.{Result, ok, err, PyError}
use cloud_profiler_python.Prelude.Float.{Float}
use cloud_profiler_python.Json
use cloud_profiler_python.Prelude.Dict
use cloud_profiler_python.Prelude.Dict.{Dict}
use cloud_profiler_python.Backoff
use Prim.Native.Char.{code}
use Prim.Native.String.{◌++◌ as ◌<>◌}
use cloud_profiler_python.Cpu
use cloud_profiler_python.Cpu.{CpuProfiler}
use cloud_profiler_python.Wall
use cloud_profiler_python.Wall.{WallProfiler}
use cloud_profiler_python.Client.ServiceName.{codes, matches}

-- `os.environ.get`, `requests.get` with the metadata header (status code and text), and whether
-- `cpu_profiler` could be imported.
pub record Environment : Type 0 where
  pub environ : String → Option String
  pub http_get : String → Result (ℕ × String)
  pub cpu_profiling_supported : Bool

-- `requests.codes.ok`
abbrev http_ok : ℕ
http_ok = 200

abbrev metadata_url : String
metadata_url = "http://metadata/computeMetadata/v1/"

unfoldable pub retrieve_gce_metadata : Environment → String → Option String
retrieve_gce_metadata env key = elim (env.http_get (metadata_url <> key)) [
  | err e ↦ none
  | ok (status, text) ↦ if status == http_ok then some text else none
]

-- The text, unless it is `None` or empty.
unfoldable pub truthy : Option String → Option String
truthy none = none
truthy (some s) = if s == "" then none else some s

-- Python's `or`
infixr 30 ◌or_else◌
abbrev pub ◌or_else◌ : Option String → Option String → Option String
a or_else b = elim (truthy a) [ some s ↦ some s | none ↦ b ]

-- `text.split('/')[-1]`: what stands behind the last slash. `kept` is the part behind the last slash
-- that has been passed.
unfoldable pub after_slash : String → String → String
after_slash kept String.[] = kept
after_slash kept (String.◌∷◌ c s) = after_slash (if nat_beq (code c) b'/' then s else kept) s

unfoldable pub last_segment : String → String
last_segment s = after_slash s s

pub data Profiler (F : Type 0) : Type 0 where
  cpu : CpuProfiler → Profiler F
  wall : WallProfiler F → Profiler F

-- Why `config` raises; all but the last are `ValueError`.
pub data ConfigError : Type 0 where
  no_profiling_mode no_project_id no_service : ConfigError
  bad_service_name : String → ConfigError
  raised : PyError → ConfigError

pub record Deployment : Type 0 where
  pub project_id : String
  pub target : String
  pub labels : Dict String String

pub record Config (F : Type 0) : Type 0 where
  pub profilers : Dict String (Profiler F)
  pub deployment : Deployment
  pub profile_labels : Dict String String
  pub discovery_service_url : String

pub record Args : Type 0 where
  pub project_id : Option String
  pub service : Option String
  pub service_version : Option String
  pub disable_cpu_profiling : Bool
  pub disable_wall_profiling : Bool
  pub period_ms : ℤ
  pub discovery_service_url : Option String

pub data Outcome (A : Type 0) : Type 0 where
  done : A → Outcome A
  failed : ConfigError → Outcome A

infixl 10 ◌>>=◌
abbrev pub ◌>>=◌ : {A B : Type 0} → Outcome A → (A → Outcome B) → Outcome B
done a >>= f = f a
failed e >>= f = failed e

abbrev pub require : {A : Type 0} → ConfigError → Option A → Outcome A
require e none = failed e
require e (some a) = done a

abbrev pub lift : {A : Type 0} → Result A → Outcome A
lift (ok a) = done a
lift (err e) = failed (raised e)

-- `if value: labels[key] = value`
abbrev pub set_label : String → Option String → Dict String String → Dict String String
set_label key none labels = labels
set_label key (some value) labels = Dict.insert key value labels

abbrev map_text : (String → String) → Option String → Option String
map_text f none = none
map_text f (some s) = some (f s)

unfoldable pub resolve_service : Environment → Option String → Option String
resolve_service env service =
    truthy (service or_else (env.environ "GAE_SERVICE" or_else env.environ "K_SERVICE"))

unfoldable pub resolve_version : Environment → Option String → Option String
resolve_version env service_version =
    truthy (service_version or_else (env.environ "GAE_VERSION" or_else env.environ "K_REVISION"))

unfoldable pub resolve_project : Environment → Option String → Option String
resolve_project env project_id =
    truthy (project_id or_else retrieve_gce_metadata env "project/project-id")

unfoldable pub deployment_labels : Environment → Option String → Dict String String
deployment_labels env service_version =
    set_label "zone" (map_text last_segment (truthy (retrieve_gce_metadata env "instance/zone")))
      (set_label "version" (resolve_version env service_version) (("language", "python") ∷ []))

unfoldable pub check_service_name : String → Outcome String
check_service_name service =
    if matches (codes service) then done service else failed (bad_service_name service)

module _ (fl : Float) where
  unfoldable pub config_cpu_profiling :
      Environment → Bool → ℤ → Dict String (Profiler fl.F) → Dict String (Profiler fl.F)
  config_cpu_profiling env disabled period_ms profilers =
      if not env.cpu_profiling_supported
      then profilers
      else if disabled
      then profilers
      else Dict.insert "CPU" (cpu (Cpu.init period_ms)) profilers

  unfoldable pub config_wall_profiling :
      Bool → ℤ → Dict String (Profiler fl.F) → Outcome (Dict String (Profiler fl.F))
  config_wall_profiling disabled period_ms profilers =
      if disabled
      then done profilers
      else (do w ← lift (Wall.init fl period_ms); done (Dict.insert "WALL" (wall w) profilers))

  abbrev some_mode : Dict String (Profiler fl.F) → Outcome (Dict String (Profiler fl.F))
  some_mode [] = failed no_profiling_mode
  some_mode (p ∷ profilers) = done (p ∷ profilers)

  -- `self._profilers`, which must not be empty.
  unfoldable pub config_profilers : Environment → Args → Outcome (Dict String (Profiler fl.F))
  config_profilers env args = do
    profilers ←
        config_wall_profiling args.disable_wall_profiling args.period_ms
          (config_cpu_profiling env args.disable_cpu_profiling args.period_ms [])
    some_mode profilers

  -- `googleapiclient.discovery.DISCOVERY_URI`
  module _ (discovery_uri : String) where
    unfoldable pub config : Environment → Args → Outcome (Config fl.F)
    config env args = do
      profilers ← config_profilers env args
      project_id ← require no_project_id (resolve_project env args.project_id)
      service ← require no_service (resolve_service env args.service)
      target ← check_service_name service
      done (record {
        profilers = profilers;
        deployment = record {
          project_id = project_id;
          target = target;
          labels = deployment_labels env args.service_version;
        };
        profile_labels =
            set_label "instance" (truthy (retrieve_gce_metadata env "instance/name")) [];
        discovery_service_url = elim (truthy args.discovery_service_url) [
          | none ↦ discovery_uri
          | some url ↦ url
        ];
      })

-- What `_create_profile` sends.
pub record Request : Type 0 where
  pub parent : String
  pub profile_type : List String
  pub deployment : Deployment

unfoldable pub create_request : {F : Type 0} → Config F → Request
create_request c = record {
  parent = "projects/" <> c.deployment.project_id;
  profile_type = Dict.keys c.profilers;
  deployment = c.deployment;
}
