-- ===== src/Client/Auth.antt =====
-- googlecloudprofiler/client.py: `setup_auth`. The credentials are a library's.
use cloud_profiler_python.Prelude.{Option, none, some, String}
use cloud_profiler_python.Prelude.{nat_eq, string_eq}
use cloud_profiler_python.Prelude.Result.{Result, ok, ◌>>=◌}
use cloud_profiler_python.Client.Config.{truthy, ◌or_else◌}

-- The credentials of a service account file with its project, and the application default.
pub record Auth : Type 1 where
  pub Credentials : Type 0
  pub from_service_account_file : String → Result Credentials
  pub file_project_id : String → Result (Option String)
  pub default_credentials : Result (Credentials × Option String)

-- The credentials are kept, the project's identifier is returned.
unfoldable pub setup_auth :
    (auth : Auth) → Option String → Option String → Result (auth.Credentials × Option String)
setup_auth auth project_id service_account_json_file = elim (truthy service_account_json_file) [
  | some file ↦ do
    credentials ← auth.from_service_account_file file
    elim (truthy project_id) [
      | some p ↦ ok (credentials, project_id)
      | none ↦ do p ← auth.file_project_id file; ok (credentials, p)
    ]
  | none ↦ do (credentials, p) ← auth.default_credentials; ok (credentials, project_id or_else p)
]
