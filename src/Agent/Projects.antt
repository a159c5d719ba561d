-- ===== src/Agent/Projects.antt =====
-- googlecloudprofiler/__init__.py and client.py: where the project's identifier comes from.
use cloud_profiler_python.Prelude.{◌≡◌, refl, sym, ◌∙◌, Option, none, some, String, arith}
use cloud_profiler_python.Prelude.{string_eq}
use cloud_profiler_python.Prelude.Float.{Float}
use cloud_profiler_python.Prelude.Result.{ok}
use cloud_profiler_python.Wall
use cloud_profiler_python.Client.Config.{
  Config, done, config, truthy, ◌or_else◌, resolve_project, retrieve_gce_metadata,
}
use cloud_profiler_python.Client.Config.Checks.{config-sets}
use cloud_profiler_python.Client.Auth.{setup_auth}
use cloud_profiler_python.Agent.{World, StartArgs, configure, with_project}

truthy-or_else :
    (a b c : Option String) → truthy ((a or_else b) or_else c) ≡ truthy (a or_else (b or_else c))
unfolding truthy
truthy-or_else none b c = refl
truthy-or_else (some s) b c = ground arith

module _ (fl : Float) (world : World) (a : StartArgs) where
  configure-config :
      (credentials : world.auth.Credentials) (p : Option String)
      → setup_auth world.auth a.args.project_id a.service_account_json_file ≡ ok (credentials, p)
      → configure fl world a ≡ config fl world.discovery_uri world.env (with_project p a.args)
  unfolding configure
  configure-config credentials p h = rw h refl

  setup_auth-default :
      (credentials : world.auth.Credentials) (p : Option String)
      → truthy a.service_account_json_file ≡ none
      → world.auth.default_credentials ≡ ok (credentials, p)
      → setup_auth world.auth a.args.project_id a.service_account_json_file
        ≡ ok (credentials, a.args.project_id or_else p)
  unfolding setup_auth
  setup_auth-default credentials p h k = rw (setup_auth, h, k) refl

  -- Without a file of a service account, where the period can be divided by 1000: a configuration that
  -- succeeds has the project of the arguments, or that of the default credentials where the arguments
  -- have none, or that of the metadata server where these have none either; an empty text counts as none.
  pub configure-project :
      (w : Wall.WallProfiler fl.F) (credentials : world.auth.Credentials) (p : Option String)
      (c : Config fl.F)
      → Wall.init fl a.args.period_ms ≡ ok w
      → truthy a.service_account_json_file ≡ none
      → world.auth.default_credentials ≡ ok (credentials, p)
      → configure fl world a ≡ done c
      → truthy (
          a.args.project_id
          or_else (p or_else retrieve_gce_metadata world.env "project/project-id"))
        ≡ some c.deployment.project_id
  unfolding resolve_project
  configure-project w credentials p c made no_file found configured =
      let set =
        config-sets fl world.discovery_uri world.env
          (with_project (a.args.project_id or_else p) a.args) w c made
          (sym (
              configure-config credentials (a.args.project_id or_else p)
                (setup_auth-default credentials p no_file found))
            ∙ configured) in
      sym (truthy-or_else a.args.project_id p _) ∙ set.2
