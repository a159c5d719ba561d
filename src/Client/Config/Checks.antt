-- ===== src/Client/Config/Checks.antt =====
-- googlecloudprofiler/client.py: when `config` succeeds, and what it sets.
use cloud_profiler_python.Prelude.{
  ◌≡◌, refl, ap, ◌∙◌, sym, Option, none, some, arith, true, false, not, ◌&&◌, ◌⊎◌, inl, inr, ◌↔◌,
  String,
}
use cloud_profiler_python.Prelude.{nat_eq, string_eq}
use cloud_profiler_python.Prelude.Result.{ok}
use cloud_profiler_python.Prelude.Float.{Float}
use cloud_profiler_python.Prelude.Dict
use cloud_profiler_python.Prelude.Dict.{Dict}
use mathlib.Core.Path.{subst}
use cloud_profiler_python.Wall
use cloud_profiler_python.Client.ServiceName.{codes, matches}
use cloud_profiler_python.Client.Config.{
  Environment, Args, Config, Outcome, done, failed, ConfigError, no_project_id, no_service,
  Profiler, ◌>>=◌, require, resolve_service, resolve_project, deployment_labels, check_service_name,
  config, config_cpu_profiling, config_profilers, config_wall_profiling,
}

-- A mode of profiling is there, the project and the service are known, and the service's name is one
-- that the expression matches.
pub record IsComplete (env : Environment) (args : Args) : Type 0 where
  pub mode :
      (args.disable_wall_profiling ≡ false)
      ⊎ ((env.cpu_profiling_supported ≡ true) × (args.disable_cpu_profiling ≡ false))
  pub project : (p : String) × (resolve_project env args.project_id ≡ some p)
  pub service :
      (s : String) × (resolve_service env args.service ≡ some s) × (matches (codes s) ≡ true)

>>=-done :
    {A B : Type 0} (m : Outcome A) (f : A → Outcome B) {b : B}
    → (m >>= f) ≡ done b
    → (a : A) × (m ≡ done a) × (f a ≡ done b)
>>=-done (done a) f h = (a, refl, h)
>>=-done (failed e) f h = absurd (cc h)

done-injective : {A : Type 0} {a b : A} → done a ≡ done b → a ≡ b
done-injective h = cc

require-done :
    {A : Type 0} (e : ConfigError) (o : Option A) {a : A} → require e o ≡ done a → o ≡ some a
require-done e none h = absurd (cc h)
require-done e (some a) h = cc

check_service_name-done :
    (s : String) {t : String} → check_service_name s ≡ done t → (t ≡ s) × (matches (codes s) ≡ true)
unfolding check_service_name
check_service_name-done s h = ground arith

Outcome-cases :
    {A : Type 0} (m : Outcome A) → ((a : A) × (m ≡ done a)) ⊎ ((e : ConfigError) × (m ≡ failed e))
Outcome-cases (done a) = inl (a, refl)
Outcome-cases (failed e) = inr (e, refl)

module _ (fl : Float) (uri : String) (env : Environment) (args : Args) where
  abbrev HasMode : Type 0
  HasMode =
      (args.disable_wall_profiling ≡ false)
      ⊎ ((env.cpu_profiling_supported ≡ true) × (args.disable_cpu_profiling ≡ false))

  -- The profilers of a client are those of the modes that are on.
  pub record AreModes (ps : Dict String (Profiler fl.F)) : Type 0 where
    pub wall : Dict.contains ps "WALL" ≡ not args.disable_wall_profiling
    pub cpu :
        Dict.contains ps "CPU" ≡ (env.cpu_profiling_supported && not args.disable_cpu_profiling)

  config_profilers-AreModes :
      (w : Wall.WallProfiler fl.F)
      → Wall.init fl args.period_ms ≡ ok w
      → (ps : Dict String (Profiler fl.F)) → config_profilers fl env args ≡ done ps
      → AreModes ps × HasMode
  unfolding config_profilers config_cpu_profiling config_wall_profiling Dict.insert Dict.get
  config_profilers-AreModes w made ps h = ground (arith, made)

  config_profilers-done :
      (w : Wall.WallProfiler fl.F)
      → Wall.init fl args.period_ms ≡ ok w
      → HasMode
      → (ps : Dict String (Profiler fl.F)) × (config_profilers fl env args ≡ done ps)
  unfolding config_profilers config_cpu_profiling config_wall_profiling Dict.insert
  config_profilers-done w made mode = elim (Outcome-cases (config_profilers fl env args)) [
    | inl (ps, e) ↦ (ps, e)
    | inr (x, e) ↦ absurd (ground (arith, made, mode, e))
  ]

  pub record Parts (c : Config fl.F) : Type 0 where
    pub profilers : config_profilers fl env args ≡ done c.profilers
    pub project : resolve_project env args.project_id ≡ some c.deployment.project_id
    pub service : resolve_service env args.service ≡ some c.deployment.target
    pub named : matches (codes c.deployment.target) ≡ true
    pub labels : c.deployment.labels ≡ deployment_labels env args.service_version

  pub config-Parts : (c : Config fl.F) → config fl uri env args ≡ done c → Parts c
  unfolding config
  config-Parts c h =
      let (ps, e₁, h₁) = >>=-done (config_profilers fl env args) _ h in
      let (p, e₂, h₂) =
        >>=-done (require no_project_id (resolve_project env args.project_id)) _ h₁ in
      let (s, e₃, h₃) = >>=-done (require no_service (resolve_service env args.service)) _ h₂ in
      let (t, e₄, h₄) = >>=-done (check_service_name s) _ h₃ in
      let (same, matched) = check_service_name-done s e₄ in
      let project = require-done no_project_id (resolve_project env args.project_id) e₂ in
      let service = require-done no_service (resolve_service env args.service) e₃ in
      let last = done-injective h₄ in
      let target : s ≡ c.deployment.target =
        sym same ∙ ap (λ (x : Config fl.F). x.deployment.target) last in
      record {
        profilers = e₁ ∙ ap done (ap (λ (x : Config fl.F). x.profilers) last);
        project = project ∙ ap some (ap (λ (x : Config fl.F). x.deployment.project_id) last);
        service = service ∙ ap some target;
        named = subst (λ (x : String). matches (codes x) ≡ true) target matched;
        labels = sym (ap (λ (x : Config fl.F). x.deployment.labels) last);
      }

  config_complete :
      (ps : Dict String (Profiler fl.F)) (p s : String)
      → config_profilers fl env args ≡ done ps
      → resolve_project env args.project_id ≡ some p
      → resolve_service env args.service ≡ some s
      → matches (codes s) ≡ true
      → (c : Config fl.F) × (config fl uri env args ≡ done c)
  unfolding config check_service_name
  config_complete ps p s e₁ e₂ e₃ e₄ = elim (Outcome-cases (config fl uri env args)) [
    | inl found ↦ found
    | inr (x, e) ↦ absurd (ground (arith, e₁, e₂, e₃, e₄, e))
  ]

  -- Where the period can be divided by 1000, `config` succeeds exactly if a mode of profiling is on, the
  -- project and the service can be determined, and the service's name matches the expression.
  pub config_iff :
      (w : Wall.WallProfiler fl.F)
      → Wall.init fl args.period_ms ≡ ok w
      → ((c : Config fl.F) × (config fl uri env args ≡ done c)) ↔ IsComplete env args
  config_iff w made = (
    λ (c, h).
        let parts = config-Parts c h in
        record {
          mode = (config_profilers-AreModes w made c.profilers parts.profilers).1;
          project = (c.deployment.project_id, parts.project);
          service = (c.deployment.target, parts.service, parts.named);
        },
    λ complete.
        let (ps, e₁) = config_profilers-done w made complete.mode in
        let (p, e₂) = complete.project in
        let (s, e₃, e₄) = complete.service in config_complete ps p s e₁ e₂ e₃ e₄,
  )

  -- A configuration that succeeds, where the period can be divided by 1000: the client profiles wall
  -- time exactly if that is not disabled, and CPU time exactly if that is supported and not disabled; the
  -- project and the target are those of the arguments or the environment, the target matches the
  -- expression, and the labels are those of the version and the zone.
  pub config-sets :
      (w : Wall.WallProfiler fl.F) (c : Config fl.F)
      → Wall.init fl args.period_ms ≡ ok w
      → config fl uri env args ≡ done c
      → (Dict.contains c.profilers "WALL" ≡ not args.disable_wall_profiling)
        × (Dict.contains c.profilers "CPU"
            ≡ (env.cpu_profiling_supported && not args.disable_cpu_profiling))
        × (resolve_project env args.project_id ≡ some c.deployment.project_id)
        × (resolve_service env args.service ≡ some c.deployment.target)
        × (matches (codes c.deployment.target) ≡ true)
        × (c.deployment.labels ≡ deployment_labels env args.service_version)
  config-sets w c made h =
      let parts = config-Parts c h in
      let modes = (config_profilers-AreModes w made c.profilers parts.profilers).0 in
      (modes.wall, modes.cpu, parts.project, parts.service, parts.named, parts.labels)
