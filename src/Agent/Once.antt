-- ===== src/Agent/Once.antt =====
-- googlecloudprofiler/__init__.py: `start` starts the agent once.
use cloud_profiler_python.Prelude.{◌≡◌, refl, true, false, List, [], ◌∷◌, ◌↔◌, arith}
use cloud_profiler_python.Prelude.{if◌then◌else◌}
use cloud_profiler_python.Prelude.Float.{Float}
use cloud_profiler_python.Client.Config.{Config, done}
use cloud_profiler_python.Client.Start.{fresh, start-threads}
use cloud_profiler_python.Agent.{
  World, StartArgs, Agent, launch, set_up, start, start_all, imported,
}

-- One polling thread if the agent has started, and none before.
abbrev pub IsOnce : Agent → Type 0
IsOnce agent = agent.threads ≡ (if agent.started then 1 else 0)

module _ (fl : Float) (world : World) where
  launch-IsOnce :
      (c : Config fl.F) (agent : Agent)
      → agent.started ≡ false
      → IsOnce agent
      → IsOnce (launch fl world c agent).0
  unfolding launch fresh
  launch-IsOnce c agent s once = grind (arith, start-threads world.host c.profilers fresh refl)

  set_up-IsOnce :
      (a : StartArgs) (agent : Agent)
      → agent.started ≡ false
      → IsOnce agent
      → IsOnce (set_up fl world a agent).0
  unfolding set_up
  set_up-IsOnce a agent s once = grind (arith, launch-IsOnce)

  start-IsOnce : (a : StartArgs) (agent : Agent) → IsOnce agent → IsOnce (start fl world a agent).0
  unfolding start
  start-IsOnce a agent once = grind (arith, set_up-IsOnce)

  start_all-IsOnce :
      (calls : List StartArgs) (agent : Agent)
      → IsOnce agent
      → IsOnce (start_all fl world calls agent)
  unfolding start_all
  start_all-IsOnce [] agent once = once
  start_all-IsOnce (a ∷ as') agent once =
      start_all-IsOnce as' (start fl world a agent).0 (start-IsOnce a agent once)

  -- However often the agent is started, it has one polling thread if its flag is set, and none if not.
  pub start_all-threads :
      (calls : List StartArgs)
      → (start_all fl world calls imported).threads
        ≡ (if (start_all fl world calls imported).started then 1 else 0)
  unfolding imported
  start_all-threads calls = start_all-IsOnce calls imported refl

  launch_iff :
      (c : Config fl.F) (agent : Agent)
      → agent.started ≡ false
      → ((launch fl world c agent).1 ≡ done tt) ↔ ((launch fl world c agent).0.started ≡ true)
  unfolding launch
  launch_iff c agent s = ground arith

  set_up_iff :
      (a : StartArgs) (agent : Agent)
      → agent.started ≡ false
      → ((set_up fl world a agent).1 ≡ done tt) ↔ ((set_up fl world a agent).0.started ≡ true)
  unfolding set_up
  set_up_iff a agent s = grind (arith, launch_iff)

  -- After a call the flag is set exactly if the call has returned.
  pub start_iff :
      (a : StartArgs) (agent : Agent)
      → ((start fl world a agent).1 ≡ done tt) ↔ ((start fl world a agent).0.started ≡ true)
  unfolding start
  start_iff a agent = grind (arith, set_up_iff)

  start_started :
      (b : StartArgs) (agent : Agent)
      → agent.started ≡ true
      → start fl world b agent ≡ (agent, done tt)
  unfolding start
  start_started b agent s = ground arith

  -- Behind a call that has returned, a call returns and changes nothing, whatever its arguments.
  pub start_again :
      (a b : StartArgs) (agent : Agent)
      → (start fl world a agent).1 ≡ done tt
      → start fl world b (start fl world a agent).0 ≡ ((start fl world a agent).0, done tt)
  start_again a b agent h = start_started b (start fl world a agent).0 ((start_iff a agent).0 h)
