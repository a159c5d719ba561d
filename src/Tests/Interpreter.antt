-- ===== src/Tests/Interpreter.antt =====
-- The native CPU profiler beside the interpreter and POSIX, at work.
use cloud_profiler_python.Prelude.{
  ℕ, ◌+◌, ◌*◌, ◌<◌, ◌≡◌, ◌↔◌, ◌⊎◌, refl, ap, Bool, true, false, none, some, List, [], ◌∷◌, arith,
  String, Option,
}
use cloud_profiler_python.Prelude.{◌==◌, nat_eq, list_eq, string_eq, if◌then◌else◌}
use cloud_profiler_python.Prelude.Int.{pos}
use cloud_profiler_python.Prelude.Result.{Result, ok, err, external}
use cloud_profiler_python.Prelude.Dict
use cloud_profiler_python.Prelude.Dict.{Dict}
use Prim.Native.Nat.{◌/◌, ◌%◌, ◌^◌}
use cloud_profiler_python.Json.{Json}
use cloud_profiler_python.Builder.Decode.{Contents}
use cloud_profiler_python.Builder.Proto
use cloud_profiler_python.Builder.Emit.{read}
use cloud_profiler_python.Native.Code.{Interpreter}
use cloud_profiler_python.Native.Profiler.Spec.{signals}
use cloud_profiler_python.Native.Profiler.Refine.{labels_of}
use cloud_profiler_python.Native.Traces.{python_traces}
use cloud_profiler_python.Native.Traces.Failures.{dict, checked_traces}
use cloud_profiler_python.Native.Traces.Ends.{Fails}
use cloud_profiler_python.Native.Traces.Answers.{
  IsNoDict, call_count, has_unreadable, checked_traces_cases,
}
use cloud_profiler_python.Native.Collect.{start, period_of}
use cloud_profiler_python.Native.Collect.Result.{all_events}
use cloud_profiler_python.Native.Collect.Report.{sample_count}
use cloud_profiler_python.Native.Collect.Period.{start_iff}
use cloud_profiler_python.Native.Fork.{
  Handler, How, sig_block, sig_unblock, Posix, IsPosix, register, register_times, unregistered,
  handle_fork, fork-masks,
}
use cloud_profiler_python.Client.Upload.{Profile, profiled, patched, collect_and_upload_profile}
use cloud_profiler_python.Client.Upload.Report.{
  Process, profile, services, collect_and_upload_profile-counts_signals,
}
use cloud_profiler_python.Tests.{plain, plain-IsLossless}
use cloud_profiler_python.Tests.Native.{world, timer, leftover, world-IsFair, sampled_profiler}

-- The name of the file of the code object at 500 is not text.
abbrev odd : Interpreter
odd = record {
  read_object = λ a.
      if a == 500
      then some (record { is_code = true; co_name = some "f"; co_filename = none })
      else none;
  addr_to_line = λ a offset. pos 7;
}

checked_traces_cases_example :
    ((checked_traces (λ k. false) (λ d. d) odd sampled_profiler
        ≡ dict (python_traces (λ d. d) odd sampled_profiler).1)
      × (¬ Fails (λ k. false) 0 (call_count (λ d. d) sampled_profiler))
      × (has_unreadable (λ d. d) odd sampled_profiler ≡ false))
    ⊎ (IsNoDict (checked_traces (λ k. false) (λ d. d) odd sampled_profiler)
        × (Fails (λ k. false) 0 (call_count (λ d. d) sampled_profiler)
            ⊎ (has_unreadable (λ d. d) odd sampled_profiler ≡ true)))
checked_traces_cases_example = checked_traces_cases (λ k. false) (λ d. d) odd sampled_profiler

start_iff_example :
    ((start world (period_of 1500) timer).0.interval
      ≡ (pos (1500 / 1000), pos (1500 % 1000 * 1000)))
    ↔ (1500 * 1000 < 2 ^ 31)
start_iff_example = start_iff world 1500 timer refl

-- A thread is its mask, and a process the handlers that are registered.
abbrev run_all : (Handler → Bool → Bool) → List Handler → Bool → Bool
run_all run [] t = t
run_all run (handler ∷ handlers) t = run_all run handlers (run handler t)

abbrev is_block : How → Bool
is_block sig_block = true
is_block sig_unblock = false

abbrev masks : Posix
masks = record {
  Process = List Handler × List Handler × List Handler;
  Thread = Bool;
  masked = λ t. t;
  sigmask = λ how t. is_block how;
  none_yet = ([], [], []);
  atfork =
      λ prepare parent child process. (prepare ∷ process.0, parent ∷ process.1, child ∷ process.2);
  fork = λ run process t.
      let t' = run_all run process.0 t in (t', run_all run process.1 t', run_all run process.2 t');
}

masks-IsPosix : IsPosix masks
masks-IsPosix = record {
  masked-block = λ t. refl;
  masked-unblock = λ t. refl;
  fork-once = λ run prepare parent child t. refl;
}

fork-masks_example :
    let process = (register_times masks 3 (unregistered masks)).process in
    let (during, parent, child) = masks.fork (handle_fork masks) process false in
    (process ≡ (register masks (unregistered masks)).process)
    × (masks.masked during ≡ true)
    × (masks.masked parent ≡ false)
    × (masks.masked child ≡ false)
fork-masks_example = fork-masks masks masks-IsPosix 2 false

abbrev job : Profile
job =
    ("name", Json.str "p1") ∷ ("profileType", Json.str "CPU") ∷ ("duration", Json.str "0.35s") ∷ []

abbrev bare : Process plain
bare = record {
  world = world;
  rounds = 4;
  period_msec = 10;
  timer = timer;
  before = leftover;
  encode = λ bytes. "H4sI";
  decode = λ text. none;
  parse_duration = λ duration. ok (pos 0, pos 350000000);
  patch = λ name body. ok tt;
  others = λ kind duration_ns. err external;
}

abbrev bytes_of : Result Proto.Profile → Option Proto.Profile
bytes_of (ok bytes) = some bytes
bytes_of (err e) = none

-- The one text is that of the one profile.
abbrev client : Process plain
client = record bare { decode = λ text. bytes_of (profile plain bare "CPU" (pos 350000000)) }

undone :
    (bytes : Proto.Profile)
    → profile plain client "CPU" (pos 350000000) ≡ ok bytes
    → client.decode (client.encode bytes) ≡ some bytes
undone bytes h = ap bytes_of h

collect_and_upload_profile-counts_signals_example :
    (n : ℕ) × (text : String) × (bytes : Proto.Profile) × (contents : Contents)
    × (collect_and_upload_profile (services plain client) ("CPU" ∷ []) job ≡ (
      profiled "CPU" (pos (0 * 1000000000 + 350000000))
          ∷ patched (Json.str "p1") (Dict.insert "profileBytes" (Json.str text) job)
          ∷ [],
      ok tt,
    ))
    × (client.decode text ≡ some bytes)
    × (read plain bytes ≡ some contents)
    × (sample_count contents.samples ≡ signals (labels_of world.version (all_events world n)))
unfolding Dict.get
collect_and_upload_profile-counts_signals_example =
    collect_and_upload_profile-counts_signals plain client plain-IsLossless ("CPU" ∷ []) job
      (Json.str "0.35s") (Json.str "p1") 0 350000000 refl refl refl refl refl world-IsFair
      (omega arith) undone
