-- ===== src/Tests/Delays.antt =====
-- googlecloudprofiler/backoff.py, with the parameters that the client uses.
use cloud_profiler_python.Prelude.{
  ℕ, ◌≡◌, refl, Bool, true, false, Option, none, some, List, [], ◌∷◌, ◌++◌, arith,
}
use cloud_profiler_python.Prelude.Result.{ok, external}
use cloud_profiler_python.Prelude.Micros.{micros, micros-IsIeee}
use cloud_profiler_python.Json
use cloud_profiler_python.Json.{Json}
use cloud_profiler_python.Backoff.{
  Backoff, Error, init, new, http_error, other_error, requested, http_delay, delay_sec, retry_delay,
}
use cloud_profiler_python.Backoff.Envelope.{IsValid}
use cloud_profiler_python.Backoff.ClosedForm.{run, run-init, is_exponential, exponential_count}
use cloud_profiler_python.Backoff.Durations.{AsksFor}
use cloud_profiler_python.Client.Poll.{connect}
use cloud_profiler_python.Client.Poll.Connecting.{failures, connect-sleeps}
use cloud_profiler_python.Tests.{library, literals, patient}

-- An error that asks for three seconds and a half, behind a detail of another kind.
abbrev details : Json.Items
details =
    Json.cons (Json.obj (Json.field "reason" (Json.str "quota") Json.end))
      (Json.cons (Json.obj (Json.field "retryDelay" (Json.str "3.5s") Json.end)) Json.nil)

abbrev error : Json.Fields
error = Json.field "details" (Json.arr details) Json.end

abbrev content : Json.Fields
content = Json.field "error" (Json.obj error) Json.end

asks_for : AsksFor micros library (Json.obj content) (Json.str "3.5s")
unfolding Json.lookup Json.elements Json.contains_key
asks_for = record {
  content = content;
  error = error;
  details = details;
  before = Json.obj (Json.field "reason" (Json.str "quota") Json.end) ∷ [];
  detail = Json.field "retryDelay" (Json.str "3.5s") Json.end;
  behind = [];
  loaded = refl;
  has_error = refl;
  has_details = refl;
  split = refl;
  passed_over = (refl, tt);
  has_delay = refl;
}

abbrev backoff : Backoff ℕ
backoff = new micros

backoff-IsValid : IsValid micros micros-IsIeee backoff
unfolding new init
backoff-IsValid = record {
  max_number = tt;
  max_nonneg = refl;
  number = tt;
  nonneg = refl;
  factor = omega arith;
  above_min = refl;
  below_max = refl;
}

abbrev calls : List (Option (Error Json) × Bool)
calls = (none, true) ∷ (some (http_error (Json.obj content)), true) ∷ (some other_error, false) ∷ []

-- Two of the three failures count: 60 · 1.3 · 1.3 seconds.
run-init_example : run micros library (init 60000000 3600000000 1300000) calls ≡ (record {
  min_envelope_sec = 60000000;
  max_envelope_sec = 3600000000;
  multiplier = 1300000;
  current_envelope_sec = 101400000;
})
unfolding exponential_count is_exponential requested http_delay delay_sec retry_delay Json.lookup
    Json.elements Json.contains_key Json.get Json.iterate Json.subscript
run-init_example =
    run-init micros micros-IsIeee 60000000 3600000000 1300000 (omega arith) tt refl tt refl library
      calls

connect-sleeps_example :
    connect micros library (new micros) (
      failures micros micros-IsIeee library external (true ∷ false ∷ true ∷ [])
      ++ (ok tt, true) ∷ [])
    ≡ (60000000 ∷ 0 ∷ 101400000 ∷ [], ok true)
connect-sleeps_example =
    connect-sleeps micros micros-IsIeee library literals patient external (true ∷ false ∷ true ∷ [])
      true []
