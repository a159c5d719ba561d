-- ===== src/Backoff.antt =====
-- googlecloudprofiler/backoff.py. Random draws, the decoding of an error's content and the parsing of
-- a duration are done by libraries, and are parameters.
pub mod Envelope
pub mod ClosedForm
pub mod Durations
use cloud_profiler_python.Prelude.{ℕ, ◌*◌, Option, none, some, List, [], ◌∷◌, true, false}
use cloud_profiler_python.Prelude.{◌==◌, nat_eq, string_eq, if◌then◌else◌}
use cloud_profiler_python.Prelude.Int.{ℤ, pos}
use cloud_profiler_python.Prelude.Result.{◌>>=◌, Result, ok, err}
use cloud_profiler_python.Prelude.Float.{Float, min_py}
use cloud_profiler_python.Json
use cloud_profiler_python.Json.{Json}

-- `errno.EPIPE`
abbrev pub epipe : ℕ
epipe = 32

-- The exception that `next_backoff` is given, by what the method looks at.
pub data Error (Content : Type 0) : Type 0 where
  -- an `OSError` with its `errno`, which may be `None`
  os_error : Option ℕ → Error Content
  -- a `googleapiclient.errors.HttpError` with its content
  http_error : Content → Error Content
  other_error : Error Content

-- The libraries: `json.loads(content.decode('utf-8'))`; `json_format.Parse(json.dumps(v), delay)`, as
-- the seconds and nanoseconds of the delay; `random.uniform(a, b)` at one draw; and `time.sleep(s)`, which
-- raises for a duration that is negative, too long or no number.
pub record Library (fl : Float) : Type 1 where
  pub Content : Type 0
  pub loads : Content → Result Json
  pub parse_duration : Json → Result (ℤ × ℤ)
  pub Draw : Type 0
  pub uniform : fl.F → fl.F → Draw → fl.F
  pub sleep : fl.F → Result (Unit {0})

pub record Backoff (F : Type 0) : Type 0 where
  pub min_envelope_sec : F
  pub max_envelope_sec : F
  pub multiplier : F
  pub current_envelope_sec : F

unfoldable pub init : {F : Type 0} → F → F → F → Backoff F
init min_envelope_sec max_envelope_sec multiplier = record {
  min_envelope_sec = min_envelope_sec;
  max_envelope_sec = max_envelope_sec;
  multiplier = multiplier;
  current_envelope_sec = min_envelope_sec;
}

module _ (fl : Float) where
  -- `Backoff()`
  unfoldable pub new : Backoff fl.F
  unfolding init
  new = init (fl.literal "60.0") (fl.literal "3600.0") (fl.literal "1.3")

  module _ (lib : Library fl) where
    abbrev nanos_per_sec : ℤ
    nanos_per_sec = pos (1000 * 1000 * 1000)

    -- `delay.seconds + float(delay.nanos) / _NANOS_PER_SEC`
    unfoldable pub delay_sec : ℤ × ℤ → Result fl.F
    delay_sec (seconds, nanos) = do
      fraction ← fl.div (fl.of_ℤ nanos) (fl.of_ℤ nanos_per_sec)
      ok (fl.add (fl.of_ℤ seconds) fraction)

    -- The loop over the details: `none` where it ends with no return.
    unfoldable pub retry_delay : List Json → Result (Option fl.F)
    retry_delay [] = ok none
    retry_delay (detail ∷ details) = do
      found ← Json.contains_key "retryDelay" detail
      elim found [
        | true ↦ do
          value ← Json.subscript detail "retryDelay"
          delay ← lib.parse_duration value
          seconds ← delay_sec delay
          ok (some seconds)
        | false ↦ retry_delay details
      ]

    unfoldable pub http_delay : lib.Content → Result (Option fl.F)
    http_delay raw = do
      content ← lib.loads raw
      error ← Json.get content "error" (Json.obj Json.end)
      value ← Json.get error "details" (Json.arr Json.nil)
      details ← Json.iterate value
      retry_delay details

    -- The body of the `try`: `none` where it returns nothing.
    unfoldable pub requested : Option (Error lib.Content) → lib.Draw → Result (Option fl.F)
    requested none draw = ok none
    requested (some (os_error (some code))) draw =
        if code == epipe
        then ok (some (lib.uniform (fl.of_ℤ (pos 1)) (fl.of_ℤ (pos 10)) draw))
        else ok none
    requested (some (os_error none)) draw = ok none
    requested (some (http_error content)) draw = http_delay content
    requested (some other_error) draw = ok none

    -- The part behind the `try`.
    unfoldable pub exponential : Backoff fl.F → lib.Draw → Backoff fl.F × fl.F
    exponential b draw = (
      record b {
        current_envelope_sec =
            min_py fl b.max_envelope_sec (fl.mul b.current_envelope_sec b.multiplier);
      },
      lib.uniform (fl.of_ℤ (pos 0)) b.current_envelope_sec draw,
    )

    unfoldable pub next_backoff :
        Backoff fl.F → Option (Error lib.Content) → lib.Draw → Backoff fl.F × fl.F
    next_backoff b error draw = elim (requested error draw) [
      | ok found ↦ elim found [ some seconds ↦ (b, seconds) | none ↦ exponential b draw ]
      | err e ↦ exponential b draw
    ]
