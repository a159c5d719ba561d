-- ===== src/Backoff/Durations.antt =====
-- googlecloudprofiler/backoff.py: the durations that `next_backoff` returns.
use cloud_profiler_python.Prelude.{◌≡◌, refl, Option, some, List, [], ◌∷◌, ◌++◌, arith, true, false}
use cloud_profiler_python.Prelude.{nat_eq, string_eq, All}
use cloud_profiler_python.Prelude.Int.{ℤ, pos}
use cloud_profiler_python.Prelude.Result.{ok, ◌>>=◌}
use cloud_profiler_python.Prelude.Float.{Float, NotAbove, IsIeee}
use cloud_profiler_python.Json
use cloud_profiler_python.Json.{Json}
use cloud_profiler_python.Backoff.{
  Backoff, Error, os_error, http_error, epipe, Library, delay_sec, retry_delay, http_delay,
  requested, exponential, next_backoff,
}
use cloud_profiler_python.Backoff.ClosedForm.{is_exponential}
use cloud_profiler_python.Backoff.Envelope.{IsValid}

-- An element that the search for a delay passes over.
abbrev pub IsPassedOver : Json → Type 0
IsPassedOver detail = Json.contains_key "retryDelay" detail ≡ ok false

-- `random.uniform(a, b)` lies between its bounds, as documented.
abbrev pub IsUniform : (fl : Float) → Library fl → Type 0
IsUniform fl lib =
    (a b : fl.F) (draw : lib.Draw)
    → NotAbove fl a b
    → NotAbove fl a (lib.uniform a b draw) × NotAbove fl (lib.uniform a b draw) b

module _ (fl : Float) (lib : Library fl) where
  retry_delay-skip :
      (before rest : List Json)
      → All IsPassedOver before
      → retry_delay fl lib (before ++ rest) ≡ retry_delay fl lib rest
  unfolding retry_delay
  retry_delay-skip [] rest h = refl
  retry_delay-skip (d ∷ before) rest h = ground (arith, h.0, retry_delay-skip before rest h.1)

  -- The content of an error whose details name a delay.
  pub record AsksFor (raw : lib.Content) (value : Json) : Type 0 where
    pub content : Json.Fields
    pub error : Json.Fields
    pub details : Json.Items
    pub before : List Json
    pub detail : Json.Fields
    pub behind : List Json
    pub loaded : lib.loads raw ≡ ok (Json.obj content)
    pub has_error : Json.lookup "error" content ≡ some (Json.obj error)
    pub has_details : Json.lookup "details" error ≡ some (Json.arr details)
    pub split : Json.elements details ≡ before ++ Json.obj detail ∷ behind
    pub passed_over : All IsPassedOver before
    pub has_delay : Json.lookup "retryDelay" detail ≡ some value

  found_delay :
      (detail : Json.Fields) (behind : List Json) (value : Json)
      → Json.lookup "retryDelay" detail ≡ some value
      → retry_delay fl lib (Json.obj detail ∷ behind)
        ≡ (do delay ← lib.parse_duration value; seconds ← delay_sec fl lib delay; ok (some seconds))
  unfolding retry_delay Json.contains_key Json.subscript
  found_delay detail behind value h = ground (arith, h)

  http_delay_lem :
      (raw : lib.Content) (value : Json) (s n : ℤ) (q : fl.F)
      → AsksFor raw value
      → lib.parse_duration value ≡ ok (s, n)
      → fl.div (fl.of_ℤ n) (fl.of_ℤ (pos 1000000000)) ≡ ok q
      → http_delay fl lib raw ≡ ok (some (fl.add (fl.of_ℤ s) q))
  unfolding http_delay delay_sec Json.get Json.iterate
  http_delay_lem raw value s n q h parsed divided = ground (
    arith,
    h.loaded,
    h.has_error,
    h.has_details,
    h.split,
    retry_delay-skip h.before (Json.obj h.detail ∷ h.behind) h.passed_over,
    found_delay h.detail h.behind value h.has_delay,
    parsed,
    divided,
  )

  -- A delay that the server names is returned in seconds, and the envelope stays as it was. The
  -- delay is that of the first detail with the key `retryDelay`, whatever follows it. The hypotheses
  -- are the content's form, and that the delay parses and its nanoseconds can be divided.
  pub next_backoff-server :
      (b : Backoff fl.F) (draw : lib.Draw) (raw : lib.Content) (value : Json) (s n : ℤ) (q : fl.F)
      → AsksFor raw value
      → lib.parse_duration value ≡ ok (s, n)
      → fl.div (fl.of_ℤ n) (fl.of_ℤ (pos 1000000000)) ≡ ok q
      → next_backoff fl lib b (some (http_error raw)) draw ≡ (b, fl.add (fl.of_ℤ s) q)
  unfolding next_backoff requested
  next_backoff-server b draw raw value s n q h parsed divided =
      ground (arith, http_delay_lem raw value s n q h parsed divided)

  -- Where `random.uniform` lies between its bounds and 1 is not above 10, a broken pipe is answered
  -- by a duration from 1 to 10 seconds, and the backoff stays as it was.
  pub next_backoff-epipe :
      IsUniform fl lib
      → NotAbove fl (fl.of_ℤ (pos 1)) (fl.of_ℤ (pos 10))
      → (b : Backoff fl.F) (draw : lib.Draw)
      → ((next_backoff fl lib b (some (os_error (some epipe))) draw).0 ≡ b)
        × NotAbove fl
            (fl.of_ℤ (pos 1))
            (next_backoff fl lib b (some (os_error (some epipe))) draw).1
        × NotAbove fl
            (next_backoff fl lib b (some (os_error (some epipe))) draw).1
            (fl.of_ℤ (pos 10))
  unfolding next_backoff requested
  next_backoff-epipe uniform ordered b draw =
      let (low, high) = uniform (fl.of_ℤ (pos 1)) (fl.of_ℤ (pos 10)) draw ordered in
      (refl, low, high)

  -- Where the floats are ordered and `random.uniform` lies between its bounds, a failure that asks for
  -- no delay is answered by a duration from 0 seconds up to the envelope before the call, which is
  -- not above the maximum.
  pub next_backoff-exponential :
      (ieee : IsIeee fl)
      → IsUniform fl lib
      → (b : Backoff fl.F) → IsValid fl ieee b
      → (error : Option (Error lib.Content)) (draw : lib.Draw)
      → is_exponential fl lib error draw ≡ true
      → NotAbove fl (fl.of_ℤ (pos 0)) (next_backoff fl lib b error draw).1
        × NotAbove fl (next_backoff fl lib b error draw).1 b.current_envelope_sec
        × NotAbove fl b.current_envelope_sec b.max_envelope_sec
  unfolding next_backoff exponential is_exponential
  next_backoff-exponential ieee uniform b v error draw h =
      let (zero_le, le_envelope) = uniform (fl.of_ℤ (pos 0)) b.current_envelope_sec draw v.nonneg in
      ground (arith, h, zero_le, le_envelope, v.below_max)
