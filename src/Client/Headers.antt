-- ===== src/Client/Headers.antt =====
-- googlecloudprofiler/client.py: `ProfilerHttpRequest`, the headers of a request of the agent.
use cloud_profiler_python.Prelude.{◌≡◌, ◌≢◌, ap, Option, none, some, [], String, arith}
use cloud_profiler_python.Prelude.{◌==◌, string_eq, if◌then◌else◌, eq_iff}
use cloud_profiler_python.Prelude.Dict
use cloud_profiler_python.Prelude.Dict.{Dict, get, get-insert}
use mathlib.Core.Bool.{true≢false}
use Prim.Native.String.{◌++◌ as ◌<>◌}

-- `version.__version__`
abbrev pub version : String
version = "4.2.1"

abbrev pub format_version : String
format_version = "x-goog-api-format-version"

abbrev pub user_agent : String
user_agent = "user-agent"

abbrev pub api_client : String
api_client = "x-goog-api-client"

-- What a header holds once a library has been added to it.
unfoldable pub extend : Option String → String → String
extend none val = "" <> val
extend (some old) val = (old <> " ") <> val

-- The body of the loop on the headers h that list libraries.
unfoldable pub add_library : String → String → Dict String String → Dict String String
add_library h val headers = Dict.insert h (extend (get headers h) val) headers

-- `kwargs.setdefault('headers', {})`
abbrev pub given : Option (Dict String String) → Dict String String
given none = []
given (some headers) = headers

-- The headers of the request, from the argument `headers` where there is one.
unfoldable pub request_headers : Option (Dict String String) → Dict String String
request_headers argument = add_library api_client ("gccl/" <> version) (
    add_library user_agent ("gcloud-python-profiler/" <> version)
      (Dict.insert format_version "2" (given argument)))

-- What a header of the request is, from what it was.
abbrev pub expected : String → Option String → Option String
expected h old =
    if h == api_client
    then some (extend old ("gccl/" <> version))
    else if h == user_agent
    then some (extend old ("gcloud-python-profiler/" <> version))
    else if h == format_version
    then some "2"
    else old

get-add_library :
    (h val j : String) (d : Dict String String)
    → get (add_library h val d) j ≡ (if j == h then some (extend (get d j) val) else get d j)
unfolding add_library
get-add_library h val j d = ground (arith, get-insert h j (extend (get d h) val) d, eq_iff j h)

distinct : (user_agent ≢ format_version) × (api_client ≢ format_version) × (api_client ≢ user_agent)
distinct = (
  λ same. true≢false (ap (λ s. s == user_agent) same),
  λ same. true≢false (ap (λ s. s == api_client) same),
  λ same. true≢false (ap (λ s. s == api_client) same),
)

-- Every header of the request: the two that list libraries have the agent added to what they were, behind
-- a space where they were set; the version of the format is 2; every other is what the argument has.
pub get-request_headers :
    (argument : Option (Dict String String)) (h : String)
    → get (request_headers argument) h ≡ expected h (get (given argument) h)
unfolding request_headers
get-request_headers argument h = ground (
  arith,
  get-add_library api_client ("gccl/" <> version) h (
      add_library user_agent ("gcloud-python-profiler/" <> version)
        (Dict.insert format_version "2" (given argument))),
  get-add_library user_agent ("gcloud-python-profiler/" <> version) h
      (Dict.insert format_version "2" (given argument)),
  get-insert format_version h "2" (given argument),
  distinct,
  eq_iff h api_client,
  eq_iff h user_agent,
  eq_iff h format_version,
)
