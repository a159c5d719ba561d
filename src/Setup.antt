-- ===== src/Setup.antt =====
-- setup.py: the packaging script. A text is the list of its code points, as in Client/ServiceName. The
-- matcher is that of Python's `re` for the constructs of the one expression, with its choices in its order.
pub mod Search
pub mod Version
pub mod RoundTrip
pub mod Platforms
use cloud_profiler_python.Prelude.{
  ℕ, ◌-◌, Bool, true, false, not, ◌&&◌, ◌||◌, Option, none, some, List, [], ◌∷◌, String,
}
use cloud_profiler_python.Prelude.{if◌then◌else◌, leb, nat_beq, length, take}
use cloud_profiler_python.Prelude.Result.{Result, ok, err, or_raise, runtime_error, ◌>>=◌}
use Prim.Native.Char.{code}
use cloud_profiler_python.Client.ServiceName.{codes}
use cloud_profiler_python.Agent.{starts_with}

-- One character of a class, any number of them, a sequence, an optional part, and nothing.
pub data Part : Type 0 where
  one : (ℕ → Bool) → Part
  many : (ℕ → Bool) → Part
  seq : Part → Part → Part
  opt : Part → Part
  skip : Part

abbrev pub first : {A : Type 0} → Option A → Option A → Option A
first none b = b
first (some a) b = some a

module _ {A : Type 0} where
  -- First as many characters as there are, then fewer.
  unfoldable pub repeat : (ℕ → Bool) → (List ℕ → Option A) → List ℕ → Option A
  repeat class next [] = next []
  repeat class next (c ∷ s) =
      let further = repeat class next s in first (if class c then further else none) (next (c ∷ s))

  -- What `next` makes of the text behind the first way in which the part matches and `next` goes on.
  unfoldable pub run : Part → (List ℕ → Option A) → List ℕ → Option A
  unfolding repeat
  run (one class) next [] = none
  run (one class) next (c ∷ s) = if class c then next s else none
  run (many class) next s = repeat class next s
  run (seq r q) next s = run r (run q next) s
  run (opt r) next s = first (run r next s) (next s)
  run skip next s = next s

abbrev pub is : ℕ → ℕ → Bool
is d c = nat_beq c d

-- [0-9]
abbrev pub is_digit : ℕ → Bool
is_digit c = leb b'0' c && leb c b'9'

-- `.`
abbrev pub in_line : ℕ → Bool
in_line c = not (nat_beq c 10)

abbrev pub literal : List ℕ → Part
literal [] = skip
literal (c ∷ cs) = seq (one (is c)) (literal cs)

-- [0-9]+
abbrev pub digits : Part
digits = seq (one is_digit) (many is_digit)

-- [0-9]+\.[0-9]+(\.[0-9]+)?-?.*
abbrev pub version_re : Part
version_re = seq digits (
    seq (one (is b'.')) (
      seq digits
        (seq (opt (seq (one (is b'.')) digits)) (seq (opt (one (is b'-'))) (many in_line)))))

abbrev pub quote : ℕ
quote = 39

-- `__version__ = '`
abbrev pub assignment : List ℕ
assignment = codes "__version__ = '"

-- The text of the group, from its start to where the quote matched.
abbrev pub group_from : List ℕ → List ℕ → Option (List ℕ)
group_from start rest = some (take (length start - length rest) start)

abbrev pub group : List ℕ → Option (List ℕ)
group start =
    run version_re (λ rest. run (one (is quote)) (λ after. group_from start rest) rest) start

-- The expression at a place where `^` holds.
unfoldable pub match_line : List ℕ → Option (List ℕ)
unfolding run
match_line s = run (literal assignment) group s

-- `re.search` with `re.M`: `^` holds at the start and behind a newline.
unfoldable pub search : Bool → List ℕ → Option (List ℕ)
search at_line [] = if at_line then match_line [] else none
search at_line (c ∷ s) =
    let later = search (nat_beq c 10) s in
    first (if at_line then match_line (c ∷ s) else none) later

-- `get_version`, on the text of `__version__.py`
unfoldable pub get_version : List ℕ → Result (List ℕ)
get_version text = or_raise runtime_error (search true text)

pub record Extension : Type 0 where
  pub name : String
  pub sources : List String
  pub include_dirs : List String
  pub language : String
  pub extra_compile_args : List String
  pub extra_link_args : List String

-- What the script prints.
pub data Notice : Type 0 where
  not_supported limited_support : Notice

-- `sys.platform`, `glob.glob`, and the text of a file, where it can be opened and read.
pub record Host : Type 0 where
  pub platform : String
  pub glob : String → List String
  pub read : String → Result (List ℕ)

abbrev pub is_linux : String → Bool
is_linux platform = starts_with (codes platform) (codes "linux")

abbrev pub is_darwin : String → Bool
is_darwin platform = starts_with (codes platform) (codes "darwin")

unfoldable pub extension : Host → Extension
extension host = record {
  name = "googlecloudprofiler._profiler";
  sources = host.glob "googlecloudprofiler/src/*.cc";
  include_dirs = "googlecloudprofiler/src" ∷ [];
  language = "c++";
  extra_compile_args = "-std=c++11" ∷ [];
  extra_link_args = "-std=c++11" ∷ "-static-libstdc++" ∷ "-static-libgcc" ∷ [];
}

-- `ext_module` behind the two tests of the platform
unfoldable pub ext_module : Host → List Extension
ext_module host =
    let built =
      if not (is_linux host.platform || is_darwin host.platform) then [] else extension host ∷ [] in
    if is_darwin host.platform then [] else built

unfoldable pub notices : Host → List Notice
notices host =
    let limited = if is_darwin host.platform then limited_support ∷ [] else [] in
    if not (is_linux host.platform || is_darwin host.platform)
    then not_supported ∷ limited
    else limited

abbrev pub install_requires : List String
install_requires =
    "google-api-python-client!=1.12.0,!=2.0.2" ∷ "google-auth>=1.0.0" ∷ "google-auth-httplib2"
    ∷ "protobuf>=3.20" ∷ "requests" ∷ []

abbrev pub classifiers : List String
classifiers =
    "Development Status :: 5 - Production/Stable" ∷ "Intended Audience :: Developers"
    ∷ "License :: OSI Approved :: Apache Software License" ∷ "Programming Language :: Python :: 3.7"
    ∷ "Programming Language :: Python :: 3.8" ∷ "Programming Language :: Python :: 3.9"
    ∷ "Programming Language :: Python :: 3.10" ∷ "Programming Language :: Python :: 3.11"
    ∷ "Programming Language :: Python :: 3.12" ∷ "Programming Language :: Python :: 3.13" ∷ []

-- What the script hands to `setup`.
pub record SetupArgs : Type 0 where
  pub name : String
  pub description : String
  pub long_description : List ℕ
  pub long_description_content_type : String
  pub url : String
  pub author : String
  pub version : List ℕ
  pub install_requires : List String
  pub setup_requires : List String
  pub packages : List String
  pub ext_modules : List Extension
  pub license : String
  pub keywords : String
  pub classifiers : List String

-- The script: what it prints, and what it hands to `setup` where nothing raises.
unfoldable pub script : Host → List Notice × Result SetupArgs
script host = (
  notices host,
  do
    readme ← host.read "README.md"
    file ← host.read "googlecloudprofiler/__version__.py"
    version ← get_version file
    ok (record {
      name = "google-cloud-profiler";
      description = "Google Cloud Profiler Python Agent";
      long_description = readme;
      long_description_content_type = "text/markdown";
      url = "https://github.com/GoogleCloudPlatform/cloud-profiler-python";
      author = "Google LLC";
      version = version;
      install_requires = install_requires;
      setup_requires = "wheel" ∷ [];
      packages = "googlecloudprofiler" ∷ [];
      ext_modules = ext_module host;
      license = "Apache License, Version 2.0";
      keywords = "google cloud profiler";
      classifiers = classifiers;
    }),
)
