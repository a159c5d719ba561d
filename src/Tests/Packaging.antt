-- ===== src/Tests/Packaging.antt =====
-- setup.py at work.
use cloud_profiler_python.Prelude.{ℕ, ◌≡◌, refl, List, [], ◌∷◌, ◌++◌, arith, Bool, true, ◌&&◌}
use cloud_profiler_python.Prelude.{if◌then◌else◌, All}
use cloud_profiler_python.Prelude.Result.{ok, err, runtime_error}
use cloud_profiler_python.Client.ServiceName.{codes}
use cloud_profiler_python.Agent.{is_supported, cpu_profiler_imported}
use cloud_profiler_python.Setup.{
  Host, extension, ext_module, notices, not_supported, limited_support, get_version, search,
  match_line, run, repeat, in_line, quote, assignment, version_re,
}
use cloud_profiler_python.Setup.Search.{Matches, IsLines}
use cloud_profiler_python.Setup.Version.{get_version-Matches}
use cloud_profiler_python.Setup.RoundTrip.{
  IsVersion, numbered, InLine, IsOtherLine, unlines, get_version-unlines,
}
use cloud_profiler_python.Setup.Platforms.{script-platforms}

abbrev version : List ℕ
version = codes "4.2.1"

-- As `__version__.py` has them.
abbrev comments : List (List ℕ)
comments = codes "# pylint: skip-file" ∷ [] ∷ codes "# 4.2.0 -- the fix is a bug fix." ∷ []

abbrev file : List ℕ
file = unlines comments ++ (assignment ++ (version ++ quote ∷ 10 ∷ []))

abbrev fits : List ℕ → Bool
fits [] = true
fits (c ∷ s) = in_line c && fits s

fits-InLine : (s : List ℕ) → fits s ≡ true → InLine s
fits-InLine [] h = tt
fits-InLine (c ∷ s) h = (ground (arith, h), fits-InLine s (ground (arith, h)))

comments-IsOtherLine : All IsOtherLine comments
comments-IsOtherLine =
    let first = fits-InLine (codes "# pylint: skip-file") refl in
    let last = fits-InLine (codes "# 4.2.0 -- the fix is a bug fix.") refl in
    ((omega arith, first), (tt, ((omega arith, last), tt)))

version-IsVersion : IsVersion version
version-IsVersion = numbered b'4' [] b'2' (b'.' ∷ b'1' ∷ []) refl tt refl (refl, (refl, tt))

get_version-unlines_example : get_version file ≡ ok version
get_version-unlines_example =
    get_version-unlines comments version [] comments-IsOtherLine version-IsVersion

get_version-Matches_example :
    (before : List ℕ) × (after : List ℕ) × (file
      ≡ before ++ (assignment ++ (version ++ quote ∷ after)))
    × IsLines before
    × Matches version_re version
get_version-Matches_example = get_version-Matches file version get_version-unlines_example

-- An assignment that is not at the start of a line is not found, nor is a text with no digit.
get_version-indented : get_version (codes " __version__ = '1.2'") ≡ err runtime_error
unfolding get_version search match_line run repeat
get_version-indented = refl

get_version-words : get_version (codes "__version__ = 'one'") ≡ err runtime_error
unfolding get_version search match_line run repeat
get_version-words = refl

-- The group takes all up to the last quote of the line.
get_version-greedy : get_version (codes "__version__ = '1.2' # '3'") ≡ ok (codes "1.2' # '3")
unfolding get_version search match_line run repeat
get_version-greedy = refl

abbrev mac : Host
mac = record {
  platform = "darwin";
  glob = λ pattern. "googlecloudprofiler/src/clock.cc" ∷ [];
  read = λ path. ok file;
}

script-platforms_example :
    (ext_module mac ≡ (if cpu_profiler_imported "darwin" then extension mac ∷ [] else []))
    × (notices mac ≡ (
        if is_supported "darwin"
        then if cpu_profiler_imported "darwin" then [] else limited_support ∷ []
        else not_supported ∷ []))
script-platforms_example = script-platforms mac
