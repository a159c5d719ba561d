-- ===== src/Client/ServiceName.antt =====
-- googlecloudprofiler/client.py: `service_re`, the regular expression of `config`. A text is the list
-- of its code points. The matcher is that of Python's `re`, for the constructs that stand in this
-- expression.
pub mod Shape
use cloud_profiler_python.Prelude.{
  ℕ, zero, suc, ◌-◌, Bool, List, [], ◌∷◌, true, false, ◌&&◌, ◌||◌, String,
}
use cloud_profiler_python.Prelude.{nat_eq, string_eq, leb, nat_beq}
use cloud_profiler_python.Json
use Prim.Native.Char.{code}

-- The code points of a text.
abbrev pub codes : String → List ℕ
codes String.[] = []
codes (String.◌∷◌ c s) = code c ∷ codes s

-- One character of a class, up to n of them, a sequence, an optional part, and `$`.
pub data Regex : Type 0 where
  one : (ℕ → Bool) → Regex
  up_to : ℕ → (ℕ → Bool) → Regex
  seq : Regex → Regex → Regex
  opt : Regex → Regex
  end : Regex

module _ (class : ℕ → Bool) (next : List ℕ → Bool) where
  -- First as many characters as there are, then fewer.
  unfoldable pub repeat : ℕ → List ℕ → Bool
  repeat zero s = next s
  repeat (suc n) [] = next []
  repeat (suc n) (c ∷ s) = (class c && repeat n s) || next (c ∷ s)

-- `$` matches at the end, and before a newline at the end.
unfoldable pub at_end : List ℕ → Bool
at_end [] = true
at_end (c ∷ []) = nat_beq c 10
at_end (c ∷ d ∷ s) = false

-- Whether a prefix of the text matches and what is left passes `next`.
unfoldable pub run : Regex → (List ℕ → Bool) → List ℕ → Bool
unfolding repeat at_end
run (one class) next [] = false
run (one class) next (c ∷ s) = class c && next s
run (up_to n class) next s = repeat class next n s
run (seq r q) next s = run r (run q next) s
run (opt r) next s = run r next s || next s
run end next s = at_end s && next s

-- [a-z0-9]
unfoldable pub is_alnum : ℕ → Bool
is_alnum c = (leb b'a' c && leb c b'z') || (leb b'0' c && leb c b'9')

-- [-a-z0-9_.]
unfoldable pub is_inner : ℕ → Bool
unfolding is_alnum
is_inner c = nat_beq c b'-' || (is_alnum c || (nat_beq c b'_' || nat_beq c b'.'))

-- ^[a-z0-9]([-a-z0-9_.]{0,253}[a-z0-9])?$ ; `match` begins at the start of the text, so `^` holds.
abbrev pub service_re : Regex
service_re = seq (one is_alnum) (seq (opt (seq (up_to 253 is_inner) (one is_alnum))) end)

-- `service_re.match(service)`
unfoldable pub matches : List ℕ → Bool
unfolding run
matches s = run service_re (λ rest. true) s
