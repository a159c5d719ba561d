-- ===== src/Native/Entry/Local.antt =====
-- googlecloudprofiler/src/stacktraces.cc: what a step of `Add` or `Extract` leaves true of the entry.
use cloud_profiler_python.Prelude.{ℕ, zero, suc, ◌+◌, ◌<◌, ◌≡◌, refl, Bool, true, false, arith}
use cloud_profiler_python.Prelude.{nat_eq, list_eq, if◌then◌else◌, length}
use cloud_profiler_python.Prelude.Dict
use cloud_profiler_python.Native.Stack.{Stack, frame_eq}
use cloud_profiler_python.Native.Profiler.Spec.{count_of}
use cloud_profiler_python.Native.Entry.{
  Count, locked, counted, Reader, resting, looked, seen, holding, copied, released, Cell, Pc, idle,
  entered, loaded, reserved, writing, written, matched, reloaded, bumped, leaving,
}

-- The thread counts as an active update.
abbrev pub is_active : Pc → ℕ
is_active idle = 0
is_active (writing t) = 0
is_active (written t) = 0
is_active _ = 1

-- The thread inspects the frames, or relies on what it has seen of them.
abbrev pub inspects : Pc → Bool
inspects (loaded t (counted (suc k))) = true
inspects (matched t) = true
inspects (reloaded t k) = true
inspects _ = false

-- The thread has the entry to itself.
abbrev pub writes : Pc → Bool
writes (reserved t) = true
writes (writing t) = true
writes (written t) = true
writes _ = false

abbrev pub is_positive : Count → Bool
is_positive (counted (suc k)) = true
is_positive _ = false

abbrev pub is_locked : Count → Bool
is_locked locked = true
is_locked _ = false

-- The frames stay as they are.
abbrev pub occupied : Reader → Count → Bool
occupied (holding num k) count = true
occupied (copied fs k) count = true
occupied (released fs k) count = false
occupied _ count = is_positive count

-- A thread in `Add` has locked the entry.
abbrev pub writable : Reader → Count → Bool
writable resting count = is_locked count
writable _ count = false

-- What the thread has seen still holds.
abbrev pub Knows : Stack → Pc → Type 0
Knows frames (matched t) = t ≡ frames
Knows frames (reloaded t (counted k)) = (t ≡ frames) × (0 < k)
Knows frames (written t) = t ≡ frames
Knows frames _ = Unit

pub record Local (c : Cell) (p : Pc) : Type 0 where
  pub inspected : inspects p ≡ true → occupied c.reader c.count ≡ true
  pub owned : writes p ≡ true → writable c.reader c.count ≡ true
  pub knows : Knows c.frames p

-- What `Extract` relies on.
abbrev pub ReadOf : Count → Stack → Reader → Type 0
ReadOf count frames resting = Unit
ReadOf count frames looked = is_positive count ≡ true
ReadOf count frames (seen num) = (is_positive count ≡ true) × (num ≡ length frames)
ReadOf count frames (holding num k) = (count ≡ locked) × (num ≡ length frames)
ReadOf count frames (copied fs k) = (count ≡ locked) × (fs ≡ frames)
ReadOf count frames (released fs k) = count ≡ locked

abbrev pub IsRead : Cell → Type 0
IsRead c = ReadOf c.count c.frames c.reader

-- The samples that are in the entry, or on their way out of it.
abbrev pub in_count : Count → ℕ
in_count locked = 0
in_count (counted k) = k

abbrev pub in_reader : (Stack → Bool) → Stack → Reader → ℕ
in_reader p frames (holding num k) = if p frames then k else 0
in_reader p frames (copied fs k) = if p fs then k else 0
in_reader p frames (released fs k) = if p fs then k else 0
in_reader p frames _ = 0

-- What was added is in the entry, on its way out, or harvested.
abbrev pub Balances : Cell → Type 0
Balances c =
    (p : Stack → Bool)
    → count_of p c.added
      ≡ Dict.total_of p c.harvested
        + in_reader p c.frames c.reader
        + (if p c.frames then in_count c.count else 0)

pub positive-occupied :
    (r : Reader) (k : Count) (frames : Stack)
    → is_positive k ≡ true
    → ReadOf k frames r
    → occupied r k ≡ true
positive-occupied resting k frames h v = h
positive-occupied looked k frames h v = h
positive-occupied (seen num) k frames h v = h
positive-occupied (holding num m) k frames h v = refl
positive-occupied (copied fs m) k frames h v = refl
positive-occupied (released fs m) locked frames h v = absurd (cc h)
positive-occupied (released fs m) (counted k) frames h v = absurd (cc v)

pub occupied-positive :
    (r : Reader) (k : ℕ) (frames : Stack)
    → occupied r (counted k) ≡ true
    → ReadOf (counted k) frames r
    → 0 < k
occupied-positive resting zero frames h v = absurd (cc h)
occupied-positive looked zero frames h v = absurd (cc h)
occupied-positive (seen num) zero frames h v = absurd (cc h)
occupied-positive (holding num m) zero frames h v = absurd (cc (v.0))
occupied-positive (copied fs m) zero frames h v = absurd (cc (v.0))
occupied-positive (released fs m) zero frames h v = absurd (cc h)
occupied-positive r (suc k) frames h v = omega arith

-- An entry that is free while `Extract` is in it at most at rest.
pub free-writable :
    (r : Reader) (frames : Stack) → ReadOf (counted 0) frames r → writable r locked ≡ true
free-writable resting frames v = refl
free-writable looked frames v = absurd (cc v)
free-writable (seen num) frames v = absurd (cc (v.0))
free-writable (holding num m) frames v = absurd (cc (v.0))
free-writable (copied fs m) frames v = absurd (cc (v.0))
free-writable (released fs m) frames v = absurd (cc v)

pub free-not_occupied :
    (r : Reader) (frames : Stack) → ReadOf (counted 0) frames r → occupied r (counted 0) ≡ false
free-not_occupied resting frames v = refl
free-not_occupied looked frames v = refl
free-not_occupied (seen num) frames v = refl
free-not_occupied (holding num m) frames v = absurd (cc (v.0))
free-not_occupied (copied fs m) frames v = absurd (cc (v.0))
free-not_occupied (released fs m) frames v = refl

pub counted-not_writable : (r : Reader) (k : ℕ) → writable r (counted k) ≡ false
counted-not_writable resting k = refl
counted-not_writable looked k = refl
counted-not_writable (seen num) k = refl
counted-not_writable (holding num m) k = refl
counted-not_writable (copied fs m) k = refl
counted-not_writable (released fs m) k = refl

-- An entry that a thread in `Add` has locked: nobody else relies on it.
pub writable_cases : (r : Reader) (k : Count) → writable r k ≡ true → (r ≡ resting) × (k ≡ locked)
writable_cases resting locked h = (refl, refl)
writable_cases resting (counted k) h = absurd (cc h)
writable_cases looked k h = absurd (cc h)
writable_cases (seen num) k h = absurd (cc h)
writable_cases (holding num m) k h = absurd (cc h)
writable_cases (copied fs m) k h = absurd (cc h)
writable_cases (released fs m) k h = absurd (cc h)

pub writable-not_occupied : (r : Reader) (k : Count) → writable r k ≡ true → occupied r k ≡ false
writable-not_occupied r k h = let (rests, held) = writable_cases r k h in rw (rests, held) refl

pub writable-ReadOf :
    (r : Reader) (k j : Count) (frames : Stack) → writable r k ≡ true → ReadOf j frames r
writable-ReadOf resting k j frames h = tt
writable-ReadOf looked k j frames h = absurd (cc h)
writable-ReadOf (seen num) k j frames h = absurd (cc h)
writable-ReadOf (holding num m) k j frames h = absurd (cc h)
writable-ReadOf (copied fs m) k j frames h = absurd (cc h)
writable-ReadOf (released fs m) k j frames h = absurd (cc h)

pub reserve-ReadOf :
    (r : Reader) (frames : Stack) → ReadOf (counted 0) frames r → ReadOf locked frames r
reserve-ReadOf r frames v = writable-ReadOf r locked locked frames (free-writable r frames v)

pub bump-ReadOf :
    (r : Reader) (k : ℕ) (frames : Stack)
    → ReadOf (counted k) frames r
    → ReadOf (counted (suc k)) frames r
bump-ReadOf resting k frames v = tt
bump-ReadOf looked k frames v = refl
bump-ReadOf (seen num) k frames v = (refl, v.1)
bump-ReadOf (holding num m) k frames v = absurd (cc (v.0))
bump-ReadOf (copied fs m) k frames v = absurd (cc (v.0))
bump-ReadOf (released fs m) k frames v = absurd (cc v)

pub bump-occupied :
    (r : Reader) (k : ℕ) → occupied r (counted k) ≡ true → occupied r (counted (suc k)) ≡ true
bump-occupied resting k h = refl
bump-occupied looked k h = refl
bump-occupied (seen num) k h = refl
bump-occupied (holding num m) k h = refl
bump-occupied (copied fs m) k h = refl
bump-occupied (released fs m) k h = h

pub inspects-loaded : (t : Stack) (k : Count) → inspects (loaded t k) ≡ is_positive k
inspects-loaded t locked = refl
inspects-loaded t (counted zero) = refl
inspects-loaded t (counted (suc k)) = refl

pub Knows-reloaded :
    (r : Reader) (k : Count) (t frames : Stack)
    → t ≡ frames
    → occupied r k ≡ true
    → ReadOf k frames r
    → Knows frames (reloaded t k)
Knows-reloaded r locked t frames same h v = tt
Knows-reloaded r (counted k) t frames same h v = (same, occupied-positive r k frames h v)

pub Knows-any : (frames : Stack) (p : Pc) → inspects p ≡ false → writes p ≡ false → Knows frames p
Knows-any frames idle h k = tt
Knows-any frames (entered t) h k = tt
Knows-any frames (loaded t c) h k = tt
Knows-any frames (reserved t) h k = tt
Knows-any frames (writing t) h k = tt
Knows-any frames (written t) h k = absurd (cc k)
Knows-any frames (matched t) h k = absurd (cc h)
Knows-any frames (reloaded t c) h k = absurd (cc h)
Knows-any frames (bumped t) h k = tt
Knows-any frames (leaving t) h k = tt

-- A thread that relies on nothing.
pub plain-Local : (c : Cell) (p : Pc) → inspects p ≡ false → writes p ≡ false → Local c p
plain-Local c p h k = record {
  inspected = λ e. absurd (cc (e, h));
  owned = λ e. absurd (cc (e, k));
  knows = Knows-any c.frames p h k;
}
