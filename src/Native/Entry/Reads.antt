-- ===== src/Native/Entry/Reads.antt =====
-- googlecloudprofiler/src/stacktraces.cc: what each step of `Extract` does to the entry.
use cloud_profiler_python.Prelude.{take_all}
use cloud_profiler_python.Prelude.{suc, ◌≡◌, refl, ap, ◌∙◌, true, false, arith}
use cloud_profiler_python.Prelude.{nat_eq, list_eq, length, take}
use mathlib.Core.Path.{subst}
use cloud_profiler_python.Native.Stack.{frame_eq}
use cloud_profiler_python.Native.Entry.{
  Count, locked, counted, Reader, looked, Cell, Pc, idle, entered, loaded, reserved, writing,
  written, matched, reloaded, bumped, leaving, Read, look, see, exchange, copy, wait_ends, release,
}
use cloud_profiler_python.Native.Entry.Local.{
  is_active, inspects, is_positive, occupied, writable, Local, ReadOf, IsRead, Balances,
  counted-not_writable,
}

positive-not_writable : (r : Reader) (k : Count) → is_positive k ≡ true → writable r k ≡ false
positive-not_writable r locked h = absurd (cc h)
positive-not_writable r (counted k) h = counted-not_writable r k

-- A thread that has seen the entry in use counts as an active update.
pub inspects-active : (q : Pc) → inspects q ≡ true → is_active q ≡ 1
inspects-active idle h = absurd (cc h)
inspects-active (entered t) h = refl
inspects-active (loaded t k) h = refl
inspects-active (reserved t) h = refl
inspects-active (writing t) h = absurd (cc h)
inspects-active (written t) h = absurd (cc h)
inspects-active (matched t) h = refl
inspects-active (reloaded t k) h = refl
inspects-active (bumped t) h = refl
inspects-active (leaving t) h = refl

-- What a thread in `Add` knows still holds after a step of `Extract`.
pub Read-Local :
    {c c' : Cell}
    → Read c c'
    → IsRead c
    → (q : Pc) → (c.active_updates ≡ 0 → is_active q ≡ 0)
    → Local c q
    → Local c' q
Read-Local (look c k e f) v q quiet o = record {
  inspected = λ h. ap is_positive f;
  owned = λ h. absurd (cc (o.owned h, f, counted-not_writable c.reader (suc k)));
  knows = o.knows;
}
Read-Local (see c e) v q quiet o =
    let positive : ReadOf c.count c.frames looked = subst (ReadOf c.count c.frames) e v in
    record {
      inspected = λ h. positive;
      owned = λ h. absurd (cc (o.owned h, positive-not_writable c.reader c.count positive));
      knows = o.knows;
    }
Read-Local (exchange c num k e f) v q quiet o = record {
  inspected = λ h. refl;
  owned = λ h. absurd (cc (o.owned h, f, counted-not_writable c.reader k));
  knows = o.knows;
}
Read-Local (copy c num k e) v q quiet o = record {
  inspected = λ h. refl;
  owned = λ h. absurd (cc (subst (λ r. writable r c.count ≡ true) e (o.owned h)));
  knows = o.knows;
}
Read-Local (wait_ends c fs k e none_active) v q quiet o = record {
  inspected = λ h. absurd (cc (quiet none_active, inspects-active q h));
  owned = λ h. absurd (cc (subst (λ r. writable r c.count ≡ true) e (o.owned h)));
  knows = o.knows;
}
Read-Local (release c fs k e) v q quiet o = record {
  inspected = λ h. absurd (cc (subst (λ r. occupied r c.count ≡ true) e (o.inspected h)));
  owned = λ h. absurd (cc (subst (λ r. writable r c.count ≡ true) e (o.owned h)));
  knows = o.knows;
}

pub Read-IsRead : {c c' : Cell} → Read c c' → IsRead c → IsRead c'
Read-IsRead (look c k e f) v = ap is_positive f
Read-IsRead (see c e) v = (subst (ReadOf c.count c.frames) e v, refl)
Read-IsRead (exchange c num k e f) v = (refl, (subst (ReadOf c.count c.frames) e v).1)
Read-IsRead (copy c num k e) v =
    let (held, whole) = subst (ReadOf c.count c.frames) e v in
    (held, ap (λ n. take n c.frames) whole ∙ take_all (length c.frames) c.frames (omega arith))
Read-IsRead (wait_ends c fs k e none_active) v = (subst (ReadOf c.count c.frames) e v).0
Read-IsRead (release c fs k e) v = tt

pub Read-Balances : {c c' : Cell} → Read c c' → IsRead c → Balances c → Balances c'
Read-Balances (look c k e f) v b q = ground (arith, b q, e)
Read-Balances (see c e) v b q = ground (arith, b q, e)
Read-Balances (exchange c num k e f) v b q = ground (arith, b q, e, f)
Read-Balances (copy c num k e) v b q =
    let (held, whole) = subst (ReadOf c.count c.frames) e v in
    let same : q (take num c.frames) ≡ q c.frames =
      ap q (ap (λ n. take n c.frames) whole ∙ take_all (length c.frames) c.frames (omega arith)) in
    ground (arith, b q, e, held, same)
Read-Balances (wait_ends c fs k e none_active) v b q = ground (arith, b q, e)
Read-Balances (release c fs k e) v b q =
    let held : c.count ≡ locked = subst (ReadOf c.count c.frames) e v in
    ground (arith, b q, e, held)

pub Read-active : {c c' : Cell} → Read c c' → c'.active_updates ≡ c.active_updates
Read-active (look c k e f) = refl
Read-active (see c e) = refl
Read-active (exchange c num k e f) = refl
Read-active (copy c num k e) = refl
Read-active (wait_ends c fs k e none_active) = refl
Read-active (release c fs k e) = refl
