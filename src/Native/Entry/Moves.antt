-- ===== src/Native/Entry/Moves.antt =====
-- googlecloudprofiler/src/stacktraces.cc: what each step of `Add` does to the entry.
use cloud_profiler_python.Prelude.{◌+◌, ◌≤◌, ◌≡◌, refl, ap, true, false, arith}
use cloud_profiler_python.Prelude.{nat_eq, list_eq, list_beq_iff, Bool-cases, inl, inr}
use mathlib.Core.Path.{subst}
use cloud_profiler_python.Native.Stack.{frame_eq}
use cloud_profiler_python.Native.Entry.{
  counted, Cell, Pc, Move, enter, load, reserve, not_reserved, pass_locked, differ, agree, reload,
  bump, not_bumped, step_back, write, publish, leave_bumped, leave,
}
use cloud_profiler_python.Native.Entry.Local.{
  is_active, inspects, writes, occupied, writable, Local, ReadOf, IsRead, Balances,
  positive-occupied, free-writable, free-not_occupied, counted-not_writable, writable_cases,
  writable-not_occupied, writable-ReadOf, reserve-ReadOf, bump-ReadOf, bump-occupied,
  inspects-loaded, Knows-reloaded, plain-Local,
}

pub Move-active :
    {c c' : Cell} {p p' : Pc}
    → Move c p c' p'
    → is_active p ≤ c.active_updates
    → c'.active_updates + is_active p ≡ c.active_updates + is_active p'
Move-active (enter c t) h = omega arith
Move-active (load c t) h = refl
Move-active (reserve c t e) h = refl
Move-active (not_reserved c t) h = refl
Move-active (pass_locked c t) h = refl
Move-active (differ c t k e) h = refl
Move-active (agree c t k e) h = refl
Move-active (reload c t) h = refl
Move-active (bump c t k e) h = refl
Move-active (not_bumped c t k) h = refl
Move-active (step_back c t) h = omega (arith, h)
Move-active (write c t) h = refl
Move-active (publish c t) h = refl
Move-active (leave_bumped c t) h = omega (arith, h)
Move-active (leave c t) h = omega (arith, h)

-- What the thread knows after its step.
pub Move-Local : {c c' : Cell} {p p' : Pc} → Move c p c' p' → Local c p → IsRead c → Local c' p'
Move-Local (enter c t) l v = plain-Local _ _ refl refl
Move-Local (load c t) l v = record {
  inspected =
      λ h. positive-occupied c.reader c.count c.frames (cc (h, inspects-loaded t c.count)) v;
  owned = λ h. absurd (cc h);
  knows = tt;
}
Move-Local (reserve c t e) l v =
    let free : ReadOf (counted 0) c.frames c.reader = subst (λ k. ReadOf k c.frames c.reader) e v in
    record {
      inspected = λ h. absurd (cc h);
      owned = λ h. free-writable c.reader c.frames free;
      knows = tt;
    }
Move-Local (not_reserved c t) l v = plain-Local _ _ refl refl
Move-Local (pass_locked c t) l v = plain-Local _ _ refl refl
Move-Local (differ c t k e) l v = plain-Local _ _ refl refl
Move-Local (agree c t k e) l v = record {
  inspected = λ h. l.inspected refl;
  owned = λ h. absurd (cc h);
  knows = (list_beq_iff t c.frames).0 e;
}
Move-Local (reload c t) l v = record {
  inspected = λ h. l.inspected refl;
  owned = λ h. absurd (cc h);
  knows = Knows-reloaded c.reader c.count t c.frames l.knows (l.inspected refl) v;
}
Move-Local (bump c t k e) l v = plain-Local _ _ refl refl
Move-Local (not_bumped c t k) l v = plain-Local _ _ refl refl
Move-Local (step_back c t) l v = record {
  inspected = λ h. absurd (cc h);
  owned = λ h. l.owned refl;
  knows = tt;
}
Move-Local (write c t) l v = record {
  inspected = λ h. absurd (cc h);
  owned = λ h. l.owned refl;
  knows = refl;
}
Move-Local (publish c t) l v = plain-Local _ _ refl refl
Move-Local (leave_bumped c t) l v = plain-Local _ _ refl refl
Move-Local (leave c t) l v = plain-Local _ _ refl refl

kept :
    (c c' : Cell) (q : Pc)
    → Local c q
    → c'.reader ≡ c.reader
    → c'.count ≡ c.count
    → c'.frames ≡ c.frames
    → Local c' q
kept c c' q l e f g = record {
  inspected = λ h. rw (e, f) (l.inspected h);
  owned = λ h. rw (e, f) (l.owned h);
  knows = rw g l.knows;
}

-- While a thread has the entry to itself, another relies on nothing.
plain_beside :
    (c : Cell) (q : Pc) → Local c q → writable c.reader c.count ≡ true → inspects q ≡ false
plain_beside c q l own = elim (Bool-cases (inspects q)) [
  | inl inspecting ↦
      absurd (cc (l.inspected inspecting, writable-not_occupied c.reader c.count own))
  | inr not_inspecting ↦ not_inspecting
]

-- What another thread knows still holds, where the entry is not locked by both.
pub Move-other :
    {c c' : Cell} {p p' : Pc}
    → Move c p c' p'
    → (q : Pc) → (writes p ≡ true → writes q ≡ false)
    → Local c p
    → IsRead c
    → Local c q
    → Local c' q
Move-other (enter c t) q alone l v o = kept c _ q o refl refl refl
Move-other (load c t) q alone l v o = o
Move-other (reserve c t e) q alone l v o =
    let free : ReadOf (counted 0) c.frames c.reader = subst (λ k. ReadOf k c.frames c.reader) e v in
    record {
      inspected = λ h. absurd (cc (o.inspected h, e, free-not_occupied c.reader c.frames free));
      owned = λ h. absurd (cc (o.owned h, e, counted-not_writable c.reader 0));
      knows = o.knows;
    }
Move-other (not_reserved c t) q alone l v o = o
Move-other (pass_locked c t) q alone l v o = o
Move-other (differ c t k e) q alone l v o = o
Move-other (agree c t k e) q alone l v o = o
Move-other (reload c t) q alone l v o = o
Move-other (bump c t k e) q alone l v o = record {
  inspected =
      λ h. bump-occupied c.reader k (subst (λ j. occupied c.reader j ≡ true) e (o.inspected h));
  owned = λ h. absurd (cc (o.owned h, e, counted-not_writable c.reader k));
  knows = o.knows;
}
Move-other (not_bumped c t k) q alone l v o = o
Move-other (step_back c t) q alone l v o = kept c _ q o refl refl refl
Move-other (write c t) q alone l v o =
    plain-Local _ q (plain_beside c q o (l.owned refl)) (alone refl)
Move-other (publish c t) q alone l v o =
    plain-Local _ q (plain_beside c q o (l.owned refl)) (alone refl)
Move-other (leave_bumped c t) q alone l v o = kept c _ q o refl refl refl
Move-other (leave c t) q alone l v o = kept c _ q o refl refl refl

pub Move-IsRead : {c c' : Cell} {p p' : Pc} → Move c p c' p' → Local c p → IsRead c → IsRead c'
Move-IsRead (enter c t) l v = v
Move-IsRead (load c t) l v = v
Move-IsRead (reserve c t e) l v =
    reserve-ReadOf c.reader c.frames (subst (λ k. ReadOf k c.frames c.reader) e v)
Move-IsRead (not_reserved c t) l v = v
Move-IsRead (pass_locked c t) l v = v
Move-IsRead (differ c t k e) l v = v
Move-IsRead (agree c t k e) l v = v
Move-IsRead (reload c t) l v = v
Move-IsRead (bump c t k e) l v =
    bump-ReadOf c.reader k c.frames (subst (λ j. ReadOf j c.frames c.reader) e v)
Move-IsRead (not_bumped c t k) l v = v
Move-IsRead (step_back c t) l v = v
Move-IsRead (write c t) l v = writable-ReadOf c.reader c.count c.count t (l.owned refl)
Move-IsRead (publish c t) l v = writable-ReadOf c.reader c.count (counted 1) c.frames (l.owned refl)
Move-IsRead (leave_bumped c t) l v = v
Move-IsRead (leave c t) l v = v

-- No thread locks the entry while another has it.
pub Move-alone :
    {c c' : Cell} {p p' : Pc}
    → Move c p c' p'
    → writes p' ≡ true
    → (q : Pc) → Local c q
    → writes q ≡ true
    → writes p ≡ true
Move-alone (enter c t) h q o w = absurd (cc h)
Move-alone (load c t) h q o w = absurd (cc h)
Move-alone (reserve c t e) h q o w = absurd (cc (o.owned w, e, counted-not_writable c.reader 0))
Move-alone (not_reserved c t) h q o w = absurd (cc h)
Move-alone (pass_locked c t) h q o w = absurd (cc h)
Move-alone (differ c t k e) h q o w = absurd (cc h)
Move-alone (agree c t k e) h q o w = absurd (cc h)
Move-alone (reload c t) h q o w = absurd (cc h)
Move-alone (bump c t k e) h q o w = absurd (cc h)
Move-alone (not_bumped c t k) h q o w = absurd (cc h)
Move-alone (step_back c t) h q o w = refl
Move-alone (write c t) h q o w = refl
Move-alone (publish c t) h q o w = absurd (cc h)
Move-alone (leave_bumped c t) h q o w = absurd (cc h)
Move-alone (leave c t) h q o w = absurd (cc h)

pub Move-Balances :
    {c c' : Cell} {p p' : Pc} → Move c p c' p' → Local c p → IsRead c → Balances c → Balances c'
Move-Balances (enter c t) l v b q = b q
Move-Balances (load c t) l v b q = b q
Move-Balances (reserve c t e) l v b q = ground (arith, b q, e)
Move-Balances (not_reserved c t) l v b q = b q
Move-Balances (pass_locked c t) l v b q = b q
Move-Balances (differ c t k e) l v b q = b q
Move-Balances (agree c t k e) l v b q = b q
Move-Balances (reload c t) l v b q = b q
Move-Balances (bump c t k e) l v b q =
    let same : q t ≡ q c.frames = ap q (l.knows.0) in ground (arith, b q, e, same)
Move-Balances (not_bumped c t k) l v b q = b q
Move-Balances (step_back c t) l v b q = b q
Move-Balances (write c t) l v b q =
    let (rests, held) = writable_cases c.reader c.count (l.owned refl) in
    ground (arith, b q, rests, held)
Move-Balances (publish c t) l v b q =
    let (rests, held) = writable_cases c.reader c.count (l.owned refl) in
    let same : q t ≡ q c.frames = ap q l.knows in ground (arith, b q, rests, held, same)
Move-Balances (leave_bumped c t) l v b q = b q
Move-Balances (leave c t) l v b q = b q
