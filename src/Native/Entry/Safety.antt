-- ===== src/Native/Entry/Safety.antt =====
-- googlecloudprofiler/src/stacktraces.cc: what the protocol on an entry is for.
use cloud_profiler_python.Prelude.{ℕ, ◌≡◌, true, false, inl, inr}
use cloud_profiler_python.Prelude.{nat_eq, list_eq, Bool-cases}
use cloud_profiler_python.Native.Stack.{frame_eq}
use cloud_profiler_python.Native.Entry.{resting, System, Reach}
use cloud_profiler_python.Native.Entry.Local.{
  inspects, writes, writable_cases, writable-not_occupied,
}
use cloud_profiler_python.Native.Entry.Invariant.{Reach-IsEntry}

-- However the accesses of any number of calls of `Add` and of one `Extract` after the other are
-- interleaved: while a thread in `Add` relies on the frames of an entry that it has found in use, no
-- thread changes them, and while a thread changes them, no other does and `Extract` is not at work.
pub Reach-separates :
    (n : ℕ) (s : System)
    → Reach n s
    → ((i j : ℕ) → inspects (s.pcs i) ≡ true → writes (s.pcs j) ≡ false)
      × ((i j : ℕ) → writes (s.pcs i) ≡ true → writes (s.pcs j) ≡ true → i ≡ j)
      × ((i : ℕ) → writes (s.pcs i) ≡ true → s.cell.reader ≡ resting)
Reach-separates n s reach =
    let v = Reach-IsEntry n s reach in
    (
      λ i j looks. elim (Bool-cases (writes (s.pcs j))) [
        | inl changes ↦ absurd (
            cc (
              (v.local i).inspected looks,
              writable-not_occupied s.cell.reader s.cell.count ((v.local j).owned changes),
            ))
        | inr steady ↦ steady
      ],
      v.alone,
      λ i changes. (writable_cases s.cell.reader s.cell.count ((v.local i).owned changes)).0,
    )
