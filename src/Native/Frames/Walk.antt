-- ===== src/Native/Frames/Walk.antt =====
-- googlecloudprofiler/src/populate_frames.cc: when the walk ends, and with which frames.
use cloud_profiler_python.Prelude.{
  ℕ, zero, suc, ◌≤◌, ◌<◌, ◌≡◌, ◌≢◌, refl, Option, none, some, List, [], ◌∷◌, arith, inl, inr,
}
use cloud_profiler_python.Prelude.{◌==◌, nat_eq, length, take, Option-cases, Bool-cases}
use cloud_profiler_python.Native.Stack.{Stack}
use cloud_profiler_python.Native.Frames.{
  Version, before_311, py_311, py_312, py_313, InterpreterFrame, ThreadState, Memory, safe_copy,
  captured, prepend, walk, walk_objects, populate_frames, current_of,
}

module _ (mem : Memory) where
  -- The frames from an address on, down to a null or an unreadable pointer.
  pub data Chain : ℕ → List InterpreterFrame → Type 0 where
    ends : (faddr : ℕ) → safe_copy mem.read_frame faddr ≡ none → Chain faddr []
    link :
        (faddr : ℕ) (fr : InterpreterFrame) (frs : List InterpreterFrame)
        → safe_copy mem.read_frame faddr ≡ some fr
        → Chain fr.previous frs
        → Chain faddr (fr ∷ frs)

  -- The frames of the chain that are not skipped.
  abbrev pub all_captured : Version → List InterpreterFrame → Stack
  all_captured version [] = []
  all_captured version (fr ∷ frs) = prepend mem (captured mem version fr) (all_captured version frs)

  nonzero :
      (faddr : ℕ) {fr : InterpreterFrame} → safe_copy mem.read_frame faddr ≡ some fr → faddr ≢ 0
  unfolding safe_copy
  nonzero faddr h = ground (arith, h)

  walk-take :
      (version : Version) (fuel room faddr : ℕ) (frs : List InterpreterFrame)
      → Chain faddr frs
      → length frs < fuel
      → walk mem version fuel room faddr ≡ some (take room (all_captured version frs))
  unfolding walk
  walk-take version zero room faddr frs chain enough = absurd (omega arith)
  walk-take version (suc fuel) zero faddr frs chain enough = ground arith
  walk-take version (suc fuel) (suc room) faddr _ (ends _ out) enough = ground (arith, out)
  walk-take version (suc fuel) (suc room) faddr _ (link _ fr frs found rest) enough =
      elim (Option-cases (captured mem version fr)) [
        | inl skipped ↦ ground (
          arith,
          found,
          nonzero faddr found,
          skipped,
          walk-take version fuel (suc room) fr.previous frs rest (omega arith),
        )
        | inr (f, stored) ↦ ground (
          arith,
          found,
          nonzero faddr found,
          stored,
          walk-take version fuel room fr.previous frs rest (omega arith),
        )
      ]

  pub walk_objects-length :
      (room frame : ℕ) → (s : Stack) × (walk_objects mem room frame ≡ some s) × (length s ≤ room)
  unfolding walk_objects
  walk_objects-length zero frame = ([], refl, omega arith)
  walk_objects-length (suc room) frame =
      let (s, e, h) = walk_objects-length room (mem.frame_object frame).f_back in
      let object = mem.frame_object frame in
      elim (Bool-cases (frame == 0)) [
        | inl null ↦ ([], ground (arith, null), omega arith)
        | inr more ↦ (
          record { lineno = object.f_lineno; py_code = object.f_code } ∷ s,
          ground (arith, more, e),
          omega (arith, h),
        )
      ]

  -- Where the walk begins, on 3.11 and later.
  abbrev pub first_frame : Version → ThreadState → ℕ
  first_frame py_313 ts = ts.current_frame
  first_frame version ts = elim (current_of mem ts) [ none ↦ 0 | some faddr ↦ faddr ]

  null-Chain : (frs : List InterpreterFrame) → Chain 0 frs → frs ≡ []
  null-Chain _ (ends _ _) = refl
  null-Chain _ (link _ fr frs found rest) = absurd (nonzero 0 found refl)

  current-take :
      (version : Version) (fuel : ℕ) (current : Option ℕ) (frs : List InterpreterFrame)
      → Chain (elim current [ none ↦ 0 | some faddr ↦ faddr ]) frs
      → length frs < fuel
      → (elim current [ none ↦ some [] | some faddr ↦ walk mem version fuel 128 faddr ])
        ≡ some (take 128 (all_captured version frs))
  current-take version fuel none frs chain enough = rw (null-Chain frs chain) refl
  current-take version fuel (some faddr) frs chain enough =
      walk-take version fuel 128 faddr frs chain enough

  -- A walk on 3.11, 3.12 or 3.13 whose chain of frames is finite ends within one round for each frame and
  -- one more, with the first 128 of the frames that are not skipped.
  pub populate_frames-take :
      (version : Version) (fuel : ℕ) (ts : ThreadState) (frs : List InterpreterFrame)
      → version ≢ before_311
      → Chain (first_frame version ts) frs
      → length frs < fuel
      → populate_frames mem version fuel (some ts) ≡ some (take 128 (all_captured version frs))
  unfolding populate_frames
  populate_frames-take before_311 fuel ts frs new chain enough = absurd (new refl)
  populate_frames-take py_311 fuel ts frs new chain enough =
      current-take py_311 fuel (current_of mem ts) frs chain enough
  populate_frames-take py_312 fuel ts frs new chain enough =
      current-take py_312 fuel (current_of mem ts) frs chain enough
  populate_frames-take py_313 fuel ts frs new chain enough =
      walk-take py_313 fuel 128 ts.current_frame frs chain enough

  -- A frame that is skipped and links to itself keeps the walk going for ever.
  pub walk-loops :
      (version : Version) (fuel room faddr : ℕ) (fr : InterpreterFrame)
      → safe_copy mem.read_frame faddr ≡ some fr
      → captured mem version fr ≡ none
      → fr.previous ≡ faddr
      → walk mem version fuel (suc room) faddr ≡ none
  unfolding walk
  walk-loops version zero room faddr fr found skipped loops = refl
  walk-loops version (suc fuel) room faddr fr found skipped loops = ground (
    arith,
    found,
    nonzero faddr found,
    skipped,
    loops,
    walk-loops version fuel room faddr fr found skipped loops,
  )
