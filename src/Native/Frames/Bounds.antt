-- ===== src/Native/Frames/Bounds.antt =====
-- googlecloudprofiler/src/populate_frames.cc: the frames that the walk stores fit the buffer.
use cloud_profiler_python.Prelude.{
  ℕ, zero, suc, ◌≤◌, ◌≡◌, refl, Option, none, some, [], arith, inl, inr,
}
use cloud_profiler_python.Prelude.{◌==◌, nat_eq, length, Option-cases, Bool-cases}
use cloud_profiler_python.Native.Stack.{CallFrame, Stack, max_frames_to_capture}
use cloud_profiler_python.Native.Frames.{
  Version, before_311, py_311, py_312, py_313, ThreadState, Memory, safe_copy, captured, less_room,
  prepend_to, walk, walk_objects, populate_frames, current_of,
}
use cloud_profiler_python.Native.Frames.Walk.{walk_objects-length}

module _ (mem : Memory) where
  prepend_to-length :
      (f : Option CallFrame) (room : ℕ) (rest : Option Stack) {s : Stack}
      → prepend_to mem f rest ≡ some s
      → ((r : Stack) → rest ≡ some r → length r ≤ less_room mem f (suc room))
      → length s ≤ suc room
  prepend_to-length f room none h bound = absurd (cc h)
  prepend_to-length none room (some r) h bound = ground (arith, h, bound r refl)
  prepend_to-length (some f) room (some r) h bound = ground (arith, h, bound r refl)

  walk-length :
      (version : Version) (fuel room faddr : ℕ) {s : Stack}
      → walk mem version fuel room faddr ≡ some s
      → length s ≤ room
  unfolding walk
  walk-length version zero room faddr h = absurd (cc h)
  walk-length version (suc fuel) zero faddr h = ground (arith, h)
  walk-length version (suc fuel) (suc room) faddr {s} h = elim (Bool-cases (faddr == 0)) [
    | inl null ↦ ground (arith, h, null)
    | inr more ↦ elim (Option-cases (safe_copy mem.read_frame faddr)) [
      | inl out ↦ ground (arith, h, more, out)
      | inr (fr, found) ↦
          prepend_to-length (captured mem version fr) room
            (walk mem version fuel (less_room mem (captured mem version fr) (suc room)) fr.previous)
            (ground (arith, h, more, found))
            (λ r e.
              walk-length version fuel (less_room mem (captured mem version fr) (suc room))
                fr.previous e)
    ]
  ]

  current-length :
      (version : Version) (fuel : ℕ) (current : Option ℕ) {s : Stack}
      → (elim current [
        | none ↦ some []
        | some faddr ↦ walk mem version fuel max_frames_to_capture faddr
      ])
        ≡ some s
      → length s ≤ max_frames_to_capture
  current-length version fuel none h = ground (arith, h)
  current-length version fuel (some faddr) h =
      walk-length version fuel max_frames_to_capture faddr h

  objects-length :
      (frame : ℕ) {s : Stack}
      → walk_objects mem max_frames_to_capture frame ≡ some s
      → length s ≤ max_frames_to_capture
  objects-length frame h =
      let (r, e, bound) = walk_objects-length mem max_frames_to_capture frame in
      ground (arith, h, e, bound)

  -- The frames that the walk returns fit the buffer, whatever the memory holds.
  pub populate_frames-length :
      (version : Version) (fuel : ℕ) (thread : Option ThreadState) {s : Stack}
      → populate_frames mem version fuel thread ≡ some s
      → length s ≤ max_frames_to_capture
  unfolding populate_frames
  populate_frames-length version fuel none h = ground (arith, h)
  populate_frames-length before_311 fuel (some ts) h = objects-length ts.frame h
  populate_frames-length py_311 fuel (some ts) h = current-length py_311 fuel (current_of mem ts) h
  populate_frames-length py_312 fuel (some ts) h = current-length py_312 fuel (current_of mem ts) h
  populate_frames-length py_313 fuel (some ts) h =
      walk-length py_313 fuel max_frames_to_capture ts.current_frame h
