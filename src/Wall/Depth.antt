-- ===== src/Wall/Depth.antt =====
-- googlecloudprofiler/pythonprofiler.py: how much of a stack is recorded.
use cloud_profiler_python.Prelude.{ℕ, zero, suc, ◌+◌, ◌≡◌, refl, List, [], ◌∷◌, arith}
use cloud_profiler_python.Prelude.{nat_eq, string_eq}
use cloud_profiler_python.Prelude.{take}
use cloud_profiler_python.Builder.{Frame, frame_eq}
use cloud_profiler_python.Prelude.{list_eq}
use cloud_profiler_python.Wall.{max_stack_depth, record_from, record_trace}

record_from-take :
    (depth room : ℕ) (stack : List Frame)
    → depth + room ≡ max_stack_depth
    → record_from depth stack ≡ take room stack
unfolding record_from
record_from-take depth zero [] e = refl
record_from-take depth (suc room) [] e = refl
record_from-take depth zero (frame ∷ back) e = ground arith
record_from-take depth (suc room) (frame ∷ back) e =
    ground (arith, record_from-take (depth + 1) room back (omega arith))

-- `_record_trace` returns the first 128 frames of the stack, leaf first, and all of a shorter stack.
pub record_trace-take : (stack : List Frame) → record_trace stack ≡ take 128 stack
unfolding record_trace
record_trace-take stack = record_from-take 0 128 stack (omega arith)
