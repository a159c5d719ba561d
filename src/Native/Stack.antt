-- ===== src/Native/Stack.antt =====
-- googlecloudprofiler/src/stacktraces.h and stacktraces.cc: the frames of a native trace, their
-- comparison and their hash. A pointer is its address, and 0 is `nullptr`.
use cloud_profiler_python.Prelude.{
  ℕ, ◌+◌, ◌-◌, ◌*◌, ◌≡◌, Bool, true, ◌&&◌, ◌↔◌, List, [], ◌∷◌, arith,
}
use cloud_profiler_python.Prelude.{Eq, nat_beq, nat_beq_iff}
use cloud_profiler_python.Prelude.Int.{ℤ, pos, negsuc, int_beq, int_beq_iff}
use Prim.Native.Nat.{◌/◌, ◌%◌, ◌^◌, bit_xor}

pub record CallFrame : Type 0 where
  pub lineno : ℤ
  pub py_code : ℕ

-- `CallTraceErrors`
abbrev pub unknown_error : ℤ
unknown_error = pos 0

abbrev pub no_py_state : ℤ
no_py_state = negsuc 0

abbrev pub max_frames_to_capture : ℕ
max_frames_to_capture = 128

-- The frames of a `CallTrace`, `num_frames` of them.
abbrev pub Stack : Type 0
Stack = List CallFrame

abbrev pub frame_beq : CallFrame → CallFrame → Bool
frame_beq f g = int_beq f.lineno g.lineno && nat_beq f.py_code g.py_code

pub frame_beq_iff : (f g : CallFrame) → (frame_beq f g ≡ true) ↔ (f ≡ g)
frame_beq_iff f g = ground (arith, int_beq_iff f.lineno g.lineno, nat_beq_iff f.py_code g.py_code)

-- `Equal` on two traces of the same number of frames is `==` on their lists.
instance abbrev pub frame_eq : Eq CallFrame
frame_eq = record { beq = frame_beq; beq_iff = frame_beq_iff }

-- `static_cast<uintptr_t>(lineno)`: the number modulo 2^64.
abbrev pub word : ℤ → ℕ
word (pos n) = n % 2 ^ 64
word (negsuc n) = 2 ^ 64 - 1 - n % 2 ^ 64

-- `h += x; h += h << 10; h ^= h >> 6`
unfoldable pub mix : ℕ → ℕ → ℕ
mix h x =
    let added = (h + x) % 2 ^ 64 in
    let spread = (added + added * 2 ^ 10) % 2 ^ 64 in bit_xor spread (spread / 2 ^ 6)

unfoldable pub mix_frames : ℕ → Stack → ℕ
mix_frames h [] = h
mix_frames h (f ∷ fs) = mix_frames (mix (mix h (word f.lineno)) (f.py_code % 2 ^ 64)) fs

unfoldable pub calculate_hash : Stack → ℕ
calculate_hash frames =
    let h = mix_frames 0 frames in
    let spread = (h + h * 2 ^ 3) % 2 ^ 64 in bit_xor spread (spread / 2 ^ 11)
