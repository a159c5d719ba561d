-- ===== src/Native/Frames.antt =====
-- googlecloudprofiler/src/populate_frames.cc: the walk over the interpreter's frames in the signal handler,
-- for each of the interpreters that the file is compiled for. What `SafeCopy` reads of the process's own
-- memory is a parameter: `none` is a copy that fails. Instruction pointers count code units.
pub mod Walk
pub mod Bounds
use cloud_profiler_python.Prelude.{
  ℕ, zero, suc, ◌+◌, ◌-◌, Bool, true, false, not, ◌&&◌, ◌||◌, Option, none, some, List, [], ◌∷◌,
}
use cloud_profiler_python.Prelude.{◌==◌, nat_eq, if◌then◌else◌, ltb}
use cloud_profiler_python.Prelude.Int.{ℤ, pos, negsuc, ◌-ℤ◌, ◌*ℤ◌}
use cloud_profiler_python.Native.Stack.{CallFrame, Stack, no_py_state, max_frames_to_capture}
use Prim.Native.Nat.{◌%◌, ◌^◌}

-- `PY_VERSION_HEX`
pub data Version : Type 0 where
  before_311 py_311 py_312 py_313 : Version

-- `fr->owner`
pub data Owner : Type 0 where
  by_thread by_generator by_frame_object by_cstack : Owner

-- A copy of an `_PyInterpreterFrame`: `f_code` or `f_executable`, and `prev_instr` or `instr_ptr`.
pub record InterpreterFrame : Type 0 where
  pub code : ℕ
  pub owner : Owner
  pub instr : ℕ
  pub previous : ℕ

-- A copy of a `PyCodeObject`: whether its type is `PyCode_Type`, and `_co_firsttraceable`.
pub record CodeCopy : Type 0 where
  pub is_code : Bool
  pub first_traceable : ℕ

-- A `PyFrameObject`, which is read directly.
pub record FrameObject : Type 0 where
  pub f_lineno : ℤ
  pub f_code : ℕ
  pub f_back : ℕ

pub record ThreadState : Type 0 where
  pub cframe : ℕ
  pub current_frame : ℕ
  pub frame : ℕ

-- `read_current` reads the field `current_frame` of a `_PyCFrame`; `code_start` is `_PyCode_CODE`.
pub record Memory : Type 0 where
  pub read_frame : ℕ → Option InterpreterFrame
  pub read_code : ℕ → Option CodeCopy
  pub read_current : ℕ → Option ℕ
  pub code_start : ℕ → ℕ
  pub frame_object : ℕ → FrameObject

-- `SafeCopy`
unfoldable pub safe_copy : {A : Type 0} → (ℕ → Option A) → ℕ → Option A
safe_copy read address = if address == 0 then none else read address

-- `static_cast<int>`: the low 32 bits as a signed number.
abbrev pub signed32 : ℕ → ℤ
signed32 w = if ltb w (2 ^ 31) then pos w else negsuc (2 ^ 32 - w - 1)

unfoldable pub to_int : ℤ → ℤ
to_int (pos n) = signed32 (n % 2 ^ 32)
to_int (negsuc n) = signed32 (2 ^ 32 - 1 - n % 2 ^ 32)

module _ (mem : Memory) where
  -- `FrameCode`, for 3.13
  unfoldable pub frame_code : InterpreterFrame → Option CodeCopy
  frame_code fr = elim (safe_copy mem.read_code fr.code) [
    | none ↦ none
    | some copy ↦ if copy.is_code then some copy else none
  ]

  -- The instruction pointer stands in front of the first traceable instruction.
  abbrev pub in_prologue : InterpreterFrame → CodeCopy → Bool
  in_prologue fr copy = ltb fr.instr (mem.code_start fr.code + copy.first_traceable)

  abbrev pub in_prologue_of : InterpreterFrame → Option CodeCopy → Bool
  in_prologue_of fr none = true
  in_prologue_of fr (some copy) = in_prologue fr copy

  -- `FrameIsIncomplete`; `code` is what is read of the code object.
  unfoldable pub frame_is_incomplete : Version → InterpreterFrame → Option CodeCopy → Bool
  frame_is_incomplete version fr code = elim fr.owner [
    | by_generator ↦ false
    | by_cstack ↦ elim version [ py_311 ↦ in_prologue_of fr code | _ ↦ true ]
    | _ ↦ in_prologue_of fr code
  ]

  -- The frame that is stored.
  unfoldable pub call_frame : InterpreterFrame → CallFrame
  call_frame fr = record {
    lineno = to_int ((pos fr.instr -ℤ pos (mem.code_start fr.code)) *ℤ pos 2);
    py_code = fr.code;
  }

  -- What a round of the loop stores: `none` where it skips the frame.
  unfoldable pub captured : Version → InterpreterFrame → Option CallFrame
  captured py_313 fr = elim (frame_code fr) [
    | none ↦ none
    | some copy ↦ if frame_is_incomplete py_313 fr (some copy) then none else some (call_frame fr)
  ]
  captured version fr =
      if fr.code == 0
      then none
      else if frame_is_incomplete version fr (safe_copy mem.read_code fr.code)
      then none
      else some (call_frame fr)

  abbrev pub prepend : Option CallFrame → Stack → Stack
  prepend none frames = frames
  prepend (some f) frames = f ∷ frames

  abbrev pub less_room : Option CallFrame → ℕ → ℕ
  less_room none room = room
  less_room (some f) zero = zero
  less_room (some f) (suc room) = room

  abbrev pub prepend_to : Option CallFrame → Option Stack → Option Stack
  prepend_to f none = none
  prepend_to f (some frames) = some (prepend f frames)

  -- The loop, from the address `faddr`, with room for that many frames. Fuel counts its rounds; `none`
  -- is a loop that still runs when they are used up.
  unfoldable pub walk : Version → ℕ → ℕ → ℕ → Option Stack
  walk version zero room faddr = none
  walk version (suc fuel) room faddr =
      if (faddr == 0) || (room == 0) then some [] else elim (safe_copy mem.read_frame faddr) [
        | none ↦ some []
        | some fr ↦
            prepend_to (captured version fr)
              (walk version fuel (less_room (captured version fr) room) fr.previous)
      ]

  -- The loop before 3.11.
  unfoldable pub walk_objects : ℕ → ℕ → Option Stack
  walk_objects zero frame = some []
  walk_objects (suc room) frame =
      let object = mem.frame_object frame in
      let back = walk_objects room object.f_back in
      if frame == 0
      then some []
      else prepend_to (some (record { lineno = object.f_lineno; py_code = object.f_code })) back

  -- `cframe->current_frame`, for 3.11 and 3.12
  abbrev pub current_of : ThreadState → Option ℕ
  current_of ts = safe_copy mem.read_current ts.cframe

  -- `PopulateFrames`; `none` is a thread without a state.
  unfoldable pub populate_frames : Version → ℕ → Option ThreadState → Option Stack
  populate_frames version fuel none = some (record { lineno = no_py_state; py_code = 0 } ∷ [])
  populate_frames before_311 fuel (some ts) = walk_objects max_frames_to_capture ts.frame
  populate_frames py_313 fuel (some ts) = walk py_313 fuel max_frames_to_capture ts.current_frame
  populate_frames version fuel (some ts) = elim (current_of ts) [
    | none ↦ some []
    | some faddr ↦ walk version fuel max_frames_to_capture faddr
  ]
