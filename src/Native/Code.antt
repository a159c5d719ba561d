-- ===== src/Native/Code.antt =====
-- googlecloudprofiler/src/profiler.cc and profiler.h: `FuncLoc`, `GetFuncLoc` and `CodeDeallocHook`. What
-- the interpreter knows of the objects at an address is a parameter.
use cloud_profiler_python.Prelude.{ℕ, ◌≡◌, Bool, Option, none, some, String, arith}
use cloud_profiler_python.Prelude.{◌==◌, nat_eq, if◌then◌else◌}
use cloud_profiler_python.Prelude.Int.{ℤ}
use cloud_profiler_python.Prelude.Dict
use cloud_profiler_python.Prelude.Dict.{Dict}
use cloud_profiler_python.Native.Frames.{safe_copy}

pub record FuncLoc : Type 0 where
  pub name : String
  pub filename : String

-- A copy of a `PyCodeObject`: whether its type is `PyCode_Type`, and what `PyUnicode_AsUTF8` gives for
-- `co_name` and `co_filename`, where it gives anything.
pub record CodeObject : Type 0 where
  pub is_code : Bool
  pub co_name : Option String
  pub co_filename : Option String

-- `addr_to_line` is `PyCode_Addr2Line`.
pub record Interpreter : Type 0 where
  pub read_object : ℕ → Option CodeObject
  pub addr_to_line : ℕ → ℤ → ℤ

abbrev or_unknown : Option String → String
or_unknown none = "unknown"
or_unknown (some name) = name

-- `SafeCopy` of the object and the test of its type
unfoldable pub checked_code : Interpreter → ℕ → Option CodeObject
checked_code interp code_object = elim (safe_copy interp.read_object code_object) [
  | none ↦ none
  | some code ↦ if code.is_code then some code else none
]

unfoldable pub get_func_loc : Interpreter → ℕ → FuncLoc
get_func_loc interp code_object = elim (checked_code interp code_object) [
  | none ↦ record { name = "unknown"; filename = "unknown" }
  | some code ↦ record { name = or_unknown code.co_name; filename = or_unknown code.co_filename }
]

-- `deallocated_code_`
abbrev pub DeallocatedCode : Type 0
DeallocatedCode = Dict ℕ FuncLoc

-- `CodeDealloc`, without the deallocation; `insert` of a C++ map keeps an old entry.
unfoldable pub code_dealloc : Interpreter → ℕ → DeallocatedCode → DeallocatedCode
code_dealloc interp code_object deallocated =
    if Dict.contains deallocated code_object
    then deallocated
    else Dict.insert code_object (get_func_loc interp code_object) deallocated

unfoldable pub find : DeallocatedCode → ℕ → Option FuncLoc
find deallocated pointer = Dict.get deallocated pointer

-- A code object is found under the name it had when it was first deallocated.
pub find-code_dealloc :
    (interp : Interpreter) (p q : ℕ) (deallocated : DeallocatedCode)
    → find (code_dealloc interp p deallocated) q ≡ elim (find deallocated q) [
      | some loc ↦ some loc
      | none ↦ if q == p then some (get_func_loc interp p) else none
    ]
unfolding find code_dealloc
find-code_dealloc interp p q deallocated =
    ground (arith, Dict.get-insert p q (get_func_loc interp p) deallocated)
