-- ===== src/Builder/Grows.antt =====
-- Tables only grow: what a profile resolves, a later state of it resolves to the same.
use cloud_profiler_python.Prelude.{ℕ, ◌≡◌, some, List, [], ◌∷◌, String, arith}
use cloud_profiler_python.Prelude.Int.{ℤ}
use cloud_profiler_python.Builder.{Frame, Trace}
use cloud_profiler_python.Builder.Proto.{ValueType, Sample, Location, Function, Profile}
use cloud_profiler_python.Builder.Decode.{
  find_function, find_location, find_string, decode_function, decode_location, decode_trace,
  decode_samples, decode_type, decode_types,
}

pub record Grows (p q : Profile) : Type 0 where
  pub strings : (i : ℕ) (s : String) → find_string p i ≡ some s → find_string q i ≡ some s
  pub functions : (i : ℕ) (f : Function) → find_function p i ≡ some f → find_function q i ≡ some f
  pub locations : (i : ℕ) (l : Location) → find_location p i ≡ some l → find_location q i ≡ some l

pub Grows-refl : (p : Profile) → Grows p p
Grows-refl p = record { strings = λ i s h. h; functions = λ i f h. h; locations = λ i l h. h }

pub Grows-trans : {p q r : Profile} → Grows p q → Grows q r → Grows p r
Grows-trans g h = record {
  strings = λ i s e. h.strings i s (g.strings i s e);
  functions = λ i f e. h.functions i f (g.functions i f e);
  locations = λ i l e. h.locations i l (g.locations i l e);
}

module _ {p q : Profile} (g : Grows p q) where
  pub decode_function-Grows :
      (i : ℕ) (r : String × String) → decode_function p i ≡ some r → decode_function q i ≡ some r
  unfolding decode_function
  decode_function-Grows i r h = grind (arith, g.functions, g.strings)

  pub decode_location-Grows :
      (i : ℕ) (r : Frame) → decode_location p i ≡ some r → decode_location q i ≡ some r
  unfolding decode_location
  decode_location-Grows i r h = grind (arith, g.locations, decode_function-Grows)

  pub decode_trace-Grows :
      (is : List ℕ) (t : Trace) → decode_trace p is ≡ some t → decode_trace q is ≡ some t
  unfolding decode_trace
  decode_trace-Grows [] t h = h
  decode_trace-Grows (i ∷ is) t h = grind (arith, decode_location-Grows, decode_trace-Grows is)

  pub decode_samples-Grows :
      (ss : List Sample) (t : List (Trace × List ℤ))
      → decode_samples p ss ≡ some t
      → decode_samples q ss ≡ some t
  unfolding decode_samples
  decode_samples-Grows [] t h = h
  decode_samples-Grows (s ∷ ss) t h = grind (arith, decode_trace-Grows, decode_samples-Grows ss)

  pub decode_type-Grows :
      (v : ValueType) (t : String × String) → decode_type p v ≡ some t → decode_type q v ≡ some t
  unfolding decode_type
  decode_type-Grows v t h = grind (arith, g.strings)

  pub decode_types-Grows :
      (vs : List ValueType) (ts : List (String × String))
      → decode_types p vs ≡ some ts
      → decode_types q vs ≡ some ts
  unfolding decode_types
  decode_types-Grows [] ts h = h
  decode_types-Grows (v ∷ vs) ts h = grind (arith, decode_type-Grows, decode_types-Grows vs)
