-- ===== src/Builder/Proto.antt =====
-- The messages of profile.proto (generated module googlecloudprofiler/profile_pb2.py), with the
-- fields that googlecloudprofiler/builder.py writes. A field that is not set is 0 or empty.
use cloud_profiler_python.Prelude.{ℕ, String, List, []}
use cloud_profiler_python.Prelude.Int.{ℤ, pos}

pub record ValueType : Type 0 where
  pub type : ℕ
  pub unit : ℕ

pub record Sample : Type 0 where
  pub location_id : List ℕ
  pub value : List ℤ

pub record Line : Type 0 where
  pub function_id : ℕ
  pub line : ℤ

pub record Location : Type 0 where
  pub id : ℕ
  pub line : List Line

pub record Function : Type 0 where
  pub id : ℕ
  pub name : ℕ
  pub filename : ℕ

pub record Profile : Type 0 where
  pub sample_type : List ValueType
  pub sample : List Sample
  pub location : List Location
  pub function : List Function
  pub string_table : List String
  pub duration_nanos : ℤ
  pub period_type : ValueType
  pub period : ℤ

-- `profile_pb2.Profile()`
abbrev pub empty_profile : Profile
empty_profile = record {
  sample_type = [];
  sample = [];
  location = [];
  function = [];
  string_table = [];
  duration_nanos = pos 0;
  period_type = record { type = 0; unit = 0 };
  period = pos 0;
}
