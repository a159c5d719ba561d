-- ===== src/Setup/Platforms.antt =====
-- setup.py, with googlecloudprofiler/client.py and googlecloudprofiler/__init__.py: what is built for a
-- platform, and what the agent uses there.
use cloud_profiler_python.Prelude.{ℕ, ◌≡◌, refl, true, false, List, [], ◌∷◌, arith, inl, inr}
use cloud_profiler_python.Prelude.{if◌then◌else◌, Bool-cases}
use cloud_profiler_python.Client.ServiceName.{codes}
use cloud_profiler_python.Agent.{starts_with, is_supported, cpu_profiler_imported}
use cloud_profiler_python.Setup.{
  Host, not_supported, limited_support, is_linux, is_darwin, extension, ext_module, notices,
}

-- No text begins in both ways.
linux_not_darwin :
    (s : List ℕ) → starts_with s (codes "linux") ≡ true → starts_with s (codes "darwin") ≡ false
unfolding starts_with
linux_not_darwin [] h = refl
linux_not_darwin (c ∷ s) h = ground (arith, h)

-- The extension is built exactly where the client imports the CPU profiler, which needs it. The script
-- says that the platform is not supported exactly where `start` would refuse it, and that the support is
-- limited exactly where `start` goes on without the CPU profiler.
pub script-platforms :
    (host : Host)
    → (ext_module host ≡ (if cpu_profiler_imported host.platform then extension host ∷ [] else []))
      × (notices host ≡ (
          if is_supported host.platform
          then if cpu_profiler_imported host.platform then [] else limited_support ∷ []
          else not_supported ∷ []))
unfolding ext_module notices is_supported cpu_profiler_imported
script-platforms host = elim (Bool-cases (is_linux host.platform)) [
  | inl linux ↦
      let other : is_darwin host.platform ≡ false = linux_not_darwin (codes host.platform) linux in
      (rw (linux, other) refl, rw (linux, other) refl)
  | inr other ↦ elim (Bool-cases (is_darwin host.platform)) [
    | inl darwin ↦ (rw (other, darwin) refl, rw (other, darwin) refl)
    | inr neither ↦ (rw (other, neither) refl, rw (other, neither) refl)
  ]
]
