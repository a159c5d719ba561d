-- ===== src/Native.antt =====
-- googlecloudprofiler/src: the native CPU profiler, one module for each of its parts.
pub mod Clock
pub mod Stack
pub mod Table
pub mod Frames
pub mod Code
pub mod Profiler
pub mod Traces
pub mod Collect
pub mod Entry
pub mod Concurrent
pub mod Fork
