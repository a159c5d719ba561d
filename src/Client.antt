-- ===== src/Client.antt =====
-- googlecloudprofiler/client.py: the client of the profiler backend, one module for each of its tasks.
pub mod ServiceName
pub mod Config
pub mod Auth
pub mod Upload
pub mod Poll
pub mod Headers
pub mod LogFilter
pub mod Start
