-- ===== src/Tests.antt =====
-- Concrete inputs, and the theorems at them.
mod Data
mod Fields
mod Modules
mod Runs
mod Scripts
mod Reports
mod Requests
mod Managers
mod Strokes
mod Caches
mod Typed
mod Facades
mod Documents
mod Copies
mod Bounds
mod CachedRuns
