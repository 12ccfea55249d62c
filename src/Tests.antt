-- ===== src/Tests.antt =====
-- Concrete runs: inputs that meet the theorems' conditions, and what the definitions compute there.
mod Chunks
mod Orders
mod Geometries
mod Passes
mod Logs
