-- ===== src/Experiments.antt =====
-- Parameter sweeps: internal/experiments/{config,generator,scheduler}.go.
pub mod Matrix
pub mod Size
pub mod Sweep
pub mod Product
pub mod Scheduler
pub mod Exclusion
pub mod Progress
pub mod Liveness
pub mod Samples
