-- ===== src/Tests.antt =====
-- Concrete inputs for the theorems, and runs of the definitions on them.
pub mod Messages
pub mod Contents
pub mod Sequences
pub mod Pendings
pub mod References
pub mod Lifecycles
pub mod Numberings
