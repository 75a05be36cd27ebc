-- ===== src/Tests.antt =====
-- Tests of the development: a concrete environment, and an instance of each result at concrete
-- inputs.
pub mod Conditions
pub mod World
pub mod Samples
pub mod History
pub mod State
pub mod Actions
pub mod Program
pub mod Scenarios
pub mod Loop
pub mod Platform
pub mod Controller
pub mod Others
