-- ===== src/Tests.antt =====
-- Runs of the models on concrete inputs, and the theorems at such inputs.
pub mod Logging
pub mod Lists
pub mod Validating
pub mod Receiving
pub mod Stopping
pub mod Connecting
pub mod Storing
pub mod Reading
pub mod Quoting
pub mod Serving
pub mod Json
pub mod Coding
pub mod Answering
pub mod Starting
pub mod Simulating
