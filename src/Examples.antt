-- ===== src/Examples.antt =====
-- The theorems at concrete inputs, and tests.
pub mod Data
mod Projecting
mod Storing
mod Persisting
mod Predicting
mod Telling
mod Deciding
mod Running
mod Serving
