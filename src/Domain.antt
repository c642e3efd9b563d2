-- ===== src/Domain.antt =====
-- claimpipe/domain: the events, the claim and its status, and the exceptions of the program.
pub mod Events
pub mod Models
pub mod Names
pub mod Errors
