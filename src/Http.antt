-- ===== src/Http.antt =====
-- http/: requests, their parser, and the contexts that hold them.
pub mod Dict
pub mod Parameter
pub mod Request
pub mod Parser
pub mod Context
pub mod Response
pub mod Server
mod Tests
