-- ===== src/Session.antt =====
-- internal/session: a session, its worker and its manager; the merge of semantic hits and the
-- compilation of a prompt.
pub mod SemanticMerge
pub mod Compile
pub mod Joined
pub mod Merged
pub mod State
pub mod Process
pub mod Sound
pub mod Processed
pub mod Collected
pub mod Worker
pub mod Running
pub mod Drained
pub mod Registry
pub mod Opened
pub mod Moved
