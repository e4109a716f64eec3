-- ===== src/Github.antt =====
-- The GitHub client (internal/github): the types of the REST API, the retries and the pages.
pub mod Types
pub mod Retry
pub mod Pages
