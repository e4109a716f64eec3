-- ===== src/Examples.antt =====
-- The theorems at concrete inputs, and tests of the definitions on inputs taken from the
-- repository's own tests.
mod Filter
mod Stars
mod Coordinator
mod Workers
mod Visibility
mod Traffic
mod Stale
mod Alert
mod Catalog
mod Repo
mod Retry
mod Server
mod Freshness
mod Config
mod Locale
mod Settings
mod Client
mod Pages
