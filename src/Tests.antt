-- ===== src/Tests.antt =====
-- The theorems at concrete inputs, and runs of the definitions: messages in the form of the
-- exchanges, on which the parsers, the combined book and the publisher are evaluated.
pub mod Sample
pub mod Numbers
pub mod Pipelines
pub mod Usages
pub mod Closings
pub mod Books
pub mod Summaries
pub mod Feeds
pub mod Publishing
pub mod Managers
pub mod Clients
pub mod Relays
pub mod Viewers
pub mod Servers
