-- ===== src/Base/Prune.antt =====
-- The pruning of a store of records that both the plan store and the job store do: with more than
-- `keep` records, those behind the newest `keep` go, but for the protected ones.
mod Dropping
mod Newest
mod Exact
unfoldable pub use Dropping.*
pub use Newest.*
pub use Exact.*
