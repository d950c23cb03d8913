-- ===== src/Storage.antt =====
-- `MemoryStorage` of src/notary_platform/storage.py: the collections that discovery and the sweep
-- runtime use, a dict for each, keyed by the ids of its objects, and the operations on them.
mod Collections
mod Queries
unfoldable pub use Collections.*
unfoldable pub use Queries.*
