-- ===== src/Prelude/JsMap.antt =====
-- JavaScript's `Map` with text keys: the operations, and the laws that its users need.
mod Defs
mod Laws
pub use Defs.{JsMap, guarded, HasUniqueKeys}
unfoldable pub use Defs.{get, set, delete, keep, evict}
pub use Laws.*
