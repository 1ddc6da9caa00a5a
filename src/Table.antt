-- ===== src/Table.antt =====
-- A keyed table: the rows of a database table under its primary key, and the maps of the source.
mod Defs
mod Laws
pub use Defs.{Key}
unfoldable pub use Defs.{string_key, nat_key, find, update, upsert}
pub use Laws.*
