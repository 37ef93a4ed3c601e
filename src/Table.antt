-- ===== src/Table.antt =====
-- Arrays of records that are found by a string key and removed by moving the last entry into the
-- gap, the way app/engine/variables.c and app/engine/rule_engine.c keep their stores.
mod Defs
mod Laws
unfoldable pub use Defs.{find_key, index_of, swap_remove, occurs, or_else}
mod Removal
mod Search
pub use Laws.*
pub use Removal.{
  snoc_cases, swap_remove-snoc, Distinct, find-swap_remove, occurs-swap_remove, length-swap_remove,
}
pub use Search.*
