-- ===== src/Cjson.antt =====
-- The calls of the JSON library app/cJSON.c, behind an interface, and an instance of it.
mod Defs
mod Instance
pub use Defs.{Cjson, CjsonLaws, Small, string_of, number_or, when, is_set, get-add_some}
unfoldable pub use Defs.{add_some}
pub use Instance.{Json, json, json_laws}
