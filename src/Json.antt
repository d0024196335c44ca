-- ===== src/Json.antt =====
-- JSON: the output of src/json_gen.c, and the string escapes and the readers of src/json_util.c.
pub mod Escape
pub mod Gen
pub mod Stream
pub mod Readers
