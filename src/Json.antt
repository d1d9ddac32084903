-- ===== src/Json.antt =====
-- Package encoding/json of the standard library, as the program uses it: the text of a value, and the
-- value that a text holds.
pub mod Runes
pub mod Quoting
pub mod Strings
pub mod Numbers
pub mod Values
pub mod Scanner
pub mod Fields
