-- ===== src/Json.antt =====
-- JSON values as the program builds them: `Any` in the payloads of events and messages. A number
-- that is no native number (negative, or a float) is kept as the text that `json` prints for it.
pub mod Size
pub mod Dump
pub mod Defs
pub mod Access
