-- ===== src/Go.antt =====
-- What the program uses of Go's standard library, written out over byte strings.
pub mod Strings
pub mod Chars
pub mod Strconv
pub mod Net
pub mod Utf8
pub mod Path
pub mod Match
mod Tests
