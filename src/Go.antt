-- ===== src/Go.antt =====
-- What the program uses of Go's standard library: packages unicode/utf8, unicode, strings and
-- strconv, over texts as bytes.
pub mod Utf8
pub mod Space
pub mod Decimal
pub mod Quote
pub mod Sort
pub mod Split
