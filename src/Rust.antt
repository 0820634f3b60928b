-- ===== src/Rust.antt =====
-- The operations of Rust's standard library that the server calls, on texts and bytes.
-- A `str` or `String` is the list of its code points, a `[u8]` or `Vec<u8>` the list of its bytes.
pub mod Str
pub mod Utf8
pub mod Num
pub mod Map
pub mod Io
pub mod Path
pub mod Iter
pub mod Terminal
