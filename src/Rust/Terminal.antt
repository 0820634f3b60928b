-- ===== src/Rust/Terminal.antt =====
-- The terminal: a line that `println!` or `eprintln!` prints.
use nwarp.Rust.Str.{Str}

pub data Line : Type 0 where
  println eprintln : Str → Line
