-- ===== src/Effect.antt =====
-- What a connection does that others see, in order: writes to the client, lines in the two logs,
-- and the abort that a panic is (Cargo.toml builds with `panic = "abort"`).
use nwarp.Base.{
  ℕ, ◌≡◌, refl, Bool, true, false, ◌||◌, ◌++◌, arith, Option, none, some, List, [], ◌∷◌,
}
use nwarp.Rust.Str.{Str}
use nwarp.Rust.Utf8.{Bytes}
use nwarp.Rust.Io.{ErrorKind}

-- `wrote` is a write that succeeded, `lost` one that failed. `answered` is an HTTP/2 or HTTP/3
-- response: its status, headers and body.
pub data Effect : Type 0 where
  wrote : Bytes → Effect
  lost : ErrorKind → Effect
  access_line : (method path : Str) (status : ℕ) (peer : Str) → Effect
  error_line : Str → Effect
  answered : (status : ℕ) (headers : List (Str × Str)) (body : Bytes) → Effect
  aborted : Effect

abbrev pub is_abort : Effect → Bool
is_abort aborted = true
is_abort (wrote bytes) = false
is_abort (lost e) = false
is_abort (access_line method path status peer) = false
is_abort (error_line text) = false
is_abort (answered status headers body) = false

-- Whether the program has ended by an abort.
abbrev pub ended : List Effect → Bool
ended [] = false
ended (e ∷ es) = is_abort e || ended es

pub ended-append : (xs ys : List Effect) → ended (xs ++ ys) ≡ ended xs || ended ys
ended-append [] ys = refl
ended-append (x ∷ xs) ys = ground (arith, ended-append xs ys)

-- What an accept loop does: a line in the error log, or a task that it spawns.
pub data Act (A : Type 0) : Type 0 where
  note : Str → Act A
  spawn : A → Act A

-- The client's end of a connection: whether it takes the bytes, and whether a flush succeeds.
pub record Client : Type 0 where
  pub refuses : Bytes → Option ErrorKind
  pub flush_fault : Option ErrorKind

abbrev pub flushed : Option ErrorKind → List Effect × Option ErrorKind
flushed none = ([], none)
flushed (some e) = (lost e ∷ [], some e)

-- A write whose error is given, and what follows it where there is none.
abbrev pub write_then :
    Option ErrorKind → Bytes → List Effect × Option ErrorKind → List Effect × Option ErrorKind
write_then none bytes more = (wrote bytes ∷ more.0, more.1)
write_then (some e) bytes more = (lost e ∷ [], some e)

-- `write_all` one after another and then `flush`, up to the first that fails.
unfoldable pub write_all : Client → List Bytes → List Effect × Option ErrorKind
write_all client [] = flushed client.flush_fault
write_all client (bytes ∷ rest) = write_then (client.refuses bytes) bytes (write_all client rest)
