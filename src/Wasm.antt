-- ===== src/Wasm.antt =====
-- src/wasm/mod.rs: routes whose requests a WebAssembly module answers.
pub mod Handler
use nwarp.Base.{
  ℕ, zero, suc, ◌+◌, ◌++◌, ◌-◌, ◌*◌, ◌/◌, ◌%◌, ◌^◌, Bool, Option, none, some, List, [], ◌∷◌, map,
  filter, if◌then◌else◌, ltb, length, Result, ok, err, ◌>>=◌,
}
use nwarp.Rust.Str.{Str, lit, starts_with}
use nwarp.Rust.Utf8.{Bytes, as_bytes}
use nwarp.Rust.Iter.{max_by_key}
use nwarp.Rust.Iter.LongestPrefix.{str_len}
use nwarp.Config.{Config}
use mathlib.Core.List.{filter_map}

-- What a file holds, and what wasmi does with a compiled module `M`: `start` makes an instance of it with state `S`, and
-- the exports are called and the memory is accessed on that state. An `i32` or `i64` is its
-- pattern of 32 or 64 bits; an error is its text.
pub record Runtime (M S : Type 0) : Type 0 where
  pub read_file : Str → Result Str Bytes
  pub compile : Bytes → Result Str M
  pub instantiate : M → Result Str S
  pub start : S → Result Str S
  -- The lookup of an export: the error where it is missing or has another type.
  pub get_memory : S → Option Str
  pub get_alloc : S → Option Str
  pub get_handle : S → Option Str
  pub alloc : S → ℕ → Result Str (ℕ × S)
  pub handle : S → ℕ → ℕ → ℕ → ℕ → Result Str (ℕ × S)
  pub write : S → ℕ → Bytes → Result Str S
  -- The bytes that `read` fills a buffer of a given length with, by their offset.
  pub read : S → ℕ → ℕ → Result Str (ℕ → ℕ)

pub record WasmRoute (M : Type 0) : Type 0 where
  pub prefix : Str
  pub module_ : M

pub record WasmTable (M : Type 0) : Type 0 where
  pub routes : List (WasmRoute M)

-- `x as i32` of a `usize`, and `x as usize` of an `i32`, which extends the sign.
unfoldable pub as_i32 : ℕ → ℕ
as_i32 n = n % 2 ^ 32

unfoldable pub i32_as_usize : ℕ → ℕ
i32_as_usize p = if ltb p (2 ^ 31) then p else p + (2 ^ 64 - 2 ^ 32)

-- An export that a lookup finds missing ends the call with the error.
abbrev present : {S : Type 0} → Option Str → S → Result Str S
present none s = ok s
present (some e) s = err e

-- The offsets from `from` on.
unfoldable pub buffer : (ℕ → ℕ) → ℕ → ℕ → Bytes
buffer byte from zero = []
buffer byte from (suc n) = byte from ∷ buffer byte (suc from) n

module _ {M S : Type 0} (rt : Runtime M S) where
  unfoldable pub load_bytes : Result Str M → Result Str M
  load_bytes (ok compiled) = ok compiled
  load_bytes (err e) = err (lit "invalid WASM module: " ++ e)

  unfoldable pub load_file : Str → Result Str Bytes → Result Str M
  unfolding load_bytes
  load_file path (ok bytes) = load_bytes (rt.compile bytes)
  load_file path (err e) = err (lit "could not read '" ++ (path ++ (lit "': " ++ e)))

  -- `load_module`: the module, or the text of the error.
  unfoldable pub load_module : Str → Result Str M
  unfolding load_file
  load_module path = load_file path (rt.read_file path)

  unfoldable pub load_route : Str × Str → Option (WasmRoute M)
  unfolding load_module
  load_route (prefix, path) = elim (load_module path) [
    | ok compiled ↦ some (record { prefix = prefix; module_ = compiled })
    | err e ↦ none
  ]

  -- The warning that is printed for a route whose module does not load.
  unfoldable pub load_warning : Str × Str → Option Str
  unfolding load_module
  load_warning (prefix, path) = elim (load_module path) [
    | ok compiled ↦ none
    | err e ↦ some (
        lit "[nwarp] warning: failed to load WASM module '"
        ++ (path ++ (lit "' for route '" ++ (prefix ++ (lit "': " ++ e)))))
  ]

  unfoldable pub load_warnings : Config → List Str
  unfolding load_warning
  load_warnings cfg = filter_map load_warning cfg.wasm_routes

  -- `WasmTable::from_config`: a module that does not load has no route.
  unfoldable pub from_config : Config → WasmTable M
  unfolding load_route
  from_config cfg = record { routes = filter_map load_route cfg.wasm_routes }

  -- `WasmTable::match_route`.
  unfoldable pub match_route : WasmTable M → Str → Option (WasmRoute M)
  match_route table path =
      max_by_key (λ (r : WasmRoute M). str_len r.prefix)
        (filter (λ r. starts_with path r.prefix) table.routes)

  -- `alloc` and `write` for one argument: its address, and the state behind.
  unfoldable pub pass_text : S → Str → Result Str (ℕ × S)
  unfolding as_i32 i32_as_usize
  pass_text s text = do
    (ptr, allocated) ← rt.alloc s (as_i32 (length (as_bytes text)))
    written ← rt.write allocated (i32_as_usize ptr) (as_bytes text)
    ok (ptr, written)

  -- Behind the call of `handle`: the address and the length of the response are unpacked.
  unfoldable pub read_response : S → ℕ → Result Str (ℕ × Bytes)
  unfolding buffer
  read_response s packed =
      let response_ptr = (packed / 2 ^ 32) % 2 ^ 32 in
      let response_len = packed % 2 ^ 32 in
      let response : Result Str (ℕ × Bytes) = (do
        byte ← rt.read s response_ptr response_len
        ok (byte 0 + 256 * byte 1, buffer byte 2 (response_len - 2))) in
      if ltb response_len 2
      then err (lit "handler returned a response shorter than the 2-byte status header")
      else response

  unfoldable pub invoke : WasmRoute M → Str → Str → Result Str (ℕ × Bytes)
  unfolding pass_text read_response
  invoke route method path = do
    created ← rt.instantiate route.module_
    started ← rt.start created
    with_memory ← present (rt.get_memory started) started
    with_alloc ← present (rt.get_alloc with_memory) with_memory
    instance_ ← present (rt.get_handle with_alloc) with_alloc
    (method_ptr, s) ← pass_text instance_ method
    (path_ptr, s') ← pass_text s path
    (packed, s'') ←
        rt.handle s' method_ptr (as_i32 (length (as_bytes method))) path_ptr
          (as_i32 (length (as_bytes path)))
    read_response s'' packed
