-- ===== src/Wasm/Handler.antt =====
-- What `invoke` gives for a module that keeps to the handlers' interface.
use nwarp.Base.{
  ℕ, suc, ◌+◌, ◌-◌, ◌*◌, ◌/◌, ◌%◌, ◌^◌, ◌<◌, ◌≡◌, ◌∙◌, ap, refl, false, none, [], ◌∷◌, ltb, length,
  ok, arith,
}
use nwarp.Rust.Str.{Str}
use nwarp.Rust.Utf8.{Bytes, as_bytes}
use nwarp.Wasm.{Runtime, WasmRoute, as_i32, i32_as_usize, buffer, pass_text, read_response, invoke}

-- The bytes of a response: the status, its low byte first, and the body.
abbrev pub layout : ℕ → Bytes → Bytes
layout status body = (status % 256) ∷ (status / 256) ∷ body

-- `byte` gives the bytes of a list at its offsets, from `from` on.
abbrev pub Holds : (ℕ → ℕ) → ℕ → Bytes → Type 0
Holds byte from [] = Unit
Holds byte from (b ∷ bs) = (byte from ≡ b) × Holds byte (suc from) bs

buffer-Holds :
    (byte : ℕ → ℕ) (from : ℕ) (bs : Bytes) → Holds byte from bs → buffer byte from (length bs) ≡ bs
unfolding buffer
buffer-Holds byte from [] h = refl
buffer-Holds byte from (b ∷ bs) h =
    ap (λ x. x ∷ buffer byte (suc from) (length bs)) h.0
    ∙ ap (◌∷◌ b) (buffer-Holds byte (suc from) bs h.1)

module _ {M S : Type 0} (rt : Runtime M S) where
  -- A run of a module's exports on a request, from the start of the instance to the call of
  -- `handle`, in which the module takes both arguments.
  pub record IsRun (module_ : M) (method path : Str) (final : S) (packed : ℕ) : Type 0 where
    pub created : S
    pub started : S
    pub method_ptr : ℕ
    pub method_at : S
    pub with_method : S
    pub path_ptr : ℕ
    pub path_at : S
    pub with_path : S
    pub instantiates : rt.instantiate module_ ≡ ok created
    pub starts : rt.start created ≡ ok started
    pub exports_memory : rt.get_memory started ≡ none
    pub exports_alloc : rt.get_alloc started ≡ none
    pub exports_handle : rt.get_handle started ≡ none
    pub allocates_method :
        rt.alloc started (as_i32 (length (as_bytes method))) ≡ ok (method_ptr, method_at)
    pub takes_method :
        rt.write method_at (i32_as_usize method_ptr) (as_bytes method) ≡ ok with_method
    pub allocates_path :
        rt.alloc with_method (as_i32 (length (as_bytes path))) ≡ ok (path_ptr, path_at)
    pub takes_path : rt.write path_at (i32_as_usize path_ptr) (as_bytes path) ≡ ok with_path
    pub handles :
        rt.handle with_path method_ptr
          (as_i32 (length (as_bytes method)))
          path_ptr
          (as_i32 (length (as_bytes path)))
        ≡ ok (packed, final)

  read_response-layout :
      (s : S) (ptr status : ℕ) (body : Bytes) (byte : ℕ → ℕ)
      → ptr < 2 ^ 32
      → suc (suc (length body)) < 2 ^ 32
      → rt.read s ptr (suc (suc (length body))) ≡ ok byte
      → Holds byte 0 (layout status body)
      → read_response rt s (ptr * 2 ^ 32 + suc (suc (length body))) ≡ ok (status, body)
  unfolding read_response
  read_response-layout s ptr status body byte small short reads h =
      let high : ((ptr * 2 ^ 32 + suc (suc (length body))) / 2 ^ 32) % 2 ^ 32 ≡ ptr = omega arith in
      let low : (ptr * 2 ^ 32 + suc (suc (length body))) % 2 ^ 32 ≡ suc (suc (length body)) =
        omega arith in
      let long : ltb (suc (suc (length body))) 2 ≡ false = ground arith in
      let first : byte 0 + 256 * byte 1 ≡ status = rw h.0 (rw h.1.0 (omega arith)) in
      let same = buffer-Holds byte 2 body h.1.1 in
      let behind : suc (suc (length body)) - 2 ≡ length body = omega arith in
      rw high (rw low (rw long (rw reads (rw first (rw behind (rw same refl))))))

  invoke-IsRun :
      (route : WasmRoute M) (method path : Str) (final : S) (packed : ℕ)
      → IsRun route.module_ method path final packed
      → invoke rt route method path ≡ read_response rt final packed
  unfolding invoke pass_text
  invoke-IsRun route method path final packed run = rw run.instantiates (
      rw run.starts (
        rw run.exports_memory (
          rw run.exports_alloc (
            rw run.exports_handle (
              rw run.allocates_method (
                rw run.takes_method
                  (rw run.allocates_path (rw run.takes_path (rw run.handles refl)))))))))

  -- A module that takes both arguments and leaves a response, of a status and a body, in its
  -- memory below 4 GiB has this status and body returned by `invoke`.
  pub invoke-layout :
      (route : WasmRoute M) (method path : Str) (final : S) (ptr status : ℕ) (body : Bytes)
      (byte : ℕ → ℕ)
      → IsRun route.module_ method path final (ptr * 2 ^ 32 + suc (suc (length body)))
      → ptr < 2 ^ 32
      → suc (suc (length body)) < 2 ^ 32
      → rt.read final ptr (suc (suc (length body))) ≡ ok byte
      → Holds byte 0 (layout status body)
      → invoke rt route method path ≡ ok (status, body)
  invoke-layout route method path final ptr status body byte run small short reads h =
      invoke-IsRun route method path final _ run
      ∙ read_response-layout final ptr status body byte small short reads h
