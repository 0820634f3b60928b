-- ===== src/Http/Request/RoundTrip/Head.antt =====
-- The head of a request as text, and how its lines are read.
use nwarp.Base.{
  ◌+◌, ◌≤◌, ◌≡◌, ◌≢◌, ◌∙◌, ap, refl, sym, true, false, Option, List, [], ◌∷◌, ◌++◌, ok, length,
  arith, inl, All, All-append, append_assoc, length-append,
}
use nwarp.Rust.Str.{
  Str, trim, trim_end, trim_by, trim_start_by, is_whitespace, split_whitespace, is_empty,
}
use nwarp.Rust.Str.Trim.{
  IsTrimmed, trim_end_by-append, trim_end_by-append-All, trim_end_by_clear, trim_by_margins,
  trim_by-trim_end_by, trim_by_trimmed,
}
use nwarp.Rust.Str.Split.{IsWord, split_whitespace_word, split_whitespace_last}
use nwarp.Rust.Utf8.{Bytes, as_bytes, as_bytes-append, encode_char, IsText, IsChar}
use nwarp.Rust.Io.{ErrorKind, read_line}
use nwarp.Rust.Io.Lines.{read_line_text}
use nwarp.Http.Request.Path.{sanitize_path}
use nwarp.Http.Request.{of_line}

abbrev pub crlf : Str
crlf = b'\r' ∷ b'\n' ∷ []

-- "name: value" and the request line, without their line ends.
abbrev pub header_line : Str × Str → Str
header_line (k, v) = k ++ (b':' ∷ b' ' ∷ v)

abbrev pub request_line : Str → Str → Str → Str
request_line method target version = method ++ (b' ' ∷ (target ++ (b' ' ∷ version)))

-- A text on one line.
abbrev pub IsLine : Str → Type 0
IsLine s = IsText s × All (λ c. c ≢ b'\n') s

-- A header that stands on one line: a word with no colon, and a value with no outer white space.
abbrev pub IsHeader : Str × Str → Type 0
IsHeader (k, v) = IsLine k × IsWord k × All (λ c. c ≢ b':') k × IsLine v × IsTrimmed is_whitespace v

is_ws_crlf : All (λ c. is_whitespace c ≡ true) crlf
unfolding is_whitespace
is_ws_crlf = (refl, (refl, tt))

trim_end_word : (s w : Str) → IsWord w → trim_end (s ++ w) ≡ s ++ w
unfolding trim_end
trim_end_word s [] h = absurd (h.0 refl)
trim_end_word s (c ∷ w) h =
    trim_end_by-append is_whitespace s c w h.1.0
    ∙ ap (λ t. s ++ (c ∷ t)) (trim_end_by_clear is_whitespace w h.1.1)

pub trim_word : (w : Str) → IsWord w → trim w ≡ w
unfolding trim
trim_word [] h = absurd (h.0 refl)
trim_word (c ∷ w) h =
    trim_by_trimmed is_whitespace (c ∷ w) (h.1.0, trim_end_by_clear is_whitespace (c ∷ w) h.1)

trim_end-crlf : (s : Str) → trim_end (s ++ crlf) ≡ trim_end s
unfolding trim_end
trim_end-crlf s = trim_end_by-append-All is_whitespace s crlf is_ws_crlf

trim_end-request_line :
    (method target version : Str)
    → IsWord version
    → trim_end (request_line method target version ++ crlf) ≡ request_line method target version
trim_end-request_line method target version h =
    let front = method ++ (b' ' ∷ (target ++ (b' ' ∷ []))) in
    let same : front ++ version ≡ request_line method target version = simp append_assoc in
    trim_end-crlf _ ∙ ap trim_end (sym same) ∙ trim_end_word front version h ∙ same

space : is_whitespace b' ' ≡ true
unfolding is_whitespace
space = refl

colon : is_whitespace b':' ≡ false
unfolding is_whitespace
colon = refl

request_words :
    (method target version : Str)
    → IsWord method
    → IsWord target
    → IsWord version
    → split_whitespace (request_line method target version) ≡ method ∷ target ∷ version ∷ []
request_words method target version hm ht hv =
    split_whitespace_word method b' ' _ hm space
    ∙ ap (◌∷◌ method) (
        split_whitespace_word target b' ' version ht space
        ∙ ap (◌∷◌ target) (split_whitespace_last version hv))

pub of_line_words :
    (method target version : Str) (headers : List (Str × Str))
    → IsWord method
    → IsWord target
    → IsWord version
    → of_line (request_line method target version ++ crlf) headers ≡ record {
      method = method;
      path = sanitize_path target;
      version = version;
      headers = headers;
    }
unfolding of_line
of_line_words method target version headers hm ht hv =
    rw (trim_end-request_line method target version hv)
      (rw (request_words method target version hm ht hv) refl)

pub trim_end_header :
    (k v : Str)
    → trim_end (header_line (k, v) ++ crlf) ≡ k ++ (b':' ∷ trim_end (b' ' ∷ (v ++ crlf)))
unfolding trim_end
trim_end_header k v =
    ap trim_end (append_assoc k (b':' ∷ b' ' ∷ v) crlf)
    ∙ trim_end_by-append is_whitespace k b':' (b' ' ∷ (v ++ crlf)) colon

pub trim_value : (v : Str) → IsTrimmed is_whitespace v → trim (trim_end (b' ' ∷ (v ++ crlf))) ≡ v
unfolding trim trim_end
trim_value v h =
    trim_by-trim_end_by is_whitespace (b' ' ∷ (v ++ crlf))
    ∙ trim_by_margins is_whitespace (b' ' ∷ []) v crlf (space, tt) h is_ws_crlf

pub read_line-crlf :
    (line : Str) (rest : Bytes) (fault : Option ErrorKind)
    → IsLine line
    → read_line (record { ready = as_bytes (line ++ crlf) ++ rest; fault = fault })
      ≡ ok (line ++ crlf, length (as_bytes (line ++ crlf)), record { ready = rest; fault = fault })
read_line-crlf line rest fault h =
    let text = All-append IsChar line (b'\r' ∷ []) h.0 (inl (omega arith), tt) in
    let one = All-append (λ c. c ≢ b'\n') line (b'\r' ∷ []) h.1 (omega arith, tt) in
    rw (append_assoc line (b'\r' ∷ []) (b'\n' ∷ [])) at
      (read_line_text (line ++ (b'\r' ∷ [])) rest fault text one)

bytes-crlf :
    (line tail : Str) (body : Bytes)
    → as_bytes (line ++ (crlf ++ tail)) ++ body ≡ as_bytes (line ++ crlf) ++ (as_bytes tail ++ body)
bytes-crlf line tail body =
    ap (λ t. as_bytes t ++ body) (sym (append_assoc line crlf tail))
    ∙ ap (λ t. t ++ body) (as_bytes-append (line ++ crlf) tail)
    ∙ append_assoc (as_bytes (line ++ crlf)) (as_bytes tail) body

-- A line with more behind it.
pub read_line_then :
    (line tail : Str) (body : Bytes) (fault : Option ErrorKind)
    → IsLine line
    → read_line (record { ready = as_bytes (line ++ (crlf ++ tail)) ++ body; fault = fault })
      ≡ ok (
        line ++ crlf,
        length (as_bytes (line ++ crlf)),
        record { ready = as_bytes tail ++ body; fault = fault },
      )
read_line_then line tail body fault h =
    rw (bytes-crlf line tail body) (read_line-crlf line (as_bytes tail ++ body) fault h)

pub length-as_bytes-crlf :
    (line : Str) → length (as_bytes (line ++ crlf)) ≡ length (as_bytes line) + 2
length-as_bytes-crlf line =
    ap length (as_bytes-append line crlf)
    ∙ length-append (as_bytes line) (as_bytes crlf)
    ∙ unfold as_bytes encode_char in refl

pub trim-header_line :
    (h : Str × Str) → IsHeader h → is_empty (trim (header_line h ++ crlf)) ≡ false
unfolding trim trim_by trim_start_by
trim-header_line ([], v) (_, word, _, _, _) = absurd (word.0 refl)
trim-header_line (c ∷ k, v) (_, word, _, _, _) =
    rw word.1.0 (
      ap is_empty (trim_end_by-append is_whitespace [] c (k ++ (b':' ∷ b' ' ∷ v) ++ crlf) word.1.0))

pub trim-crlf : is_empty (trim crlf) ≡ true
unfolding trim trim_by trim_start_by
trim-crlf = refl

pub header_line-IsLine : (h : Str × Str) → IsHeader h → IsLine (header_line h)
header_line-IsLine (k, v) (line, _, _, value, _) = (
  All-append IsChar k (b':' ∷ b' ' ∷ v) line.0 (inl (omega arith), (inl (omega arith), value.0)),
  All-append (λ c. c ≢ b'\n') k (b':' ∷ b' ' ∷ v) line.1 (omega arith, (omega arith, value.1)),
)

pub request_line-IsLine :
    (method target version : Str)
    → IsLine method
    → IsLine target
    → IsLine version
    → IsLine (request_line method target version)
request_line-IsLine method target version hm ht hv = (
  All-append IsChar method _ hm.0
      (inl (omega arith), All-append IsChar target _ ht.0 (inl (omega arith), hv.0)),
  All-append (λ c. c ≢ b'\n') method _ hm.1
      (omega arith, All-append (λ c. c ≢ b'\n') target _ ht.1 (omega arith, hv.1)),
)

abbrev pub print_headers : List (Str × Str) → Str
print_headers [] = crlf
print_headers (h ∷ hs) = header_line h ++ (crlf ++ print_headers hs)

pub length-print_headers :
    (hs : List (Str × Str)) → length hs ≤ length (as_bytes (print_headers hs))
length-print_headers [] = omega arith
length-print_headers (h ∷ hs) =
    let split =
      ap length (as_bytes-append (header_line h) (crlf ++ print_headers hs))
      ∙ length-append (as_bytes (header_line h)) (as_bytes (crlf ++ print_headers hs)) in
    let rest =
      ap length (as_bytes-append crlf (print_headers hs))
      ∙ length-append (as_bytes crlf) (as_bytes (print_headers hs)) in
    omega (arith, length-print_headers hs, length-as_bytes-crlf [])
