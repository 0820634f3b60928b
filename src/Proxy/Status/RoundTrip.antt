-- ===== src/Proxy/Status/RoundTrip.antt =====
-- `split_raw_response` takes apart what `Response::send` writes.
use nwarp.Base.{
  ℕ, suc, ◌+◌, ◌≤◌, ◌<◌, ◌≡◌, ◌≢◌, ◌∙◌, ap, sym, refl, true, false, Option, none, some, [], ◌∷◌,
  ◌++◌, get_or, get_elem?, drop, length, All, All-append, All-mono, arith, append_assoc, inl,
}
use mathlib.Core.List.{cons-ne-nil}
use mathlib.Core.Option
use mathlib.Core.Path.{ap₂}
use nwarp.Rust.Str.{Str, lit, split_whitespace, is_whitespace, starts_with}
use nwarp.Rust.Str.Split.{IsWord, lines_first, split_whitespace_word}
use nwarp.Rust.Utf8.{
  Bytes, as_bytes, as_bytes-append, as_bytes_avoids, as_bytes_small, encode_char,
  from_utf8_lossy_ascii, IsText-ascii, from_utf8_lossy, from_utf8_lossy-as_bytes_append, IsText,
  IsChar,
}
use nwarp.Rust.Num.{decimal, decimal-IsDigit, decimal-ne-nil, IsDigit, parse_u16-decimal, u16_max}
use nwarp.Http.Response.{Response, head, wire}
use nwarp.Proxy.Status.{extract_status, separator, position, split_raw_response}

abbrev crlf : Str
crlf = b'\r' ∷ b'\n' ∷ []

abbrev NoCr : Bytes → Type 0
NoCr bs = All (λ b. b ≢ b'\r') bs

-- The bytes behind the first separator.
abbrev body_of : Bytes → Bytes
body_of raw = get_or (Option.map (λ pos. drop (pos + 4) raw) (position raw)) []

skip_pos :
    (b : ℕ) (bs : Bytes) (o : Option ℕ)
    → get_or (Option.map (λ pos. drop (pos + 4) (b ∷ bs)) (Option.map (λ n. suc n) o)) []
      ≡ get_or (Option.map (λ pos. drop (pos + 4) bs) o) []
skip_pos b bs none = refl
skip_pos b bs (some n) =
    let same : suc n + 4 ≡ suc (n + 4) = omega arith in ap (λ (j : ℕ). drop j (b ∷ bs)) same

position_skip :
    (b : ℕ) (bs : Bytes) → starts_with (b ∷ bs) separator ≡ false → body_of (b ∷ bs) ≡ body_of bs
unfolding position
position_skip b bs h = rw h (skip_pos b bs (position bs))

body_of_line :
    (l : Bytes) (c : ℕ) (x : Bytes)
    → NoCr l
    → c ≢ b'\r'
    → body_of (l ++ (b'\r' ∷ b'\n' ∷ c ∷ x)) ≡ body_of (c ∷ x)
unfolding starts_with
body_of_line [] c x h k =
    position_skip b'\r' (b'\n' ∷ c ∷ x) (ground arith) ∙ position_skip b'\n' (c ∷ x) refl
body_of_line (b ∷ l) c x h k =
    position_skip b (l ++ (b'\r' ∷ b'\n' ∷ c ∷ x)) (ground arith) ∙ body_of_line l c x h.1 k

body_of_end : (l body : Bytes) → NoCr l → body_of (l ++ (separator ++ body)) ≡ body
unfolding starts_with position
body_of_end [] body h = refl
body_of_end (b ∷ l) body h =
    position_skip b (l ++ (separator ++ body)) (ground arith) ∙ body_of_end l body h.1

NoCr-as_bytes : (l : Str) → All (λ c. c ≢ b'\r') l → NoCr (as_bytes l)
NoCr-as_bytes l = as_bytes_avoids b'\r' l (omega arith)

as_bytes-crlf :
    (l x : Str) (body : Bytes)
    → as_bytes (l ++ (crlf ++ x)) ++ body ≡ as_bytes l ++ (b'\r' ∷ b'\n' ∷ (as_bytes x ++ body))
unfolding as_bytes encode_char
as_bytes-crlf l x body =
    ap (λ t. t ++ body) (as_bytes-append l (crlf ++ x)) ∙ append_assoc (as_bytes l) _ body

-- One line of a header block, with another behind it.
head_line :
    (l : Str) (c : ℕ) (x : Str) (body : Bytes)
    → c < 0x80
    → c ≢ b'\r'
    → All (λ d. d ≢ b'\r') l
    → body_of (as_bytes (l ++ (crlf ++ (c ∷ x))) ++ body) ≡ body_of (as_bytes (c ∷ x) ++ body)
head_line l c x body small ne h =
    let first = as_bytes_small c x small in
    ap body_of (as_bytes-crlf l (c ∷ x) body)
    ∙ ap (λ t. body_of (as_bytes l ++ (b'\r' ∷ b'\n' ∷ (t ++ body)))) first
    ∙ body_of_line (as_bytes l) c (as_bytes x ++ body) (NoCr-as_bytes l h) ne
    ∙ ap (λ t. body_of (t ++ body)) (sym first)

last_line :
    (l : Str) (body : Bytes)
    → All (λ d. d ≢ b'\r') l
    → body_of (as_bytes (l ++ (crlf ++ crlf)) ++ body) ≡ body
unfolding as_bytes encode_char
last_line l body h =
    ap body_of (as_bytes-crlf l crlf body) ∙ body_of_end (as_bytes l) body (NoCr-as_bytes l h)

-- The fields of a response that can be told apart on the wire: a status that fits 16 bits, and
-- texts with no line break.
pub record IsSendable (r : Response) : Type 0 where
  pub status : r.status_code ≤ u16_max
  pub text :
      IsText r.status_text × All (λ c. c ≢ b'\r') r.status_text × All (λ c. c ≢ b'\n') r.status_text
  pub server : IsText r.server_name × All (λ c. c ≢ b'\r') r.server_name
  pub content : IsText r.content_type × All (λ c. c ≢ b'\r') r.content_type

digits_no : (b : ℕ) (s : Str) → b < b'0' → All IsDigit s → All (λ c. c ≢ b) s
digits_no b s h = All-mono IsDigit (λ c. c ≢ b) (λ c d. omega arith) s

abbrev status_line : Response → Str
status_line r = lit "HTTP/1.1" ++ (b' ' ∷ (decimal r.status_code ++ (b' ' ∷ r.status_text)))

abbrev after_status : Response → Str
after_status r =
    lit "Server: "
    ++ (r.server_name
        ++ (lit "\r\nContent-Type: "
            ++ (r.content_type
                ++ (lit "\r\nContent-Length: "
                    ++ (decimal (length r.body) ++ lit "\r\nConnection: close\r\n\r\n")))))

head-status_line : (r : Response) → head r ≡ status_line r ++ (crlf ++ after_status r)
unfolding head
head-status_line r =
    ap (λ t. lit "HTTP/1.1 " ++ t)
      (sym (append_assoc (decimal r.status_code) (b' ' ∷ r.status_text) (crlf ++ after_status r)))

-- The lines behind the status line, each from its second character on.
abbrev length_tail : Response → Str
length_tail r =
    lit "ontent-Length: " ++ (decimal (length r.body) ++ lit "\r\nConnection: close\r\n\r\n")

abbrev type_tail : Response → Str
type_tail r = lit "ontent-Type: " ++ (r.content_type ++ (crlf ++ (b'C' ∷ length_tail r)))

abbrev server_tail : Response → Str
server_tail r = lit "erver: " ++ (r.server_name ++ (crlf ++ (b'C' ∷ type_tail r)))

prefixed :
    (a s : Str) → All (λ c. c ≢ b'\r') a → All (λ c. c ≢ b'\r') s → All (λ c. c ≢ b'\r') (a ++ s)
prefixed a s = All-append (λ c. c ≢ b'\r') a s

status_line_clear : (r : Response) → IsSendable r → All (λ c. c ≢ b'\r') (status_line r)
status_line_clear r h =
    prefixed (lit "HTTP/1.1 ") (decimal r.status_code ++ (b' ' ∷ r.status_text)) (omega arith) (
      prefixed (decimal r.status_code) (b' ' ∷ r.status_text)
        (digits_no b'\r' (decimal r.status_code) (omega arith) (decimal-IsDigit r.status_code))
        (omega arith, h.text.1))

body_of-wire : (r : Response) → IsSendable r → body_of (wire r) ≡ r.body
unfolding wire
body_of-wire r h =
    let size =
      digits_no b'\r' (decimal (length r.body)) (omega arith) (decimal-IsDigit (length r.body)) in
    ap (λ t. body_of (as_bytes t ++ r.body)) (head-status_line r)
    ∙ head_line (status_line r) b'S' (server_tail r) r.body (omega arith) (omega arith)
        (status_line_clear r h)
    ∙ head_line (lit "Server: " ++ r.server_name) b'C' (type_tail r) r.body (omega arith)
        (omega arith) (prefixed (lit "Server: ") r.server_name (omega arith) h.server.1)
    ∙ head_line (lit "Content-Type: " ++ r.content_type) b'C' (length_tail r) r.body (omega arith)
        (omega arith) (prefixed (lit "Content-Type: ") r.content_type (omega arith) h.content.1)
    ∙ head_line (lit "Content-Length: " ++ decimal (length r.body)) b'C'
        (lit "onnection: close\r\n\r\n") r.body (omega arith) (omega arith)
        (prefixed (lit "Content-Length: ") (decimal (length r.body)) (omega arith) size)
    ∙ last_line (lit "Connection: close") r.body (omega arith)

IsText-digits : (s : Str) → All IsDigit s → IsText s
IsText-digits s = All-mono IsDigit IsChar (λ c d. inl (omega arith)) s

decimal-IsWord : (n : ℕ) → IsWord (decimal n)
unfolding is_whitespace
decimal-IsWord n = (
  decimal-ne-nil n,
  All-mono IsDigit (λ c. is_whitespace c ≡ false) (λ c d. ground arith) (decimal n)
      (decimal-IsDigit n),
)

status_line-IsText : (r : Response) → IsSendable r → IsText (status_line r)
status_line-IsText r h =
    let digits = IsText-digits (decimal r.status_code) (decimal-IsDigit r.status_code) in
    All-append IsChar (lit "HTTP/1.1 ") (decimal r.status_code ++ (b' ' ∷ r.status_text))
      (IsText-ascii (lit "HTTP/1.1 ") (omega arith))
      (All-append IsChar (decimal r.status_code) (b' ' ∷ r.status_text) digits
        (inl (omega arith), h.text.0))

status_line_one : (r : Response) → IsSendable r → All (λ c. c ≢ b'\n') (status_line r)
status_line_one r h =
    All-append (λ c. c ≢ b'\n') (lit "HTTP/1.1 ") (decimal r.status_code ++ (b' ' ∷ r.status_text))
      (omega arith)
      (All-append (λ c. c ≢ b'\n') (decimal r.status_code) (b' ' ∷ r.status_text)
        (digits_no b'\n' (decimal r.status_code) (omega arith) (decimal-IsDigit r.status_code))
        (omega arith, h.text.2))

protocol-IsWord : IsWord (lit "HTTP/1.1")
unfolding is_whitespace
protocol-IsWord =
    (cons-ne-nil _ _, (refl, (refl, (refl, (refl, (refl, (refl, (refl, (refl, tt)))))))))

space : is_whitespace b' ' ≡ true
unfolding is_whitespace
space = refl

status_words :
    (r : Response) → get_elem? (split_whitespace (status_line r)) 1 ≡ some (decimal r.status_code)
status_words r =
    let code =
      split_whitespace_word (decimal r.status_code) b' ' r.status_text
        (decimal-IsWord r.status_code) space in
    let first =
      split_whitespace_word (lit "HTTP/1.1") b' ' (decimal r.status_code ++ (b' ' ∷ r.status_text))
        protocol-IsWord space in
    ap (λ ws. get_elem? ws 1) (first ∙ ap (◌∷◌ (lit "HTTP/1.1")) code)

-- What the client's text decoder sees of a response.
lossy-wire :
    (r : Response)
    → IsSendable r
    → from_utf8_lossy (wire r)
      ≡ status_line r ++ (b'\r' ∷ b'\n' ∷ from_utf8_lossy (as_bytes (after_status r) ++ r.body))
unfolding wire
lossy-wire r h =
    ap (λ t. from_utf8_lossy (as_bytes t ++ r.body)) (head-status_line r)
    ∙ ap from_utf8_lossy (as_bytes-crlf (status_line r) (after_status r) r.body)
    ∙ from_utf8_lossy-as_bytes_append (status_line r) _ (status_line-IsText r h)
    ∙ ap (λ t. status_line r ++ t)
        (from_utf8_lossy_ascii crlf (as_bytes (after_status r) ++ r.body) (omega arith))

pub extract_status-wire : (r : Response) → IsSendable r → extract_status (wire r) ≡ r.status_code
unfolding extract_status
extract_status-wire r h = rw (lossy-wire r h) (
    rw
      (lines_first (status_line r) (from_utf8_lossy (as_bytes (after_status r) ++ r.body))
        (status_line_one r h))
      (rw (status_words r) (rw (parse_u16-decimal r.status_code h.status) refl)))

-- What one NWarp server sends, another takes apart: the status code and the body of a response
-- come back, whatever bytes the body holds, if the response's texts hold no line break.
pub split_raw_response-wire :
    (r : Response) → IsSendable r → split_raw_response (wire r) ≡ (r.status_code, r.body)
unfolding split_raw_response
split_raw_response-wire r h =
    ap₂ (λ (s : ℕ) (b : Bytes). (s, b)) (extract_status-wire r h) (body_of-wire r h)
