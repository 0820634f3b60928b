-- ===== src/Logging/Lines.antt =====
-- What the access log holds behind the effects of the connections.
use nwarp.Base.{
  ℕ, ◌≡◌, ◌≢◌, ◌∙◌, ap, sym, refl, true, false, Option, none, some, List, [], ◌∷◌, ◌++◌, All,
  All-append, All-mono, equal, equal_iff, equal_refl, append_assoc, append-nil, inl, arith, get_or,
  if◌then◌else◌,
}
use nwarp.Rust.Str.{Str, lines}
use nwarp.Rust.Str.Split.{IsOneLine, unlines, lines-unlines}
use nwarp.Rust.Utf8.{
  Bytes, IsText, as_bytes, as_bytes-append, from_utf8_lossy, from_utf8_lossy-as_bytes,
}
use nwarp.Rust.Map.{get, get-insert}
use nwarp.Effect.{Effect, wrote, lost, access_line, error_line, answered, aborted}
use nwarp.Logging.{
  Entry, Logger, Sink, Logs, access_log_entry, timestamp, contents, append_line, print, write_line,
  write_json, access, error, log_effect, log_effects,
}

-- What is relied on: the JSON of an entry is one line of text, as serde_json's compact form is, the
-- disk takes whole lines, and the standard output takes them.
pub record IsReliable (sink : Sink) : Type 0 where
  pub one_line : (e : Entry) (s : Str) → sink.to_string e ≡ some s → IsOneLine s × IsText s
  pub opens : (path : Str) → sink.opens path ≡ true
  pub takes : (path : Str) (bytes : Bytes) → sink.takes path bytes ≡ bytes
  pub prints : (line : Bytes) → sink.prints line ≡ true

abbrev pub push_some : Option Str → List Str → List Str
push_some none ts = ts
push_some (some t) ts = t ∷ ts

-- The JSON texts of the requests among the effects.
abbrev pub access_texts : Sink → List (Option ℕ × Effect) → List Str
access_texts sink [] = []
access_texts sink ((now, access_line method path status peer) ∷ es) =
    push_some (sink.to_string (access_log_entry (timestamp now) method path status peer))
      (access_texts sink es)
access_texts sink ((now, wrote bytes) ∷ es) = access_texts sink es
access_texts sink ((now, lost e) ∷ es) = access_texts sink es
access_texts sink ((now, error_line msg) ∷ es) = access_texts sink es
access_texts sink ((now, answered status headers body) ∷ es) = access_texts sink es
access_texts sink ((now, aborted) ∷ es) = access_texts sink es

module _ (sink : Sink) (ok_sink : IsReliable sink) where
  print-files : (line : Bytes) (logs : Logs) → (print sink line logs).files ≡ logs.files
  unfolding print
  print-files line logs = rw (ok_sink.prints line) refl

  write_line-panicked :
      (path : Str) (o : Option Str) (logs : Logs)
      → (write_line sink path o logs).panicked ≡ logs.panicked
  unfolding write_line print
  write_line-panicked path none logs = refl
  write_line-panicked path (some s) logs = rw (ok_sink.prints (as_bytes (s ++ (b'\n' ∷ [])))) refl

  contents-write_line_self :
      (path s : Str) (logs : Logs)
      → contents path (write_line sink path (some s) logs)
        ≡ contents path logs ++ as_bytes (s ++ (b'\n' ∷ []))
  unfolding write_line append_line
  contents-write_line_self path s logs =
      let line = as_bytes (s ++ (b'\n' ∷ [])) in
      ap (λ files. get_or (get path files) [])
        (print-files line (record logs { files = append_line sink path line logs }))
      ∙ rw (ok_sink.opens path) (
          rw (ok_sink.takes path line) (
            rw (get-insert path path (contents path logs ++ line) logs.files)
              (rw (equal_refl path) refl)))

  contents-write_line_other :
      (path other : Str) (o : Option Str) (logs : Logs)
      → path ≢ other
      → contents path (write_line sink other o logs) ≡ contents path logs
  unfolding write_line append_line
  contents-write_line_other path other none logs ne = refl
  contents-write_line_other path other (some s) logs ne =
      let line = as_bytes (s ++ (b'\n' ∷ [])) in
      let apart : equal other path ≡ false = ground (arith, equal_iff other path) in
      ap (λ files. get_or (get path files) [])
        (print-files line (record logs { files = append_line sink other line logs }))
      ∙ rw (ok_sink.opens other) (
          rw (get-insert other path (contents other logs ++ sink.takes other line) logs.files)
            (rw apart refl))

  contents-write_line :
      (path : Str) (o : Option Str) (ts : List Str) (logs : Logs)
      → contents path (write_line sink path o logs) ++ as_bytes (unlines ts)
        ≡ contents path logs ++ as_bytes (unlines (push_some o ts))
  unfolding unlines write_line
  contents-write_line path none ts logs = refl
  contents-write_line path (some s) ts logs =
      let line = s ++ (b'\n' ∷ []) in
      let rest = unlines ts in
      ap (λ t. t ++ as_bytes rest) (contents-write_line_self path s logs)
      ∙ append_assoc (contents path logs) (as_bytes line) (as_bytes rest)
      ∙ ap (λ t. contents path logs ++ t)
          (sym (as_bytes-append line rest) ∙ ap as_bytes (append_assoc s (b'\n' ∷ []) rest))

  module _ (logger : Logger) (apart : logger.access_path ≢ logger.error_path) where
    log_effect-panicked :
        (now : Option ℕ) (e : Effect) (logs : Logs)
        → (log_effect sink logger now e logs).panicked ≡ logs.panicked
    unfolding log_effect access error write_json
    log_effect-panicked now (access_line method path status peer) logs =
        write_line-panicked logger.access_path _ logs
    log_effect-panicked now (error_line msg) logs = write_line-panicked logger.error_path _ logs
    log_effect-panicked now (wrote bytes) logs = refl
    log_effect-panicked now (lost e) logs = refl
    log_effect-panicked now (answered status headers body) logs = refl
    log_effect-panicked now aborted logs = refl

    contents-log_effect :
        (now : Option ℕ) (e : Effect) (es : List (Option ℕ × Effect)) (logs : Logs)
        → contents logger.access_path (log_effect sink logger now e logs)
            ++ as_bytes (unlines (access_texts sink es))
          ≡ contents logger.access_path logs
            ++ as_bytes (unlines (access_texts sink ((now, e) ∷ es)))
    unfolding log_effect access error write_json
    contents-log_effect now (access_line method path status peer) es logs =
        contents-write_line logger.access_path _ (access_texts sink es) logs
    contents-log_effect now (error_line msg) es logs =
        ap (λ t. t ++ as_bytes (unlines (access_texts sink es)))
          (contents-write_line_other logger.access_path logger.error_path _ logs apart)
    contents-log_effect now (wrote bytes) es logs = refl
    contents-log_effect now (lost e) es logs = refl
    contents-log_effect now (answered status headers body) es logs = refl
    contents-log_effect now aborted es logs = refl

    -- The access log holds what it held, and then a line for each request, in order.
    contents-log_effects :
        (es : List (Option ℕ × Effect)) (logs : Logs)
        → logs.panicked ≡ false
        → contents logger.access_path (log_effects sink logger es logs)
          ≡ contents logger.access_path logs ++ as_bytes (unlines (access_texts sink es))
    unfolding log_effects unlines as_bytes
    contents-log_effects [] logs live = sym (append-nil (contents logger.access_path logs))
    contents-log_effects ((now, e) ∷ es) logs live =
        ap
          (λ over.
            contents logger.access_path (
              log_effects sink logger es
                (if over then logs else log_effect sink logger now e logs)))
          live
        ∙ contents-log_effects es (log_effect sink logger now e logs)
            (log_effect-panicked now e logs ∙ live)
        ∙ contents-log_effect now e es logs

  push_some-IsOneLine :
      (e : Entry) (o : Option Str) (ts : List Str)
      → sink.to_string e ≡ o
      → All (λ t. IsOneLine t × IsText t) ts
      → All (λ t. IsOneLine t × IsText t) (push_some o ts)
  push_some-IsOneLine e none ts at h = h
  push_some-IsOneLine e (some s) ts at h = (ok_sink.one_line e s at, h)

  access_texts-IsOneLine :
      (es : List (Option ℕ × Effect)) → All (λ t. IsOneLine t × IsText t) (access_texts sink es)
  access_texts-IsOneLine [] = tt
  access_texts-IsOneLine ((now, access_line method path status peer) ∷ es) =
      push_some-IsOneLine (access_log_entry (timestamp now) method path status peer) _
        (access_texts sink es) refl (access_texts-IsOneLine es)
  access_texts-IsOneLine ((now, error_line msg) ∷ es) = access_texts-IsOneLine es
  access_texts-IsOneLine ((now, wrote bytes) ∷ es) = access_texts-IsOneLine es
  access_texts-IsOneLine ((now, lost e) ∷ es) = access_texts-IsOneLine es
  access_texts-IsOneLine ((now, answered status headers body) ∷ es) = access_texts-IsOneLine es
  access_texts-IsOneLine ((now, aborted) ∷ es) = access_texts-IsOneLine es

unlines-IsText : (ts : List Str) → All (λ t. IsOneLine t × IsText t) ts → IsText (unlines ts)
unfolding unlines
unlines-IsText [] h = tt
unlines-IsText (t ∷ ts) h =
    All-append _ t (b'\n' ∷ unlines ts) h.0.1 (inl (omega arith), unlines-IsText ts h.1)

-- The lines of an access log that was empty are the JSON texts of the requests, each whole and in
-- order, where the JSON of an entry is one line, the disk and the standard output take what is
-- written, the two logs are different files, and the logger has not panicked.
pub lines-log_effects :
    (sink : Sink) (logger : Logger) (es : List (Option ℕ × Effect)) (logs : Logs)
    → IsReliable sink
    → logger.access_path ≢ logger.error_path
    → contents logger.access_path logs ≡ []
    → logs.panicked ≡ false
    → lines (from_utf8_lossy (contents logger.access_path (log_effects sink logger es logs)))
      ≡ access_texts sink es
lines-log_effects sink logger es logs ok_sink apart empty live =
    let fit = access_texts-IsOneLine sink ok_sink es in
    ap (λ t. lines (from_utf8_lossy t))
      (contents-log_effects sink ok_sink logger apart es logs live
        ∙ ap (λ t. t ++ as_bytes (unlines (access_texts sink es))) empty)
    ∙ ap lines (
        from_utf8_lossy-as_bytes (unlines (access_texts sink es))
          (unlines-IsText (access_texts sink es) fit))
    ∙ lines-unlines (access_texts sink es)
        (All-mono (λ t. IsOneLine t × IsText t) IsOneLine (λ t h. h.0) (access_texts sink es) fit)
