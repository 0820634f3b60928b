-- ===== src/Tests/Logs.antt =====
-- Runs of src/logging/mod.rs.
use nwarp.Base.{
  ℕ, ◌≡◌, ◌≢◌, refl, true, false, Option, none, some, List, [], ◌∷◌, ◌==◌, if◌then◌else◌, length,
  leb, ltb, Bool, ◌&&◌, equal_iff, equal, some-injective, Bool-cases, inl, inr, arith,
}
use mathlib.Core.Bool.{false≢true}
use mathlib.Core.Path.{subst}
use nwarp.Rust.Str.{Str, lit, lines}
use nwarp.Rust.Str.Split.{IsOneLine}
use nwarp.Rust.Utf8.{IsText, from_utf8_lossy}
use nwarp.Rust.Map.{get}
use nwarp.Effect.{Effect, wrote, access_line, error_line}
use nwarp.Logging.{Entry, Sink, Logger, Logs, contents, log_effects}
use nwarp.Logging.Lines.{IsReliable, access_texts, lines-log_effects}

abbrev pub json : Entry → Str
json e = if length e == 8 then lit "{\"level\":\"INFO\"}" else lit "{}"

abbrev pub sink : Sink
sink = record {
  to_string = λ e. some (json e);
  opens = λ path. true;
  takes = λ path bytes. bytes;
  prints = λ line. true;
}

abbrev printable : Str → Bool
printable [] = true
printable (c ∷ cs) = (leb 32 c && ltb c 127) && printable cs

printable-IsOneLine : (s : Str) → printable s ≡ true → IsOneLine s × IsText s
printable-IsOneLine [] h = (tt, tt)
printable-IsOneLine (c ∷ cs) h =
    let rest = printable-IsOneLine cs (ground arith) in
    ((((ground arith), (ground arith)), rest.0), (inl (ground arith), rest.1))

json-IsOneLine : (e : Entry) → IsOneLine (json e) × IsText (json e)
json-IsOneLine e = elim (Bool-cases (length e == 8)) [
  | inl request ↦ rw request (printable-IsOneLine (lit "{\"level\":\"INFO\"}") refl)
  | inr fault ↦ rw fault (printable-IsOneLine (lit "{}") refl)
]

pub sink-IsReliable : IsReliable sink
sink-IsReliable = record {
  one_line = λ e s same.
      subst (λ t. IsOneLine t × IsText t) (some-injective (json e) s same) (json-IsOneLine e);
  opens = λ path. refl;
  takes = λ path bytes. refl;
  prints = λ line. refl;
}

abbrev pub logger : Logger
logger = record { access_path = lit "a.log"; error_path = lit "e.log" }

abbrev done : List (Option ℕ × Effect)
done =
    (some 5, error_line (lit "late"))
    ∷ (some 6, access_line (lit "GET") (lit "/") 200 (lit "p"))
    ∷ (none, wrote (lit "x"))
    ∷ (none, access_line (lit "PUT") (lit "/") 405 (lit "q"))
    ∷ []

abbrev pub no_logs : Logs
no_logs = record { files = []; printed = []; dirs = []; panicked = false }

pub empty_log : contents (lit "a.log") no_logs ≡ []
unfolding get
empty_log = refl

pub logs_apart : logger.access_path ≢ logger.error_path
unfolding equal
logs_apart = λ same. false≢true ((equal_iff logger.access_path logger.error_path).1 same)

lines-log_effects_example :
    lines (from_utf8_lossy (contents logger.access_path (log_effects sink logger done no_logs)))
    ≡ access_texts sink done
lines-log_effects_example =
    lines-log_effects sink logger done no_logs sink-IsReliable logs_apart empty_log refl
