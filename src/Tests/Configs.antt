-- ===== src/Tests/Configs.antt =====
-- Runs of src/config/mod.rs.
use mathlib.Core.Bool.{false≢true}
use nwarp.Rust.Str.Split.{unlines}
use nwarp.Config.Lines.{IsSetting, Distinct, setting_line, parse_kv-unlines}
use nwarp.Base.{
  All, false, arith, equal, equal_iff, map, sym, ◌∙◌, ◌≡◌, refl, Bool, true, none, List, [], ◌∷◌,
  Result, ok,
}
use mathlib.Core.List.{filter_map, cons-ne-nil}
use nwarp.Rust.Str.{
  Str, lit, lines, trim, trim_by, split, split_once, strip_prefix, starts_with,
  eq_ignore_ascii_case, is_whitespace, trim_end_by,
}
use nwarp.Rust.Num.{parse_u16, parse_u64}
use nwarp.Rust.Map.{insert, get}
use nwarp.Rust.Io.{ErrorKind}
use nwarp.Config.{
  default, entry_of, parse_kv, port_or, count_or, flag_or, upstreams_of, proxy_route_of,
  wasm_route_of, apply, after_read, load,
}
use nwarp.Config.Valid.{IsValid, load-IsValid}
use nwarp.Config.Keys.{last_value, get-parse_kv}

abbrev in_order : List (Str × Str) → List (Str × Str)
in_order m = m

abbrev every : Str → Bool
every path = true

abbrev file : Str → Result ErrorKind Str
file path = ok (
    lit
      "# site\nport = +80\r\nport= 99999\nworker_threads = 0\ntls_enabled=TRUE\nserver_name = \"My server\"\nproxy_route /api = http://a:1, ,http://b:2\n proxy_route  /x = ,\nwasm_route /w = w.wasm")

reading : Unit {0}
unfolding load after_read apply parse_kv entry_of port_or count_or flag_or upstreams_of
    proxy_route_of wasm_route_of parse_u16 parse_u64 insert get lines trim trim_by split split_once
    strip_prefix starts_with eq_ignore_ascii_case filter_map
reading = tt

load_test : load in_order every file (lit "nwarp.conf") ≡ record default {
  worker_threads = 1;
  tls_enabled = true;
  server_name = lit "My server";
  proxy_routes = (lit "/api", lit "http://a:1" ∷ lit "http://b:2" ∷ []) ∷ [];
  wasm_routes = (lit "/w", lit "w.wasm") ∷ [];
}
unfolding reading
load_test = refl

load-IsValid_example : IsValid (load in_order every file (lit "nwarp.conf"))
load-IsValid_example = load-IsValid in_order every file (lit "nwarp.conf")

get-parse_kv_example :
    get (lit "port") (parse_kv (lit "port = 1\nport = 2"))
    ≡ last_value (lit "port") (lines (lit "port = 1\nport = 2")) none
get-parse_kv_example = get-parse_kv (lit "port") (lit "port = 1\nport = 2")

abbrev settings : List (Str × Str)
settings = (lit "host", lit "::1") ∷ (lit "proxy_route /a", lit "u:1, u:2") ∷ []

settings-IsSetting : All IsSetting settings
unfolding is_whitespace trim_end_by starts_with
settings-IsSetting = (
  record {
    some_key = cons-ne-nil _ _;
    no_comment = refl;
    no_sign = omega arith;
    key_trimmed = (refl, refl);
    trimmed = (refl, refl);
    unquoted = (refl, refl);
    one_line = (omega arith, omega arith);
  },
  (
    record {
      some_key = cons-ne-nil _ _;
      no_comment = refl;
      no_sign = omega arith;
      key_trimmed = (refl, refl);
      trimmed = (refl, refl);
      unquoted = (refl, refl);
      one_line = (omega arith, omega arith);
    },
    tt,
  ),
)

keys_differ : equal (lit "host") (lit "proxy_route /a") ≡ false
unfolding equal
keys_differ = refl

settings-Distinct : Distinct settings
settings-Distinct = (
  (
    λ same. false≢true (sym keys_differ ∙ (equal_iff (lit "host") (lit "proxy_route /a")).1 same),
    tt,
  ),
  (tt, tt),
)

parse_kv-unlines_example : parse_kv (unlines (map setting_line settings)) ≡ settings
parse_kv-unlines_example = parse_kv-unlines settings settings-IsSetting settings-Distinct
