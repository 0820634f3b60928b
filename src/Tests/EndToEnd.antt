-- ===== src/Tests/EndToEnd.antt =====
-- Requests from the bytes of the client to those that it is sent.
use nwarp.Base.{
  ℕ, ◌≡◌, refl, ap, true, equal, Option, none, some, [], ◌∷◌, ◌++◌, Result, ok, err, inl, arith,
}
use nwarp.Rust.Str.{
  Str, lit, is_whitespace, trim_by, trim_end_by, trim_start_by, split, split_by, contains,
  starts_with, eq_ignore_ascii_case, trim_start_matches, to_lowercase, is_ascii,
}
use nwarp.Rust.Utf8.{Bytes, as_bytes, from_utf8, from_utf8_lossy, IsText-ascii}
use nwarp.Rust.Num.{from_str_radix}
use nwarp.Rust.Path.{path_starts_with, components, list_starts_with, join}
use nwarp.Http.Router.{path_is_within, full_path}
use nwarp.Proxy
use nwarp.Wasm
use nwarp.Rust.Io.{ErrorKind, invalid_data}
use nwarp.Rust.Iter.{max_by_key}
use nwarp.Config.{default}
use nwarp.Effect.{wrote, access_line}
use nwarp.Http.Request.{Request, parse}
use nwarp.Http.Request.Path.{sanitize_path, percent_decode, percent_loop, hex_pair}
use nwarp.Http.Request.RoundTrip.Checked.{IsWord-word_test, IsHeader-header_test}
use nwarp.Http.Response.{Response, wire}
use nwarp.Proxy.{ProxyRoute, picked, pick_upstream, pick_loop}
use nwarp.Rust.Map.{insert}
use nwarp.Proxy.Forward.{strip_scheme}
use nwarp.Proxy.Status.RoundTrip.{IsSendable}
use nwarp.Proxy.Status.{split_raw_response}
use nwarp.Server.Connection.{Host, Site, handle}
use nwarp.Server.Connection.Files.{IsServed, IsPlain, handle-file}
use nwarp.Server.Connection.Open.{open_client, open_client-IsOpen}
use nwarp.Server.Connection.Printed.{Asked, IsAsked, sends, read_as}
use nwarp.Server.Connection.Relays.{Answers, IsRelayable, relayed_request, relays, handle-relays}
use nwarp.Tests.Serving.{host}

abbrev asked : Str → Asked
asked target = record {
  method = lit "GET";
  target = target;
  version = lit "HTTP/1.1";
  headers = (lit "A", lit "b") ∷ [];
}

asked-IsAsked : IsAsked (asked (lit "/a.txt"))
unfolding is_whitespace trim_by trim_end_by trim_start_by
asked-IsAsked = record {
  method = IsWord-word_test (lit "GET") refl;
  target = IsWord-word_test (lit "/a.txt") refl;
  version = IsWord-word_test (lit "HTTP/1.1") refl;
  headers = (IsHeader-header_test (lit "A", lit "b") refl (refl, refl), tt);
}

abbrev bare_site : Site ℕ
bare_site = record { cfg = default; proxy = record { routes = [] }; wasm = record { routes = [] } }

a_txt-IsServed : IsServed host bare_site (read_as host.unicode (asked (lit "/a.txt"))) (lit "hi")
unfolding sanitize_path split split_by percent_decode percent_loop hex_pair from_utf8
    from_utf8_lossy from_str_radix contains as_bytes starts_with max_by_key Proxy.match_route
    Wasm.match_route path_is_within full_path path_starts_with components list_starts_with join
    trim_start_by equal
a_txt-IsServed = record {
  method = inl refl;
  no_proxy = refl;
  no_wasm = refl;
  within = refl;
  content = refl;
}

nwarp-IsPlain : IsPlain default.server_name
nwarp-IsPlain = (IsText-ascii default.server_name (omega arith), omega arith)

handle-file_example :
    (block : Bytes) × (handle host open_client bare_site
        (some (lit "p"))
        (sends (asked (lit "/a.txt")) (lit "x") none)
      ≡ some (record {
        effects =
            access_line (lit "GET") (sanitize_path (lit "/a.txt")) 200 (lit "p")
            ∷ wrote block
            ∷ wrote (lit "hi")
            ∷ [];
        route = none;
      }))
    × (split_raw_response (block ++ lit "hi") ≡ (200, lit "hi"))
handle-file_example =
    handle-file host open_client bare_site (some (lit "p")) (asked (lit "/a.txt")) (lit "x") none
      (lit "hi") asked-IsAsked a_txt-IsServed nwarp-IsPlain open_client-IsOpen

-- An application that answers with the path that it is asked for.
abbrev echo : Request → Response
echo req = record {
  status_code = 201;
  status_text = lit "O";
  content_type = lit "t";
  body = as_bytes req.path;
  server_name = lit "N";
}

abbrev answer_to : Option (Result ErrorKind Request) → Result ErrorKind Bytes
answer_to (some (ok req)) = ok (wire (echo req))
answer_to (some (err e)) = err e
answer_to none = err invalid_data

-- A network with this application at every address.
abbrev echo_host : Host ℕ ℕ
echo_host = record host {
  net = record {
    connect = λ addr. none;
    write = λ addr text. none;
    read_to_end = λ addr text. answer_to (parse (λ s. s) (record { ready = text; fault = none }));
  };
}

echoes : Answers echo_host.net echo_host.unicode (strip_scheme (lit "u:1")) echo
echoes = record {
  connects = refl;
  takes = λ text. refl;
  answers = λ text req read. ap answer_to read;
}

abbrev echo_route : ProxyRoute
echo_route = record {
  prefix = lit "/a";
  targets = record { addr = lit "u:1"; healthy = true } ∷ [];
  counter = 7;
}

abbrev echo_site : Site ℕ
echo_site = record bare_site { proxy = record { routes = echo_route ∷ [] } }

abbrev echoed : Request
echoed = read_as echo_host.unicode (asked (lit "/a.txt"))

echo_found : Proxy.match_route echo_site.proxy echoed.path ≡ some echo_route
unfolding sanitize_path split split_by percent_decode percent_loop hex_pair from_utf8
    from_utf8_lossy from_str_radix contains as_bytes starts_with max_by_key Proxy.match_route
echo_found = refl

echo_picked : (pick_upstream echo_route).0 ≡ picked (lit "u:1")
unfolding pick_upstream pick_loop
echo_picked = refl

echoed-IsRelayable : IsRelayable echo_host.iter (strip_scheme (lit "u:1")) (lit "p") echoed
unfolding sanitize_path split split_by percent_decode percent_loop hex_pair from_utf8
    from_utf8_lossy from_str_radix contains as_bytes is_whitespace trim_by trim_end_by trim_start_by
    strip_scheme trim_start_matches eq_ignore_ascii_case insert to_lowercase is_ascii
echoed-IsRelayable = record {
  method = IsWord-word_test (lit "GET") refl;
  path = IsWord-word_test (lit "/a.txt") refl;
  headers = (
    IsHeader-header_test (lit "Host", lit "u:1") refl (refl, refl),
    (
      IsHeader-header_test (lit "X-Forwarded-For", lit "p") refl (refl, refl),
      (
        IsHeader-header_test (lit "Connection", lit "close") refl (refl, refl),
        (IsHeader-header_test (lit "a", lit "b") refl (refl, refl), tt),
      ),
    ),
  );
}

abbrev echo_answer : Response
echo_answer =
    echo
      (relayed_request echo_host.unicode echo_host.iter (strip_scheme (lit "u:1")) (lit "p") echoed)

echo_answer-IsSendable : IsSendable echo_answer
echo_answer-IsSendable = record {
  status = omega arith;
  text = ((inl (omega arith), tt), (omega arith, tt), (omega arith, tt));
  server = ((inl (omega arith), tt), (omega arith, tt));
  content = ((inl (omega arith), tt), (omega arith, tt));
}

handle-relays_example :
    handle echo_host open_client echo_site (some (lit "p")) (sends (asked (lit "/a.txt")) [] none)
    ≡ some (record {
      effects = relays echo_host echoed (lit "p") echo_answer;
      route = some (pick_upstream echo_route).1;
    })
handle-relays_example =
    handle-relays echo_host open_client echo_site (some (lit "p")) (asked (lit "/a.txt")) [] none
      echo_route (lit "u:1") echo asked-IsAsked echo_found echo_picked echoes echoed-IsRelayable
      echo_answer-IsSendable open_client-IsOpen
