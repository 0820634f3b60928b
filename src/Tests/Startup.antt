-- ===== src/Tests/Startup.antt =====
-- Runs of src/server/listener.rs, src/main.rs and src/tls/mod.rs.
use nwarp.Base.{ok_or, ◌≡◌, refl, true, none, some, List, [], ◌∷◌, ok, equal, ℕ, if◌then◌else◌}
use nwarp.Rust.Str.{Str, lit}
use nwarp.Config.{Config, default}
use nwarp.Main.{Machine}
use nwarp.Server.Listener.{Snapshot, start, watch}
use nwarp.Server.Listener.Watched.{IsWatched, loads, watch-IsWatched}
use nwarp.Tests.Serving.{guest, host}
use nwarp.Tls.{Pem, pop, load_private_key}
use nwarp.Tls.Key.{load_private_key_last}
use nwarp.Rust.Io.{invalid_data, invalid_input}

abbrev other_cfg : Config
other_cfg = record default { proxy_routes = (lit "/api", lit "u:1" ∷ []) ∷ [] }

abbrev rounds : List Snapshot
rounds =
    record { modified = some 5; loaded = other_cfg }
    ∷ record { modified = none; loaded = default }
    ∷ []

watch-IsWatched_example :
    IsWatched guest
      (loads rounds (default ∷ []))
      (watch guest rounds (start guest default (some 4)))
watch-IsWatched_example = watch-IsWatched guest default (some 4) rounds

abbrev arguments : List Str
arguments = lit "nwarp" ∷ lit "-c" ∷ lit "x.conf" ∷ []

abbrev machine : Machine ℕ ℕ
machine = record {
  host = host;
  iter = λ m. m;
  exists = λ path. true;
  read = λ path. ok (lit "worker_threads = 0\nport = 80");
  modified = λ path. some 5;
  build_fault = λ n. none;
  bind_fault = λ addr. if equal addr (lit "0.0.0.0:80") then some invalid_input else none;
}

abbrev key_file : Pem
key_file = record {
  open_file = λ path. ok (lit "pem");
  certs = λ file. none;
  pkcs8_private_keys = λ file. some (lit "p" ∷ lit "q" ∷ []);
  rsa_private_keys = λ file. some (lit "r" ∷ []);
  single_cert = λ chain key. true;
}

load_private_key_last_example :
    load_private_key key_file (lit "key.pem")
    ≡ ok_or (pop (lit "r" ∷ lit "p" ∷ lit "q" ∷ [])) invalid_data
load_private_key_last_example =
    load_private_key_last key_file (lit "key.pem") (lit "pem") (lit "r" ∷ [])
      (lit "p" ∷ lit "q" ∷ []) refl refl refl
