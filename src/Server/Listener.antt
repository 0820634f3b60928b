-- ===== src/Server/Listener.antt =====
-- src/server/listener.rs: the tables of a running server, and the watch over its configuration.
pub mod Watched
use nwarp.Base.{
  ℕ, Bool, true, false, Option, none, some, List, [], ◌∷◌, ◌++◌, ◌==◌, length, get_elem?, get_or,
  if◌then◌else◌,
}
use nwarp.Config.{Config}
use nwarp.Proxy.{ProxyTable, has_routes}
use nwarp.Proxy
use nwarp.Wasm.{Runtime, WasmTable}
use nwarp.Wasm

-- The configuration that the server was started with; the proxy tables made so far, which requests
-- and health checkers share, with the place of the one that the next request loads; the WASM table;
-- the modification time that the watcher saw last; and the places of the tables that the health
-- checkers started so far look at.
pub record Listener (M : Type 0) : Type 0 where
  pub cfg : Config
  pub tables : List ProxyTable
  pub current : ℕ
  pub wasm_table : WasmTable M
  pub last_modified : Option ℕ
  pub checkers : List ℕ

-- The table at a place.
abbrev pub table_at : List ProxyTable → ℕ → ProxyTable
table_at tables i = get_or (get_elem? tables i) (record { routes = [] })

-- The table that `proxy_table.load()` gives.
abbrev pub proxy_table : {M : Type 0} → Listener M → ProxyTable
proxy_table l = table_at l.tables l.current

-- What the file system holds at a round: the file's modification time, where it can be read, and
-- the configuration that `Config::load` makes of it.
pub record Snapshot : Type 0 where
  pub modified : Option ℕ
  pub loaded : Config

abbrev pub seen : Option ℕ → ℕ → Bool
seen none modified = false
seen (some last) modified = last == modified

-- The health checker that is started for the table at a place, if it has routes.
unfoldable pub checkers_for : ℕ → ProxyTable → List ℕ
checkers_for i table = if has_routes table then i ∷ [] else []

module _ {M S : Type 0} (rt : Runtime M S) where
  -- `run` up to the accept loop, with the time at which the watcher starts.
  unfoldable pub start : Config → Option ℕ → Listener M
  unfolding checkers_for
  start cfg modified =
      let table = Proxy.from_config cfg in
      record {
        cfg = cfg;
        tables = table ∷ [];
        current = 0;
        wasm_table = Wasm.from_config rt cfg;
        last_modified = modified;
        checkers = checkers_for 0 table;
      }

  unfoldable pub reload : ℕ → Config → Listener M → Listener M
  unfolding checkers_for
  reload modified new_cfg l =
      let new_proxy_table = Proxy.from_config new_cfg in
      let place = length l.tables in
      record l {
        tables = l.tables ++ (new_proxy_table ∷ []);
        current = place;
        wasm_table = Wasm.from_config rt new_cfg;
        last_modified = some modified;
        checkers = checkers_for place new_proxy_table ++ l.checkers;
      }

  unfoldable pub on_modified : Option ℕ → Config → Listener M → Listener M
  unfolding reload
  on_modified none new_cfg l = l
  on_modified (some modified) new_cfg l =
      if seen l.last_modified modified then l else reload modified new_cfg l

  -- A round of the `loop` in `spawn_config_watcher`.
  unfoldable pub watch_round : Snapshot → Listener M → Listener M
  unfolding on_modified
  watch_round now l = on_modified now.modified now.loaded l

  -- The rounds one after another.
  unfoldable pub watch : List Snapshot → Listener M → Listener M
  unfolding watch_round
  watch [] l = l
  watch (now ∷ later) l = watch later (watch_round now l)
