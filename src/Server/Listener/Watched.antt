-- ===== src/Server/Listener/Watched.antt =====
-- What holds of a server over all rounds of the watch.
use nwarp.Base.{
  ℕ, ◌≡◌, refl, true, Option, none, some, List, [], ◌∷◌, ◌++◌, In, length, here, there, Bool-cases,
  inl, inr,
}
use nwarp.Config.{Config}
use nwarp.Proxy.{ProxyTable, has_routes}
use nwarp.Proxy
use nwarp.Wasm.{Runtime, WasmTable}
use nwarp.Wasm
use nwarp.Server.Listener.{
  Listener, Snapshot, table_at, proxy_table, seen, checkers_for, start, reload, on_modified,
  watch_round, watch,
}

-- The table in use is checked, unless it has no routes, and it and the WASM table come from one
-- configuration among those that were loaded.
pub record IsWatched {M S : Type 0} (rt : Runtime M S) (loaded : List Config) (l : Listener M)
    : Type 0 where
  pub source : Config
  pub source_loaded : In source loaded
  pub proxy_source : proxy_table l ≡ Proxy.from_config source
  pub wasm_source : l.wasm_table ≡ Wasm.from_config rt source
  pub checked : has_routes (proxy_table l) ≡ true → In l.current l.checkers

-- The configurations that the rounds may load, the latest first.
abbrev pub loads : List Snapshot → List Config → List Config
loads [] before = before
loads (now ∷ later) before = loads later (now.loaded ∷ before)

In-checkers_for :
    (i : ℕ) (table : ProxyTable) (old : List ℕ)
    → has_routes table ≡ true
    → In i (checkers_for i table ++ old)
unfolding checkers_for
In-checkers_for i table old h = rw h (here refl)

In-checkers_for_first :
    (i : ℕ) (table : ProxyTable) → has_routes table ≡ true → In i (checkers_for i table)
unfolding checkers_for
In-checkers_for_first i table h = rw h (here refl)

-- The table that is added is found at its place.
pub table_at_new :
    (tables : List ProxyTable) (table : ProxyTable)
    → table_at (tables ++ (table ∷ [])) (length tables) ≡ table
table_at_new [] table = refl
table_at_new (t ∷ tables) table = table_at_new tables table

module _ {M S : Type 0} (rt : Runtime M S) where
  weaken :
      (c : Config) (loaded : List Config) (l : Listener M)
      → IsWatched rt loaded l
      → IsWatched rt (c ∷ loaded) l
  weaken c loaded l w = record {
    source = w.source;
    source_loaded = there w.source_loaded;
    proxy_source = w.proxy_source;
    wasm_source = w.wasm_source;
    checked = w.checked;
  }

  on_modified-IsWatched :
      (modified : Option ℕ) (c : Config) (loaded : List Config) (l : Listener M)
      → IsWatched rt loaded l
      → IsWatched rt (c ∷ loaded) (on_modified rt modified c l)
  unfolding on_modified reload
  on_modified-IsWatched none c loaded l w = weaken c loaded l w
  on_modified-IsWatched (some m) c loaded l w = elim (Bool-cases (seen l.last_modified m)) [
    | inl same ↦ rw same (weaken c loaded l w)
    | inr changed ↦ rw changed (record {
      source = c;
      source_loaded = here refl;
      proxy_source = table_at_new l.tables (Proxy.from_config c);
      wasm_source = refl;
      checked = λ some_routes.
          In-checkers_for (length l.tables) (Proxy.from_config c) l.checkers
            (rw (table_at_new l.tables (Proxy.from_config c)) at some_routes);
    })
  ]

  watch-IsWatched_from :
      (rounds : List Snapshot) (loaded : List Config) (l : Listener M)
      → IsWatched rt loaded l
      → IsWatched rt (loads rounds loaded) (watch rt rounds l)
  unfolding watch watch_round
  watch-IsWatched_from [] loaded l w = w
  watch-IsWatched_from (now ∷ later) loaded l w =
      watch-IsWatched_from later (now.loaded ∷ loaded) (watch_round rt now l)
        (on_modified-IsWatched now.modified now.loaded loaded l w)

  -- After the start and any rounds of the watch, the two tables come from one and the same
  -- configuration, either the first or one that a round loaded, and a proxy table with routes has
  -- a health checker.
  pub watch-IsWatched :
      (cfg : Config) (modified : Option ℕ) (rounds : List Snapshot)
      → IsWatched rt (loads rounds (cfg ∷ [])) (watch rt rounds (start rt cfg modified))
  unfolding start
  watch-IsWatched cfg modified rounds =
      watch-IsWatched_from rounds (cfg ∷ []) (start rt cfg modified) (record {
        source = cfg;
        source_loaded = here refl;
        proxy_source = refl;
        wasm_source = refl;
        checked = In-checkers_for_first 0 (Proxy.from_config cfg);
      })
