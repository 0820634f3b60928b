-- ===== src/Proxy/Shared.antt =====
-- The routes of a table are shared: a request moves the counter of the route that it matched.
pub mod Kept
pub mod LastOf
use nwarp.Base.{
  Bool, false, not, ◌&&◌, ◌||◌, Option, none, some, List, [], ◌∷◌, if◌then◌else◌, equal,
}
use nwarp.Rust.Str.{Str}
use nwarp.Proxy.{ProxyRoute, ProxyTable}

-- Whether a route of the prefix stands in the list.
unfoldable pub has_prefix : Str → List ProxyRoute → Bool
has_prefix prefix [] = false
has_prefix prefix (r ∷ rs) = equal r.prefix prefix || has_prefix prefix rs

-- The list with a route in place of the last one of its prefix, which is the one that a lookup gives.
unfoldable pub put_last : ProxyRoute → List ProxyRoute → List ProxyRoute
unfolding has_prefix
put_last route [] = []
put_last route (r ∷ rs) =
    let deeper = r ∷ put_last route rs in
    if has_prefix route.prefix rs
    then deeper
    else if equal r.prefix route.prefix
    then route ∷ rs
    else deeper

-- The table behind a request that leaves the route that it matched with another counter.
unfoldable pub store_route : Option ProxyRoute → ProxyTable → ProxyTable
unfolding put_last
store_route none table = table
store_route (some route) table = record { routes = put_last route table.routes }
