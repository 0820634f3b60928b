-- ===== src/Server/Connection/Alive.antt =====
-- A connection over HTTP/1.1 and panics.

use nwarp.Base.{◌≡◌, false, List}
use nwarp.Rust.Str.{Str}
use nwarp.Effect.{Effect, ended}
use nwarp.Http.Request.{Request}
use nwarp.Http.Response.{Response}

abbrev pub IsAlive : List Effect → Type 0
IsAlive es = ended es ≡ false
