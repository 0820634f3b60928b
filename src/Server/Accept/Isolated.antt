-- ===== src/Server/Accept/Isolated.antt =====
-- An accept, a handshake or a set-up that fails.
use nwarp.Base.{List, [], ◌++◌}
use nwarp.Rust.Str.{Str}
use nwarp.Effect.{Effect}
use nwarp.Http2
use nwarp.Http3
use nwarp.Server.Connection.{Host}
use nwarp.Server.Run.{Server}

-- A server that has done this before.
abbrev pub behind : {M : Type 0} → List Effect → Server M → Server M
behind done s = record s { effects = done ++ s.effects }

module _ {M S : Type 0} (host : Host M S) where
  -- A server that has done nothing yet.
  abbrev pub fresh : Server M → Server M
  fresh s = record s { effects = [] }
