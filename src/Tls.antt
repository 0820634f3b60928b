-- ===== src/Tls.antt =====
-- src/tls/mod.rs: the certificates, the key, the listener, and the protocol of a connection.
pub mod Accept
pub mod Key
use nwarp.Base.{
  ℕ, Bool, Option, none, some, List, [], ◌∷◌, ◌++◌, if◌then◌else◌, equal, Result, ok, err, ok_or,
  ◌>>=◌,
}
use mathlib.Core.Option
use nwarp.Rust.Str.{Str, lit}
use nwarp.Rust.Num.{decimal}
use nwarp.Rust.Utf8.{Bytes}
use nwarp.Rust.Io.{ErrorKind, invalid_data}
use nwarp.Config.{Config}

-- The file system, and what rustls_pemfile finds in a file's bytes: the items of a kind, or `none`
-- where the PEM is malformed. `single_cert` is rustls's check of a chain and a key.
pub record Pem : Type 0 where
  pub open_file : Str → Result ErrorKind Bytes
  pub certs : Bytes → Option (List Bytes)
  pub pkcs8_private_keys : Bytes → Option (List Bytes)
  pub rsa_private_keys : Bytes → Option (List Bytes)
  pub single_cert : List Bytes → Bytes → Bool

-- `Vec::pop`: the last element.
unfoldable pub pop : List Bytes → Option Bytes
pop [] = none
pop (key ∷ []) = some key
pop (key ∷ next ∷ keys) = pop (next ∷ keys)

-- A `ServerConfig`: the chain, the key, and the protocols offered.
pub record ServerConfig : Type 0 where
  pub chain : List Bytes
  pub key : Bytes
  pub alpn_protocols : List Bytes

abbrev bound : {A : Type 0} → A → Option ErrorKind → Result ErrorKind A
bound a none = ok a
bound a (some e) = err e

module _ (pem : Pem) where
  unfoldable pub load_certs : Str → Result ErrorKind (List Bytes)
  load_certs path = do file ← pem.open_file path; ok_or (pem.certs file) invalid_data

  -- The file is read a second time, for RSA keys.
  unfoldable pub load_rsa_key : Str → Result ErrorKind Bytes
  unfolding pop
  load_rsa_key path = do
    file ← pem.open_file path
    rsa ← ok_or (pem.rsa_private_keys file) invalid_data
    ok_or (pop rsa) invalid_data

  abbrev pub or_else : Option Bytes → Result ErrorKind Bytes → Result ErrorKind Bytes
  or_else (some key) next = ok key
  or_else none next = next

  unfoldable pub load_private_key : Str → Result ErrorKind Bytes
  unfolding load_rsa_key
  load_private_key path = do
    file ← pem.open_file path
    pkcs8 ← ok_or (pem.pkcs8_private_keys file) invalid_data
    or_else (pop pkcs8) (load_rsa_key path)

  -- `with_single_cert`, and the protocols that are offered.
  unfoldable pub server_config : List Bytes → Bytes → Result ErrorKind ServerConfig
  server_config certs key =
      if pem.single_cert certs key
      then ok (record { chain = certs; key = key; alpn_protocols = lit "h2" ∷ lit "http/1.1" ∷ [] })
      else err invalid_data

  unfoldable pub build_tls_config : Config → Result ErrorKind ServerConfig
  unfolding load_certs load_private_key server_config
  build_tls_config cfg = do
    certs ← load_certs cfg.tls_cert
    key ← load_private_key cfg.tls_key
    server_config certs key

  -- `run` up to the accept loop: the address, and the configuration of the acceptor. `bind_fault` is
  -- what hinders a listener at an address.
  unfoldable pub open_listener :
      (Str → Option ErrorKind) → Config → Result ErrorKind (Str × ServerConfig)
  unfolding build_tls_config
  open_listener bind_fault cfg = do
    tls_config ← build_tls_config cfg
    let addr : Str = cfg.host ++ (lit ":" ++ decimal cfg.tls_port)
    bound (addr, tls_config) (bind_fault addr)

-- The code path of a connection behind its handshake, by the protocol negotiated.
pub data Served : Type 0 where
  as_http2 as_http1 : Served

unfoldable pub serve_negotiated : Option Bytes → Served
serve_negotiated none = as_http1
serve_negotiated (some protocol) = if equal protocol (lit "h2") then as_http2 else as_http1
