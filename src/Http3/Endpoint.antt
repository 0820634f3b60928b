-- ===== src/Http3/Endpoint.antt =====
-- src/http3/mod.rs: the TLS configuration of the QUIC endpoint, and its start.
use nwarp.Base.{
  ℕ, ◌^◌, ◌-◌, Bool, Option, none, some, List, [], ◌∷◌, ◌++◌, if◌then◌else◌, Result, ok, err, ◌>>=◌,
}
use nwarp.Rust.Str.{Str, lit}
use nwarp.Rust.Num.{decimal}
use nwarp.Rust.Utf8.{Bytes}
use nwarp.Rust.Io.{ErrorKind, invalid_data, invalid_input}
use nwarp.Config.{Config}
use nwarp.Tls.{Pem, load_certs, load_private_key}

-- A `rustls::ServerConfig` for QUIC, which has TLS 1.3 only.
pub record QuicConfig : Type 0 where
  pub chain : List Bytes
  pub key : Bytes
  pub alpn_protocols : List Bytes
  pub max_early_data_size : ℕ

-- rustls, the standard library and quinn: whether rustls takes TLS 1.3 with the default cipher
-- suites and key exchange groups, whether a text is a socket address, and what hinders an endpoint
-- at an address.
pub record Quic : Type 0 where
  pub takes_tls13 : Bool
  pub is_socket_addr : Str → Bool
  pub endpoint_fault : QuicConfig → Str → Option ErrorKind

abbrev quic_config : List Bytes → Bytes → QuicConfig
quic_config certs key = record {
  chain = certs;
  key = key;
  alpn_protocols = lit "h3" ∷ [];
  max_early_data_size = 2 ^ 32 - 1;
}

abbrev bound : {A : Type 0} → A → Option ErrorKind → Result ErrorKind A
bound a none = ok a
bound a (some e) = err e

abbrev pub check : Bool → ErrorKind → Result ErrorKind Bool
check b e = if b then ok b else err e

module _ (pem : Pem) (quic : Quic) where
  unfoldable pub build_quic_tls_config : Config → Result ErrorKind QuicConfig
  build_quic_tls_config cfg = do
    certs ← load_certs pem cfg.tls_cert
    key ← load_private_key pem cfg.tls_key
    versions ← check quic.takes_tls13 invalid_data
    single ← check (pem.single_cert certs key) invalid_data
    ok (quic_config certs key)

  -- `run` up to the accept loop: the address, and the configuration of the endpoint.
  unfoldable pub open_endpoint : Config → Result ErrorKind (Str × QuicConfig)
  unfolding build_quic_tls_config
  open_endpoint cfg = do
    quic_tls_config ← build_quic_tls_config cfg
    let addr : Str = cfg.host ++ (lit ":" ++ decimal cfg.tls_port)
    parsed ← check (quic.is_socket_addr addr) invalid_input
    bound (addr, quic_tls_config) (quic.endpoint_fault quic_tls_config addr)
