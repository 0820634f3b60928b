-- ===== src/Server/Connection/Open.antt =====
-- A client that takes everything that it is sent.
use nwarp.Base.{◌≡◌, refl, none, List, [], ◌∷◌, map}
use nwarp.Rust.Utf8.{Bytes, as_bytes}
use nwarp.Effect.{Client, wrote, write_all}
use nwarp.Http.Response.{Response, head, send}

pub record IsOpen (client : Client) : Type 0 where
  pub takes : (bytes : Bytes) → client.refuses bytes ≡ none
  pub flushes : client.flush_fault ≡ none

pub write_all_open :
    (client : Client) (parts : List Bytes)
    → IsOpen client
    → write_all client parts ≡ (map (λ bytes. wrote bytes) parts, none)
unfolding write_all
write_all_open client [] h = rw h.flushes refl
write_all_open client (bytes ∷ rest) h = rw (h.takes bytes) (rw (write_all_open client rest h) refl)

pub send_open :
    (client : Client) (r : Response)
    → IsOpen client
    → send client r ≡ (wrote (as_bytes (head r)) ∷ wrote r.body ∷ [], none)
unfolding send
send_open client r h = write_all_open client (as_bytes (head r) ∷ r.body ∷ []) h

abbrev pub open_client : Client
open_client = record { refuses = λ bytes. none; flush_fault = none }

pub open_client-IsOpen : IsOpen open_client
open_client-IsOpen = record { takes = λ bytes. refl; flushes = refl }
