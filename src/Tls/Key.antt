-- ===== src/Tls/Key.antt =====
-- Which private key is used.
use nwarp.Base.{◌≡◌, refl, some, List, [], ◌∷◌, ◌++◌, ok, ok_or, append-nil}
use nwarp.Rust.Str.{Str}
use nwarp.Rust.Utf8.{Bytes}
use nwarp.Rust.Io.{invalid_data}
use nwarp.Tls.{Pem, pop, load_rsa_key, load_private_key, or_else}

pop-append : (rs : List Bytes) (k : Bytes) (ps : List Bytes) → pop (rs ++ (k ∷ ps)) ≡ pop (k ∷ ps)
unfolding pop
pop-append [] k ps = refl
pop-append (r ∷ []) k ps = refl
pop-append (r ∷ next ∷ rs) k ps = pop-append (next ∷ rs) k ps

pop-cons : (k : Bytes) (ps : List Bytes) → (key : Bytes) × (pop (k ∷ ps) ≡ some key)
unfolding pop
pop-cons k [] = (k, refl)
pop-cons k (next ∷ ps) = pop-cons next ps

module _ (pem : Pem) where
  or_else_last :
      (rs ps : List Bytes)
      → or_else pem (pop ps) (ok_or (pop rs) invalid_data) ≡ ok_or (pop (rs ++ ps)) invalid_data
  unfolding pop
  or_else_last rs [] = rw (append-nil rs) refl
  or_else_last rs (k ∷ ps) =
      let (key, found) = pop-cons k ps in rw (pop-append rs k ps) (rw found refl)

  -- The private key of a file whose PEM is well formed is the last of its PKCS#8 keys, or else the
  -- last of its RSA keys, as if those were listed first; it is an error that there is neither.
  pub load_private_key_last :
      (path : Str) (file : Bytes) (rs ps : List Bytes)
      → pem.open_file path ≡ ok file
      → pem.pkcs8_private_keys file ≡ some ps
      → pem.rsa_private_keys file ≡ some rs
      → load_private_key pem path ≡ ok_or (pop (rs ++ ps)) invalid_data
  unfolding load_private_key load_rsa_key
  load_private_key_last path file rs ps opens pkcs8 rsa =
      rw opens (rw pkcs8 (rw rsa (or_else_last rs ps)))
