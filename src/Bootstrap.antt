-- ===== src/Bootstrap.antt =====
-- The keys and the anchor's bootstrap of fs/crypto.rs: the sealed superblock with its salt, nonce and tag. Argon2 and
-- BLAKE3 are libraries, taken as parameters, and the salt and the nonce are what `OsRng` gave.
mod RoundTrip
mod Examples
use album_fs.Common.{
  ℕ, ◌+◌, List, [], ◌∷◌, ◌++◌, length, Option, not, replicate, slice, ltb, ◌==◌, if◌then◌else◌,
  Result, ok, err, ◌>>=◌, ok_or, Write, copy_all,
}
use album_fs.Fs.{FsError, auth, manifest, ub}
use album_fs.Block.{Aead, pad}

-- Argon2id with the parameters of the format, and the key that BLAKE3 derives under a context.
pub record Kdf : Type 0 where
  pub hash_password : List ℕ → List ℕ → Option (List ℕ)
  pub derive_key : List ℕ → List ℕ → List ℕ

pub record DerivedKeys : Type 0 where
  pub block : List ℕ
  pub order : List ℕ
  pub boot : List ℕ

-- A cipher is its key.
pub record StoreKeys : Type 0 where
  pub cipher : List ℕ
  pub order : List ℕ

abbrev pub bootstrap_len : ℕ
bootstrap_len = 16 + 24 + 16 + ub

-- "albumfs block v1", "albumfs order v1", "albumfs boot v1" and "albumfs-superblock-v1".
abbrev pub block_context : List ℕ
block_context =
    97 ∷ 108 ∷ 98 ∷ 117 ∷ 109 ∷ 102 ∷ 115 ∷ 32 ∷ 98 ∷ 108 ∷ 111 ∷ 99 ∷ 107 ∷ 32 ∷ 118 ∷ 49 ∷ []

abbrev pub order_key_context : List ℕ
order_key_context =
    97 ∷ 108 ∷ 98 ∷ 117 ∷ 109 ∷ 102 ∷ 115 ∷ 32 ∷ 111 ∷ 114 ∷ 100 ∷ 101 ∷ 114 ∷ 32 ∷ 118 ∷ 49 ∷ []

abbrev pub boot_context : List ℕ
boot_context =
    97 ∷ 108 ∷ 98 ∷ 117 ∷ 109 ∷ 102 ∷ 115 ∷ 32 ∷ 98 ∷ 111 ∷ 111 ∷ 116 ∷ 32 ∷ 118 ∷ 49 ∷ []

abbrev pub boot_aad : List ℕ
boot_aad =
    97 ∷ 108 ∷ 98 ∷ 117 ∷ 109 ∷ 102 ∷ 115 ∷ 45 ∷ 115 ∷ 117 ∷ 112 ∷ 101 ∷ 114 ∷ 98 ∷ 108 ∷ 111 ∷ 99
    ∷ 107 ∷ 45 ∷ 118 ∷ 49 ∷ []

abbrev pub bootstrap_writes : List ℕ → List ℕ → List ℕ → List ℕ → List Write
bootstrap_writes salt nonce tag sealed = (0, salt) ∷ (16, nonce) ∷ (40, tag) ∷ (56, sealed) ∷ []

abbrev pub store_keys : DerivedKeys → StoreKeys
store_keys keys = record { cipher = keys.block; order = keys.order }

module _ (k : Kdf) where
  unfoldable pub derive_keys : List ℕ → List ℕ → Result FsError DerivedKeys
  derive_keys passphrase salt = do
    master ← ok_or (k.hash_password passphrase salt) auth
    ok (record {
      block = k.derive_key block_context master;
      order = k.derive_key order_key_context master;
      boot = k.derive_key boot_context master;
    })

  module _ (a : Aead) where
    unfoldable pub create_bootstrap :
        (salt nonce passphrase encoded_superblock : List ℕ) → Result FsError (List ℕ × StoreKeys)
    create_bootstrap salt nonce passphrase encoded_superblock =
        if ltb ub (length encoded_superblock) then err manifest else (do
          keys ← derive_keys passphrase salt
          (sealed, tag) ← ok_or (a.seal keys.boot nonce boot_aad (pad encoded_superblock)) auth
          ok (
            copy_all (replicate bootstrap_len 0) (bootstrap_writes salt nonce tag sealed),
            store_keys keys,
          ))

    unfoldable pub open_bootstrap :
        (passphrase bootstrap : List ℕ) → Result FsError (List ℕ × StoreKeys)
    open_bootstrap passphrase bootstrap =
        if not (length bootstrap == bootstrap_len) then err auth else (do
          keys ← derive_keys passphrase (slice bootstrap 0 16)
          plaintext ←
              ok_or
                (a.unseal keys.boot (slice bootstrap 16 40) boot_aad
                  (slice bootstrap 56 bootstrap_len) (slice bootstrap 40 56))
                auth
          ok (plaintext, store_keys keys))
