-- ===== src/Block.antt =====
-- Plaintext physical blocks (fs/mod.rs) and encrypted ones (`BlockCipher` of fs/crypto.rs). The CRC
-- and the cipher are libraries, taken as parameters with the laws that the code relies on.
pub mod RoundTrip
pub mod Examples
use album_fs.Common.{
  ℕ, ◌+◌, ◌-◌, ◌<◌, ◌^◌, ◌≡◌, Bool, not, List, length, Option, none, some, replicate, slice,
  copy_at, to_le, from_le, IsU32, ltb, ◌==◌, if◌then◌else◌, Result, ok, err, panic, ok_or,
}
use album_fs.Fs.{FsError, block_crc, auth, manifest, pb, ub, block_header}

-- crc32fast: a checksum of 32 bits.
pub record Checksum : Type 0 where
  pub crc32 : List ℕ → ℕ
  pub crc32-IsU32 : (bytes : List ℕ) → IsU32 (crc32 bytes)

-- XChaCha20-Poly1305, detached: key, nonce and associated data, then the text. It keeps the length,
-- the tag has 16 bytes, and what was sealed opens under the same key, nonce and associated data.
pub record Aead : Type 0 where
  pub seal : List ℕ → List ℕ → List ℕ → List ℕ → Option (List ℕ × List ℕ)
  pub unseal : List ℕ → List ℕ → List ℕ → List ℕ → List ℕ → Option (List ℕ)
  -- Only a text of 2 ^ 38 bytes or more is refused.
  pub seal_some :
      (key nonce aad text : List ℕ)
      → length text < 2 ^ 32
      → (r : List ℕ × List ℕ) × (seal key nonce aad text ≡ some r)
  pub length-seal :
      (key nonce aad text sealed tag : List ℕ)
      → seal key nonce aad text ≡ some (sealed, tag)
      → (length sealed ≡ length text) × (length tag ≡ 16)
  pub unseal-seal :
      (key nonce aad text sealed tag : List ℕ)
      → seal key nonce aad text ≡ some (sealed, tag)
      → unseal key nonce aad sealed tag ≡ some text

-- The payload as a whole block: zeros up to the usable size.
unfoldable pub pad : List ℕ → List ℕ
pad payload = copy_at (replicate ub 0) 0 payload

module _ (c : Checksum) where
  -- The assertion on the payload's length panics.
  unfoldable pub build_physical_block : List ℕ → Result FsError (List ℕ)
  build_physical_block payload =
      let blk = copy_at (replicate pb 0) block_header payload in
      if ltb ub (length payload)
      then panic
      else ok (copy_at blk 40 (to_le 4 (c.crc32 (slice blk block_header pb))))

  unfoldable pub read_physical_block : ℕ → List ℕ → Result FsError (List ℕ)
  read_physical_block lba blk =
      if not (length blk == pb)
      then err manifest
      else if not (c.crc32 (slice blk block_header pb) == from_le (slice blk 40 44))
      then err (block_crc lba)
      else ok (slice blk block_header pb)

  module _ (a : Aead) where
    -- The nonce is what `OsRng` gave.
    unfoldable pub encode : List ℕ → List ℕ → ℕ → List ℕ → Result FsError (List ℕ)
    encode key nonce lba payload =
        let zeros = replicate pb 0 in
        if ltb ub (length payload)
        then err manifest
        else elim (a.seal key nonce (to_le 8 lba) (pad payload)) [
          | none ↦ err auth
          | some (sealed, tag) ↦
              let block = copy_at (copy_at (copy_at zeros 0 nonce) 24 tag) block_header sealed in
              ok (copy_at block 40 (to_le 4 (c.crc32 (slice block block_header pb))))
        ]

    unfoldable pub decode : List ℕ → ℕ → List ℕ → Result FsError (List ℕ)
    decode key lba block =
        if not (length block == pb)
        then err auth
        else if not (c.crc32 (slice block block_header pb) == from_le (slice block 40 44))
        then err auth
        else ok_or
            (a.unseal key (slice block 0 24) (to_le 8 lba) (slice block block_header pb)
              (slice block 24 40))
            auth
