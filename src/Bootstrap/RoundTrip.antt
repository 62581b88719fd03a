-- ===== src/Bootstrap/RoundTrip.antt =====
-- The bootstrap that was created for a passphrase opens under it.
use album_fs.Common.{
  sym, ℕ, ◌+◌, ◌≤◌, ◌≡◌, refl, ap, ◌∙◌, List, length, some, replicate, slice, copy_all, Ascends,
  length-copy_all, slice-copy_all, length-replicate, le→ltb, get_elem?, ok, arith,
}
use album_fs.Fs.{ub}
use album_fs.Block.{Aead, pad}
use album_fs.Block.RoundTrip.{length-pad}
use album_fs.Bootstrap.{
  Kdf, StoreKeys, bootstrap_len, block_context, order_key_context, boot_context, boot_aad,
  bootstrap_writes, derive_keys, create_bootstrap, open_bootstrap,
}

-- The bootstrap with its parts.
module _ (salt nonce tag sealed : List ℕ) (l : length salt ≡ 16) (n : length nonce ≡ 24)
    (t : length tag ≡ 16) (s : length sealed ≡ ub) where
  abbrev laid : List ℕ
  laid = copy_all (replicate bootstrap_len 0) (bootstrap_writes salt nonce tag sealed)

  length-zeros : length (replicate {A = ℕ} bootstrap_len 0) ≡ bootstrap_len
  length-zeros = length-replicate {A = ℕ} bootstrap_len 0

  parts-Ascends :
      Ascends
        (length (replicate {A = ℕ} bootstrap_len 0))
        0
        (bootstrap_writes salt nonce tag sealed)
  parts-Ascends = rw length-zeros (omega arith)

  length-laid : length laid ≡ bootstrap_len
  length-laid =
      length-copy_all _ 0 (bootstrap_writes salt nonce tag sealed) parts-Ascends ∙ length-zeros

  -- A part, by its number among the writes.
  part :
      (k at hi : ℕ) (ys : List ℕ)
      → get_elem? (bootstrap_writes salt nonce tag sealed) k ≡ some (at, ys)
      → at + length ys ≡ hi
      → slice laid at hi ≡ ys
  part k at hi ys e h =
      ap (slice laid at) (sym h)
      ∙ slice-copy_all _ 0 (bootstrap_writes salt nonce tag sealed) k at ys parts-Ascends e

  laid-salt : slice laid 0 16 ≡ salt
  laid-salt = part 0 0 16 salt refl (omega arith)

  laid-nonce : slice laid 16 40 ≡ nonce
  laid-nonce = part 1 16 40 nonce refl (omega arith)

  laid-tag : slice laid 40 56 ≡ tag
  laid-tag = part 2 40 56 tag refl (omega arith)

  laid-sealed : slice laid 56 bootstrap_len ≡ sealed
  laid-sealed = part 3 56 bootstrap_len sealed refl (omega arith)

module _ (k : Kdf) (a : Aead) (salt nonce passphrase superblock : List ℕ) where
  -- A superblock that fits is sealed into a bootstrap of its fixed size, where Argon2 hashes the passphrase; the
  -- bootstrap opens under the same passphrase to the superblock filled up with zeros and to the same keys. The
  -- cipher is any that opens what it seals, the salt has 16 bytes and the nonce 24.
  pub open_bootstrap-create_bootstrap :
      (master : List ℕ)
      → length salt ≡ 16
      → length nonce ≡ 24
      → length superblock ≤ ub
      → k.hash_password passphrase salt ≡ some master
      → (bootstrap : List ℕ) × (keys : StoreKeys) × (create_bootstrap k a salt nonce passphrase
            superblock
          ≡ ok (bootstrap, keys))
        × (length bootstrap ≡ bootstrap_len)
        × (open_bootstrap k a passphrase bootstrap ≡ ok (pad superblock, keys))
  unfolding create_bootstrap open_bootstrap derive_keys
  open_bootstrap-create_bootstrap master l n h hashed =
      let boot = k.derive_key boot_context master in
      let ((sealed, tag), found) =
        a.seal_some boot nonce boot_aad (pad superblock) (omega (arith, length-pad superblock h)) in
      let lengths = a.length-seal boot nonce boot_aad (pad superblock) sealed tag found in
      let s = lengths.0 ∙ length-pad superblock h in
      let t = lengths.1 in
      (
        laid salt nonce tag sealed l n t s,
        record {
          cipher = k.derive_key block_context master;
          order = k.derive_key order_key_context master;
        },
        rw (le→ltb ub (length superblock) h, hashed, found) refl,
        length-laid salt nonce tag sealed l n t s,
        rw
            (
              length-laid salt nonce tag sealed l n t s,
              laid-salt salt nonce tag sealed l n t s,
              hashed,
              laid-nonce salt nonce tag sealed l n t s,
              laid-tag salt nonce tag sealed l n t s,
              laid-sealed salt nonce tag sealed l n t s,
              a.unseal-seal boot nonce boot_aad (pad superblock) sealed tag found,
            )
            refl,
      )
