-- ===== src/Block/RoundTrip.antt =====
-- What was put into a physical block, plain or encrypted, is read back, padded with zeros.
use album_fs.Common.{
  ℕ, ◌+◌, ◌≤◌, ◌≡◌, sym, ap, ◌∙◌, Bool-cases, Option-cases, ltb→le, inl, inr, List, ◌++◌, length,
  some, replicate, slice, copy_at, length-copy_at, slice-copy_at_self, slice-copy_at_before,
  slice-copy_at_after, length-replicate, drop-replicate, slice-copy_at_rear, slice_all, to_le,
  from_le, from_le-to_le, ltb, le→ltb, ==_refl, Result, ok, arith,
}
use mathlib.Core.Path.{subst}
use album_fs.Fs.{FsError, pb, ub, block_header}
use album_fs.Block.{Checksum, Aead, pad, build_physical_block, read_physical_block, encode, decode}

length-zeros : (n : ℕ) → length (replicate {A = ℕ} n 0) ≡ n
length-zeros n = length-replicate n 0

pub length-pad : (payload : List ℕ) → length payload ≤ ub → length (pad payload) ≡ ub
unfolding pad
length-pad payload h = length-copy_at _ 0 payload (omega (arith, length-zeros ub)) ∙ length-zeros ub

-- The rear of a fresh block that holds a payload is the padded payload.
rear-payload :
    (payload : List ℕ)
    → length payload ≤ ub
    → slice (copy_at (replicate pb 0) block_header payload) block_header pb ≡ pad payload
unfolding pad
rear-payload payload h =
    slice-copy_at_rear (replicate pb 0) block_header pb payload (omega (arith, length-zeros pb))
      (length-zeros pb)
    ∙ ap (◌++◌ payload) (
        drop-replicate (block_header + length payload) pb 0
        ∙ ap (λ n. replicate n 0) (omega arith)
        ∙ sym (drop-replicate (0 + length payload) ub 0))
    ∙ sym (
        slice-copy_at_rear (replicate ub 0) 0 ub payload (omega (arith, length-zeros ub))
          (length-zeros ub))
    ∙ slice_all (pad payload) ub (omega (arith, length-pad payload h))

module _ (c : Checksum) where
  -- The last step of both writers: the checksum of the rear, put into the header.
  stamp : List ℕ → List ℕ
  stamp block = copy_at block 40 (to_le 4 (c.crc32 (slice block block_header pb)))

  module _ (block : List ℕ) (whole : length block ≡ pb) where
    length-stamp : length (stamp block) ≡ pb
    unfolding stamp
    length-stamp = length-copy_at block 40 _ (omega arith) ∙ whole

    rear-stamp : slice (stamp block) block_header pb ≡ slice block block_header pb
    unfolding stamp
    rear-stamp = slice-copy_at_after block 40 _ block_header pb (omega arith) (omega arith)

    below-stamp : (lo hi : ℕ) → lo ≤ hi → hi ≤ 40 → slice (stamp block) lo hi ≡ slice block lo hi
    unfolding stamp
    below-stamp lo hi h k = slice-copy_at_before block 40 _ lo hi (omega arith) h k

    crc-stamp : c.crc32 (slice (stamp block) block_header pb) ≡ from_le (slice (stamp block) 40 44)
    crc-stamp =
        ap c.crc32 rear-stamp
        ∙ sym (ap from_le stored ∙ from_le-to_le 4 _ (c.crc32-IsU32 (slice block block_header pb)))
      where
        stored : slice (stamp block) 40 44 ≡ to_le 4 (c.crc32 (slice block block_header pb))
        stored =
            unfold stamp in
            slice-copy_at_self block 40 (to_le 4 (c.crc32 (slice block block_header pb)))
              (omega arith)

  -- A block of the right size whose stored checksum is right passes both checks.
  read-stamped :
      (lba : ℕ) (block : List ℕ)
      → length block ≡ pb
      → c.crc32 (slice block block_header pb) ≡ from_le (slice block 40 44)
      → read_physical_block c lba block ≡ ok (slice block block_header pb)
  unfolding read_physical_block
  read-stamped lba block h e = rw (h, e, ==_refl (from_le (slice block 40 44)))

  -- Building never panics on a payload that fits, gives a block of 4096 bytes, and reading that
  -- block under any number gives the payload, filled up with zeros.
  pub read-build_physical_block :
      (lba : ℕ) (payload : List ℕ)
      → length payload ≤ ub
      → (block : List ℕ) × (build_physical_block c payload ≡ ok block)
        × (length block ≡ pb)
        × (read_physical_block c lba block ≡ ok (pad payload))
  read-build_physical_block lba payload h = (
    stamp blk,
    built,
    length-stamp blk whole,
    read-stamped lba (stamp blk) (length-stamp blk whole) (crc-stamp blk whole)
        ∙ ap ok (rear-stamp blk whole ∙ rear-payload payload h),
  )
    where
      blk : List ℕ
      blk = copy_at (replicate pb 0) block_header payload

      whole : length blk ≡ pb
      whole =
          length-copy_at _ block_header payload (omega (arith, length-zeros pb)) ∙ length-zeros pb

      built : build_physical_block c payload ≡ ok (stamp blk)
      built = unfold build_physical_block stamp in rw (le→ltb ub (length payload) h)

ok-injective : {x y : List ℕ} → ◌≡◌ {A = Result FsError (List ℕ)} (ok x) (ok y) → x ≡ y
ok-injective e = cc

-- The fields of an encrypted block, before its checksum is put in.
laid : List ℕ → List ℕ → List ℕ → List ℕ
laid nonce tag sealed =
    copy_at (copy_at (copy_at (replicate pb 0) 0 nonce) 24 tag) block_header sealed

module _ (nonce tag sealed : List ℕ) (n : length nonce ≡ 24) (t : length tag ≡ 16)
    (s : length sealed ≡ ub) where
  length-one : length (copy_at (replicate pb 0) 0 nonce) ≡ pb
  length-one = length-copy_at _ 0 nonce (omega (arith, length-zeros pb)) ∙ length-zeros pb

  length-two : length (copy_at (copy_at (replicate pb 0) 0 nonce) 24 tag) ≡ pb
  length-two = length-copy_at _ 24 tag (omega (arith, length-one)) ∙ length-one

  length-laid : length (laid nonce tag sealed) ≡ pb
  unfolding laid
  length-laid = length-copy_at _ block_header sealed (omega (arith, length-two)) ∙ length-two

  laid-nonce : slice (laid nonce tag sealed) 0 24 ≡ nonce
  unfolding laid
  laid-nonce =
      slice-copy_at_before _ block_header sealed 0 24 (omega (arith, length-two)) (omega arith)
        (omega arith)
      ∙ slice-copy_at_before _ 24 tag 0 24 (omega (arith, length-one)) (omega arith) (omega arith)
      ∙ ap (slice (copy_at (replicate pb 0) 0 nonce) 0) {x = 24} {y = 0 + length nonce}
          (omega arith)
      ∙ slice-copy_at_self (replicate pb 0) 0 nonce (omega (arith, length-zeros pb))

  laid-tag : slice (laid nonce tag sealed) 24 40 ≡ tag
  unfolding laid
  laid-tag =
      slice-copy_at_before _ block_header sealed 24 40 (omega (arith, length-two)) (omega arith)
        (omega arith)
      ∙ ap (slice (copy_at (copy_at (replicate pb 0) 0 nonce) 24 tag) 24) {x = 40}
          {y = 24 + length tag} (omega arith)
      ∙ slice-copy_at_self _ 24 tag (omega (arith, length-one))

  laid-sealed : slice (laid nonce tag sealed) block_header pb ≡ sealed
  laid-sealed =
      ap (slice (laid nonce tag sealed) block_header) {x = pb} {y = block_header + length sealed}
        (omega arith)
      ∙ unfold laid in slice-copy_at_self _ block_header sealed (omega (arith, length-two))

module _ (c : Checksum) (a : Aead) (key nonce : List ℕ) (lba : ℕ) (payload : List ℕ) where
  decode-laid :
      (sealed tag : List ℕ)
      → length nonce ≡ 24
      → length payload ≤ ub
      → a.seal key nonce (to_le 8 lba) (pad payload) ≡ some (sealed, tag)
      → (length (stamp c (laid nonce tag sealed)) ≡ pb)
        × (decode c a key lba (stamp c (laid nonce tag sealed)) ≡ ok (pad payload))
  unfolding decode
  decode-laid sealed tag n h found = (
    length-stamp c block whole,
    rw (
      length-stamp c block whole,
      crc-stamp c block whole,
      ==_refl (from_le (slice (stamp c block) 40 44)),
      below-stamp c block whole 0 24 (omega arith) (omega arith),
      below-stamp c block whole 24 40 (omega arith) (omega arith),
      rear-stamp c block whole,
      laid-nonce nonce tag sealed n t s,
      laid-tag nonce tag sealed n t s,
      laid-sealed nonce tag sealed n t s,
      a.unseal-seal key nonce (to_le 8 lba) (pad payload) sealed tag found,
    ),
  )
    where
      block : List ℕ
      block = laid nonce tag sealed

      t : length tag ≡ 16
      t = (a.length-seal key nonce (to_le 8 lba) (pad payload) sealed tag found).1

      s : length sealed ≡ ub
      s =
          (a.length-seal key nonce (to_le 8 lba) (pad payload) sealed tag found).0
          ∙ length-pad payload h

      whole : length block ≡ pb
      whole = length-laid nonce tag sealed n t s

  -- Whatever `encode` returns, `decode` opens it under the same key and block number, to the
  -- payload filled up with zeros; and it has the size of a block.
  pub decode-encode_ok :
      (block : List ℕ)
      → length nonce ≡ 24
      → encode c a key nonce lba payload ≡ ok block
      → (length block ≡ pb) × (decode c a key lba block ≡ ok (pad payload))
  unfolding encode laid stamp
  decode-encode_ok block n e = elim (Bool-cases (ltb ub (length payload))) [
    | inl long ↦ cc (rw long at e)
    | inr fits ↦ elim (Option-cases (a.seal key nonce (to_le 8 lba) (pad payload))) [
      | inl failed ↦ cc (rw (fits, failed) at e)
      | inr ((sealed, tag), found) ↦
          subst (λ b. (length b ≡ pb) × (decode c a key lba b ≡ ok (pad payload)))
            (ok-injective (rw (fits, found) at e))
            (decode-laid sealed tag n (ltb→le ub (length payload) fits) found)
    ]
  ]

  -- `encode` fails on no payload that fits.
  pub encode_total :
      length payload ≤ ub → (block : List ℕ) × (encode c a key nonce lba payload ≡ ok block)
  unfolding encode laid stamp
  encode_total h =
      let ((sealed, tag), found) =
        a.seal_some key nonce (to_le 8 lba) (pad payload) (omega (arith, length-pad payload h)) in
      (stamp c (laid nonce tag sealed), rw (le→ltb ub (length payload) h, found))

  -- A payload that fits is sealed into a block of 4096 bytes, and that block opens under the same key
  -- and block number to the payload filled up with zeros; the cipher is any that opens what it seals,
  -- and the nonce has 24 bytes.
  pub decode-encode_block :
      length nonce ≡ 24
      → length payload ≤ ub
      → (block : List ℕ) × (encode c a key nonce lba payload ≡ ok block)
        × (length block ≡ pb)
        × (decode c a key lba block ≡ ok (pad payload))
  decode-encode_block n h =
      let (block, e) = encode_total h in
      (block, e, (decode-encode_ok block n e).0, (decode-encode_ok block n e).1)
