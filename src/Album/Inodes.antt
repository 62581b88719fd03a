-- ===== src/Album/Inodes.antt =====
-- An inode that was written is read back, over any block device.
use mathlib.Core.List.{append-nil}
use album_fs.Common.{
  ◌^◌, ℕ, ◌+◌, ◌-◌, ◌*◌, ◌/◌, ◌%◌, ◌<◌, ◌≤◌, ◌≡◌, refl, sym, ap, ◌∙◌, List, [], ◌++◌, length,
  replicate, drop, take, drop-replicate, slice, copy_at, length-copy_at, slice-copy_at_self, le→ltb,
  ne→==, ok, arith,
}
use album_fs.Fs.{ub}
use album_fs.Block.{pad}
use album_fs.Inode.{Inode, IsValid, encode, decode}
use album_fs.Inode.RoundTrip.{length-encode, decode-encode}
use album_fs.Superblock.{Superblock}
use album_fs.Fs.{range}
use album_fs.Device.{BlockDevice}
use album_fs.Album.{AlbumFs, inode_location, read_inode, write_inode}

pad-whole : (payload : List ℕ) → length payload ≡ ub → pad payload ≡ payload
unfolding pad copy_at take replicate
pad-whole payload h =
    ap (λ ys. payload ++ ys)
      (ap (λ n. drop n (replicate ub 0)) {x = 0 + length payload} {y = ub} (omega (arith, h))
        ∙ drop-replicate ub ub 0
        ∙ ap (λ n. replicate n 0) {x = ub - ub} {y = 0} refl)
    ∙ append-nil payload

module _ (sb : Superblock) (ino : ℕ) where
  -- The block that holds an inode, and its place there.
  abbrev pub inode_block : ℕ
  inode_block = sb.inode_table_start + (ino - 1) * 192 / ub

  abbrev pub inode_offset : ℕ
  inode_offset = (ino - 1) * 192 % ub

offset-room : (ino : ℕ) → (ino - 1) * 192 % ub + 192 ≤ ub
offset-room ino = omega arith

location :
    (sb : Superblock) (ino : ℕ)
    → 0 < ino
    → ino ≤ sb.inode_count
    → inode_block sb ino < 2 ^ 52
    → inode_location sb ino ≡ ok (inode_block sb ino, inode_offset sb ino)
unfolding inode_location
location sb ino low high small =
    let wide : (ino - 1) * 192 % 2 ^ 64 ≡ (ino - 1) * 192 = omega (arith, small) in
    let near : inode_block sb ino % 2 ^ 64 ≡ inode_block sb ino = omega (arith, small) in
    rw (ne→== ino 0 (λ e. omega (arith, e, low)), le→ltb sb.inode_count ino high, wide, near) refl

module _ {S : Type 0} (d : BlockDevice S) (ino : ℕ) (payload : List ℕ) where
  read-eq :
      (fs : AlbumFs S)
      → 0 < ino
      → ino ≤ fs.sb.inode_count
      → inode_block fs.sb ino < 2 ^ 52
      → (d.read_block (inode_block fs.sb ino) fs.store).0 ≡ ok payload
      → length payload ≡ ub
      → (read_inode d ino fs).0
        ≡ decode (slice payload (inode_offset fs.sb ino) (inode_offset fs.sb ino + 192))
  unfolding read_inode range
  read-eq fs low high small got whole =
      rw
        (
          location fs.sb ino low high small,
          got,
          le→ltb (length payload) (inode_offset fs.sb ino + 192) (omega (arith, whole)),
        )
        refl

  write-eq :
      (fs : AlbumFs S) (inode : Inode)
      → 0 < ino
      → ino ≤ fs.sb.inode_count
      → inode_block fs.sb ino < 2 ^ 52
      → (d.read_block (inode_block fs.sb ino) fs.store).0 ≡ ok payload
      → length payload ≡ ub
      → write_inode d ino inode fs ≡ (
          let (r, s) =
            d.write_block
              (inode_block fs.sb ino)
              (copy_at payload (inode_offset fs.sb ino) (encode inode))
              (d.read_block (inode_block fs.sb ino) fs.store).1 in
          (r, record fs { store = s }))
  unfolding write_inode range
  write-eq fs inode low high small got whole =
      rw
        (
          location fs.sb ino low high small,
          got,
          le→ltb (length payload) (inode_offset fs.sb ino + 192) (omega (arith, whole)),
        )
        refl

module _ {S : Type 0} (d : BlockDevice S) (fs : AlbumFs S) (ino : ℕ) (inode : Inode)
    (payload : List ℕ) where
  -- On a well-formed device of at most 2 ^ 52 blocks that has the block of an inode of the table, and where that block can be
  -- read, writing the inode succeeds, and reading it then gives it back. The inode's fields are in their ranges.
  pub read_inode-write_inode :
      0 < ino
      → ino ≤ fs.sb.inode_count
      → d.IsValid fs.store
      → d.total_blocks fs.store ≤ 2 ^ 52
      → inode_block fs.sb ino < d.total_blocks fs.store
      → d.view fs.store (inode_block fs.sb ino) ≡ ok payload
      → length payload ≡ ub
      → IsValid inode
      → ((write_inode d ino inode fs).0 ≡ ok tt)
        × ((read_inode d ino (write_inode d ino inode fs).1).0 ≡ ok inode)
  read_inode-write_inode low high valid few inside stored whole fields =
      let b : ℕ = inode_block fs.sb ino in
      let small : b < 2 ^ 52 = omega (arith, few, inside) in
      let o : ℕ = inode_offset fs.sb ino in
      let changed : List ℕ = copy_at payload o (encode inode) in
      let room : o + length (encode inode) ≤ length payload =
        omega (arith, whole, length-encode inode fields) in
      let long : length changed ≡ ub = length-copy_at payload o (encode inode) room ∙ whole in
      let got = d.read_block-view fs.store b valid inside ∙ stored in
      let s1 : S = (d.read_block b fs.store).1 in
      let valid1 = d.read_block-IsValid fs.store b valid inside in
      let inside1 : b < d.total_blocks s1 =
        omega (arith, inside, d.total_blocks-read_block fs.store b valid inside) in
      let fits : length changed ≤ ub = omega (arith, long) in
      let s2 : S = (d.write_block b changed s1).1 in
      let inside2 : b < d.total_blocks s2 =
        omega (arith, inside1, d.total_blocks-write_block s1 b changed valid1 inside1 fits) in
      let again =
        d.read_block-view s2 b (d.write_block-IsValid s1 b changed valid1 inside1 fits) inside2
        ∙ d.view-write_block_self s1 b changed valid1 inside1 fits
        ∙ ap ok (pad-whole changed long) in
      let read : (read_inode d ino (record fs { store = s2 })).0 ≡ ok inode =
        read-eq d ino changed (record fs { store = s2 }) low high small again long
        ∙ ap (λ n. decode (slice changed o (o + n))) (sym (length-encode inode fields))
        ∙ ap decode
            (slice-copy_at_self payload o (encode inode) room ∙ sym (append-nil (encode inode)))
        ∙ decode-encode inode [] fields in
      rw (write-eq d ino payload fs inode low high small got whole)
        (d.write_block_ok s1 b changed valid1 inside1 fits, read)
