-- ===== src/Lib.antt =====
-- AlbumFS: a file system in the low bits of a folder of photos (src/).
--
-- The program has four layers. The stego layer (src/stego/) hides one chunk of bytes in each image. The
-- block layer (src/fs/block.rs) joins the chunks of all images into one array of blocks of 4096 bytes,
-- each with a header of 64 bytes, sealed where the album is encrypted (src/fs/crypto.rs). The file
-- system (src/fs/album.rs, over bitmap.rs, inode.rs, dirent.rs) is a small ext2 on the 4032 usable bytes
-- of each block. FUSE (src/fs/fuse.rs) mounts it.
--
-- What models which part:
--   Common       results, the state of `&mut self` methods, lists, byte slices, little-endian numbers
--   Fs           the constants and errors of src/fs/mod.rs, and slices of bytes that panic past the end
--   Bitmap       src/fs/bitmap.rs: `Bitmap` with every method
--   Inode        src/fs/inode.rs: `Inode` with every method
--   Dirent       src/fs/dirent.rs: `DirEntry` with every method, and `initial_directory_block`
--   Block        src/fs/mod.rs: `build_physical_block`, `read_physical_block`; src/fs/crypto.rs:
--                `BlockCipher::encode` and `decode`
--   Codec        src/stego/mod.rs: the trait `CarrierCodec` with its types, as an interface; its law
--                is that writing a carrier changes no file but that one and its temporary file
--   Device       the block device that the file system is written over, as an interface
--   Store        src/fs/block.rs: `BlockStore` with `carrier_for`, `ensure_loaded`, `read_block`,
--                `write_block`, `flush`; Store.Device proves that it is a block device; Store.Format
--                has the constructors `new_for_format` and `from_manifest`
--   Superblock   src/fs/superblock.rs: `Superblock` with every method, and `validate_name`
--   Chunk        src/stego/mod.rs: `encode_header`, `decode_header`, `order_positions`
--   Png          src/stego/png.rs: `write_bytes`, `read_bytes`, and in Png.Chunks the operations of
--                `PngCodec`, which Png.Files puts behind the interface of Codec
--   Format       src/fs/format.rs: the layout that `format_with_anchor_options` computes,
--                `validate_manifest_geometry`, `load_bitmap`, `write_bitmap`
--   Album        src/fs/album.rs: `AlbumFs` with the inode table (`read_inode`, `write_inode`,
--                `alloc_inode`, `used_inodes`, `free_inode`, `getattr`), `allocate_block` and `bmap`;
--                Album.Sync has `sync`, Album.Files `read`, `write`, `truncate`, Album.Release
--                `remove_mapped_block` and `free_all_blocks`, Album.Dirs `lookup`, `readdir` and the
--                changes of one entry, Album.Names `create`, `mkdir`, `unlink`, `rmdir`, `rename`
--   Stats        src/fs/stats.rs: `collect_opened` and `low_space`
--   Bootstrap    src/fs/crypto.rs: `create_bootstrap`, `open_bootstrap`, `derive_keys`
--   Fuse         src/fs/fuse.rs: every request of the kernel as a function from the mounted file system,
--                behind its lock, to the reply and the file system it leaves (`getattr` is
--                `get_attributes`)
--   DirBlock     src/fs/album.rs: the loops over one directory block in `directory_entries`,
--                `add_dir_entry`, `remove_dir_entry`, `update_dotdot`
--
-- How the code corresponds. A number is a native natural number with its range in a predicate where a
-- proof needs it; a fixed array and a `Vec<u8>` are lists of numbers. A method on `&mut self` is a
-- function from the state to a result beside the state it leaves. A result is `ok`, `err` with the
-- source's error, or `panic`, which stands for a failed assertion, index or subtraction. The message of
-- `FsError::Manifest` and those of the codec's errors are left out. The loops over a directory block run
-- on fuel, 4032 units; an entry takes 12 bytes at least, so the fuel is never used up, which the theorems
-- on panics show, since running out is a panic. The loops of `read` and `write` have a unit for each
-- byte, and a pass takes a byte at least. The counters of an inode wrap at their width, as in a release
-- build.
--
-- What is a parameter: the CRC (crc32fast), XChaCha20-Poly1305 with the laws of an authenticated cipher
-- that the code relies on, the nonces of `OsRng`, the clock, the UTF-8 test of the standard library, the carrier
-- codec with the carrier files for the block store, for the PNG carrier the image crate (a grid of
-- samples, and files that keep it), CRC-16, BLAKE3 and the shuffle, which is any permutation, for the keys
-- Argon2 and BLAKE3, and for FUSE the system's time and the room of a directory reply.
--
-- Not modelled: the choice of an anchor, the openers and the steps of formatting, which walk directories
-- of the operating system, mounting and unmounting, the printing of the statistics, the JPEG carrier, and
-- the command line.
pub mod Common
pub mod Fs
pub mod Bitmap
pub mod Inode
pub mod Dirent
pub mod Block
pub mod Codec
pub mod Device
pub mod Store
pub mod Format
pub mod Stats
pub mod Bootstrap
pub mod DirBlock
pub mod Chunk
pub mod Png
pub mod Superblock
pub mod Album
pub mod Fuse
