-- ===== src/Inode/Examples.antt =====
-- The inode of a fresh root directory, and the inode theorems at it.
use album_fs.Common.{◌≡◌, refl, true, [], ◌∷◌, ◌++◌, ok, arith}
use album_fs.Inode.{Inode, IsValid, default, encode, decode, is_dir}
use album_fs.Inode.RoundTrip.{decode-encode}

abbrev root : Inode
root = record default { mode = 0o040755; nlink = 2; size = 4032; block_count = 1 }

root-IsValid : IsValid root
root-IsValid = omega arith

root-is_dir : is_dir root ≡ true
unfolding is_dir
root-is_dir = refl

decode-encode_example : decode (encode root ++ (7 ∷ [])) ≡ ok root
decode-encode_example = decode-encode root (7 ∷ []) root-IsValid
