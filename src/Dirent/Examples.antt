-- ===== src/Dirent/Examples.antt =====
-- Entries in small blocks, and the theorems about entries at them.
use album_fs.Common.{
  ℕ, ◌≡◌, refl, true, List, [], ◌∷◌, replicate, length-replicate, slice, copy_at, ok, arith,
}
use album_fs.Dirent.{DirEntry, encode_into, decode}
use album_fs.Dirent.RoundTrip.{IsValid, decode-encode_into}

-- A file "ab", inode 5, in a record of 24 bytes.
abbrev entry : DirEntry
entry = record { inode = 5; rec_len = 24; name = b'a' ∷ b'b' ∷ []; file_type = 1 }

entry-IsValid : IsValid entry
entry-IsValid = omega arith

decode-encode_into_example :
    (bytes : List ℕ) × (encode_into entry (slice (replicate 64 0) 16 40) ≡ ok bytes)
    × (decode (λ name. true) (copy_at (replicate 64 0) 16 bytes) 16 ≡ ok entry)
decode-encode_into_example =
    decode-encode_into (λ name. true) entry (replicate 64 0) 16 entry-IsValid refl
      (omega (arith, length-replicate {A = ℕ} 64 0))
