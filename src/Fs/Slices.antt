-- ===== src/Fs/Slices.antt =====
-- Slices that lie within their bytes do not panic.
use album_fs.Common.{
  ℕ, ◌+◌, ◌≤◌, ◌<◌, ◌≡◌, List, length, slice, get_or, copy_at, le→ltb, lt→leb, ok,
}
use album_fs.Fs.{range, index, copy_into}

pub range_ok : (xs : List ℕ) (lo hi : ℕ) → hi ≤ length xs → range xs lo hi ≡ ok (slice xs lo hi)
unfolding range
range_ok xs lo hi h = rw (le→ltb (length xs) hi h)

pub index_ok : (xs : List ℕ) (i : ℕ) → i < length xs → index xs i ≡ ok (get_or xs i 0)
unfolding index
index_ok xs i h = rw (lt→leb i (length xs) h)

pub copy_into_ok :
    (xs : List ℕ) (at : ℕ) (ys : List ℕ)
    → at + length ys ≤ length xs
    → copy_into xs at ys ≡ ok (copy_at xs at ys)
unfolding copy_into
copy_into_ok xs at ys h = rw (le→ltb (length xs) (at + length ys) h)
