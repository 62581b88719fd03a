-- ===== src/DirBlock/Entry.antt =====
-- What `decode` and `put_entry` do with one record.
use album_fs.Common.{
  le→ltb, false, replicate, length-replicate, length-copy_at, length-copy_all, ◌||◌, ◌+◌, ℕ, ◌+◌,
  ◌%◌, ◌≤◌, ◌≡◌, ◌≢◌, refl, inl, inr, Bool, true, not, List, length, ltb, ◌==◌, Result, ok, err,
  panic, ◌>>=◌, Bool-cases, from_le, slice, get_or, arith, ap, sym, ◌∙◌, length-slice, copy_at,
}
use album_fs.Fs.{FsError, range, index}
use album_fs.Fs.Slices.{range_ok, index_ok, copy_into_ok}
use album_fs.Dirent.{entry_writes, DirEntry, required_len, new, encode_into, decode}
use album_fs.DirBlock.{put_entry}

-- What `decode` has read and tested of an entry: its record holds 12 bytes and its name, is a multiple
-- of 4, and lies in the block.
pub record Tested (is_utf8 : List ℕ → Bool) (block : List ℕ) (offset : ℕ) (entry : DirEntry)
    : Type 0 where
  pub inode : from_le (slice block offset (offset + 8)) ≡ entry.inode
  pub rec_len : from_le (slice block (offset + 8) (offset + 10)) ≡ entry.rec_len
  pub file_type : get_or block (offset + 11) 0 ≡ entry.file_type
  pub name : slice block (offset + 12) (offset + 12 + get_or block (offset + 10) 0) ≡ entry.name
  pub named : 12 + get_or block (offset + 10) 0 ≤ entry.rec_len
  pub aligned : entry.rec_len % 4 ≡ 0
  pub inside : offset + entry.rec_len ≤ length block
  pub utf8 : is_utf8 entry.name ≡ true

pub decode-Tested :
    (is_utf8 : List ℕ → Bool) (block : List ℕ) (offset : ℕ) (entry : DirEntry)
    → decode is_utf8 block offset ≡ ok entry
    → Tested is_utf8 block offset entry
unfolding decode range index
decode-Tested is_utf8 block offset entry e = ground arith

-- The test of the record in `decode`.
Tested-passes :
    (is_utf8 : List ℕ → Bool) (block : List ℕ) (offset : ℕ) (entry : DirEntry)
    → Tested is_utf8 block offset entry
    → (entry.rec_len == 0
        || not (entry.rec_len % 4 == 0)
        || ltb (length block) (offset + entry.rec_len)
        || ltb entry.rec_len (12 + get_or block (offset + 10) 0))
      ≡ false
Tested-passes is_utf8 block offset entry t = ground (arith, t.named, t.aligned, t.inside)

pub Tested-decode :
    (is_utf8 : List ℕ → Bool) (block : List ℕ) (offset : ℕ) (entry : DirEntry)
    → Tested is_utf8 block offset entry
    → decode is_utf8 block offset ≡ ok entry
unfolding decode
Tested-decode is_utf8 block offset entry t =
    let n = get_or block (offset + 10) 0 in
    rw
      (
        le→ltb (length block) (offset + 12) (omega (arith, t.named, t.inside)),
        range_ok block offset (offset + 8) (omega (arith, t.named, t.inside)),
        range_ok block (offset + 8) (offset + 10) (omega (arith, t.named, t.inside)),
        index_ok block (offset + 10) (omega (arith, t.named, t.inside)),
        t.rec_len,
        Tested-passes is_utf8 block offset entry t,
        range_ok block (offset + 12) (offset + 12 + n) (omega (arith, t.named, t.inside)),
        t.name,
        t.utf8,
        index_ok block (offset + 11) (omega (arith, t.named, t.inside)),
        t.inode,
        t.file_type,
      )
      refl

pub decode-ne-panic :
    (is_utf8 : List ℕ → Bool) (block : List ℕ) (offset : ℕ) → decode is_utf8 block offset ≢ panic
unfolding decode range index
decode-ne-panic is_utf8 block offset e = ground arith

-- The name that was read has as many bytes as its length field says, and its record holds it.
pub Tested-fits :
    (is_utf8 : List ℕ → Bool) (block : List ℕ) (offset : ℕ) (entry : DirEntry)
    → Tested is_utf8 block offset entry
    → (length entry.name ≡ get_or block (offset + 10) 0)
      × (required_len (length entry.name) ≤ entry.rec_len)
Tested-fits is_utf8 block offset entry t = (long, omega (arith, long, t.named, t.aligned))
  where
    n : ℕ
    n = get_or block (offset + 10) 0

    long : length entry.name ≡ n
    long =
        ap length (sym t.name)
        ∙ length-slice block (offset + 12) (offset + 12 + n) (omega arith)
            (omega (arith, t.named, t.inside))
        ∙ omega arith

ok-injective : {x y : List ℕ} → ◌≡◌ {A = Result FsError (List ℕ)} (ok x) (ok y) → x ≡ y
ok-injective e = cc

module _ {A B : Type 0} where
  -- A chain panics only where one of its steps does.
  pub bind-ne-panic :
      (r : Result FsError A) (next : A → Result FsError B)
      → r ≢ panic
      → ((a : A) → r ≡ ok a → next a ≢ panic)
      → (r >>= next) ≢ panic
  bind-ne-panic (ok a) next h k = k a refl
  bind-ne-panic (err e) next h k = λ p. cc
  bind-ne-panic panic next h k = λ p. h refl

-- The bytes of an entry that fits have the target's length.
length-encode_into :
    (entry : DirEntry) (target bytes : List ℕ)
    → encode_into entry target ≡ ok bytes
    → length bytes ≡ length target
unfolding encode_into
length-encode_into entry target bytes e =
    elim (Bool-cases
      (ltb (length target) entry.rec_len || ltb entry.rec_len (required_len (length entry.name)))) [
        | inl small ↦ cc (rw small at e)
        | inr fits ↦
            let cleared =
              length-copy_at target 0 (replicate entry.rec_len 0)
                (ground (arith, fits, length-replicate {A = ℕ} entry.rec_len 0)) in
            let same = ok-injective (rw fits at e) in
            rw (← same) (
              length-copy_all (copy_at target 0 (replicate entry.rec_len 0)) 0 (entry_writes entry)
                (rw cleared (ground (arith, fits)))
              ∙ cleared)
      ]

encode_into-ne-panic : (entry : DirEntry) (target : List ℕ) → encode_into entry target ≢ panic
unfolding encode_into
encode_into-ne-panic entry target e = ground arith

new-ne-panic :
    (ino : ℕ) (name : List ℕ) (file_type rec_len : ℕ) → new ino name file_type rec_len ≢ panic
unfolding new
new-ne-panic ino name file_type rec_len e = ground arith

pub put_entry-ne-panic :
    (payload name : List ℕ) (ino offset file_type rec_len : ℕ)
    → offset + rec_len ≤ length payload
    → put_entry payload ino offset name file_type rec_len ≢ panic
unfolding put_entry
put_entry-ne-panic payload name ino offset file_type rec_len h =
    rw (range_ok payload offset (offset + rec_len) h) (
      bind-ne-panic (new ino name file_type rec_len) _ (new-ne-panic ino name file_type rec_len)
        λ entry _.
          bind-ne-panic (encode_into entry (slice payload offset (offset + rec_len))) _
            (encode_into-ne-panic entry (slice payload offset (offset + rec_len)))
            λ bytes e.
              rw
                (copy_into_ok payload offset bytes (
                  omega (
                    arith,
                    h,
                    length-encode_into entry (slice payload offset (offset + rec_len)) bytes e,
                    length-slice payload offset (offset + rec_len) (omega arith) h,
                  )))
                (λ p. cc))
