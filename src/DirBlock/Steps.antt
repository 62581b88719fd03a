-- ===== src/DirBlock/Steps.antt =====
-- One step of each walk, at an entry that decodes.
use album_fs.Common.{
  ℕ, suc, ◌+◌, ◌<◌, ◌≡◌, Bool, true, false, not, ◌&&◌, List, ◌∷◌, Option, some, lt→ltb, ◌==◌,
  bytes_eq, if◌then◌else◌, Result, ok, err, ◌>>=◌, ap,
}
use album_fs.Fs.{FsError, ub}
use album_fs.Dirent.{DirEntry, decode}
use album_fs.DirBlock.{block_entries, drop_record, remove_in_block}

module _ (is_utf8 : List ℕ → Bool) (payload : List ℕ) (offset : ℕ) (entry : DirEntry)
    (below : offset < ub) (here : decode is_utf8 payload offset ≡ ok entry) where
  -- The entry that a search looks for: live, and of that name.
  abbrev pub is_hit : List ℕ → Bool
  is_hit name = not (entry.inode == 0) && bytes_eq entry.name name

  pub remove_skip :
      (fuel : ℕ) (name : List ℕ) (previous : Option ℕ)
      → is_hit name ≡ false
      → remove_in_block is_utf8 (suc fuel) payload name previous offset
        ≡ remove_in_block is_utf8 fuel payload name
            (if entry.inode == 0 then previous else some offset)
            (offset + entry.rec_len)
  unfolding remove_in_block
  remove_skip fuel name previous miss =
      rw (lt→ltb offset ub below, here, remove_in_block)
        (ap
          (λ hit. elim hit as (λ _. Result FsError (Option (List ℕ))) [
            | true ↦ drop_record payload previous offset entry >>= λ p. ok (some p)
            | false ↦
                remove_in_block is_utf8 fuel payload name
                  (if entry.inode == 0 then previous else some offset) (offset + entry.rec_len)
          ])
          miss)

  pub remove_hit :
      (fuel : ℕ) (name : List ℕ) (previous : Option ℕ)
      → is_hit name ≡ true
      → remove_in_block is_utf8 (suc fuel) payload name previous offset
        ≡ (drop_record payload previous offset entry >>= λ p. ok (some p))
  unfolding remove_in_block
  remove_hit fuel name previous hit =
      rw (lt→ltb offset ub below, here, remove_in_block)
        (ap
          (λ b. elim b as (λ _. Result FsError (Option (List ℕ))) [
            | true ↦ drop_record payload previous offset entry >>= λ p. ok (some p)
            | false ↦
                remove_in_block is_utf8 fuel payload name
                  (if entry.inode == 0 then previous else some offset) (offset + entry.rec_len)
          ])
          hit)

  pub entries_step :
      (fuel base : ℕ)
      → block_entries is_utf8 (suc fuel) payload base offset ≡ (
          block_entries is_utf8 fuel payload base (offset + entry.rec_len) >>= λ rest.
          ok ((base + offset, entry) ∷ rest))
  unfolding block_entries
  entries_step fuel base = rw (lt→ltb offset ub below, here, block_entries)

pub entries_stop :
    (is_utf8 : List ℕ → Bool) (payload : List ℕ) (fuel base offset : ℕ) (e : FsError)
    → offset < ub
    → decode is_utf8 payload offset ≡ err e
    → block_entries is_utf8 (suc fuel) payload base offset ≡ err e
unfolding block_entries
entries_stop is_utf8 payload fuel base offset e below bad =
    rw (lt→ltb offset ub below, bad, block_entries)
