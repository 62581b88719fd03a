-- ===== src/DirBlock/Gap.antt =====
-- Removing an entry where a free record stands between it and the live entry before it: the two
-- record lengths are added, and the free record's is left out.
use album_fs.Common.{
  le→ltb, refl, ℕ, suc, ◌+◌, ◌≤◌, ◌<◌, ◌≡◌, ◌≢◌, ap, ◌∙◌, Bool, false, List, [], ◌∷◌, length, ne→==,
  bytes_eq, bytes_eq_refl, ok, err, ◌>>=◌, from_le, to_le, from_le-to_le, slice, copy_at, get_or,
  get_or-copy_at_after, slice-copy_at_before, slice-copy_at_self, slice-copy_at_after,
  length-copy_at, none, some, arith,
}
use album_fs.Fs.{manifest, ub}
use album_fs.Fs.Slices.{range_ok, index_ok, copy_into_ok}
use album_fs.Dirent.{DirEntry, decode}
use album_fs.DirBlock.{block_entries, drop_record, remove_in_block}
use mathlib.Core.Path.{ap₂}
use album_fs.DirBlock.Steps.{remove_skip, remove_hit, entries_step, entries_stop}
use album_fs.DirBlock.Entry.{Tested, decode-Tested, Tested-decode}
use album_fs.DirBlock.Walk.{advance}

module _ (is_utf8 : List ℕ → Bool) (payload : List ℕ) (kept free gone : DirEntry)
    (whole : length payload ≡ ub) (first : decode is_utf8 payload 0 ≡ ok kept)
    (second : decode is_utf8 payload kept.rec_len ≡ ok free)
    (third : decode is_utf8 payload (kept.rec_len + free.rec_len) ≡ ok gone) (live : kept.inode ≢ 0)
    (dead : free.inode ≡ 0) (alive : gone.inode ≢ 0) (differ : bytes_eq kept.name gone.name ≡ false)
    (filled : kept.rec_len + free.rec_len + gone.rec_len ≡ ub)
    (blank : slice payload (kept.rec_len + gone.rec_len + 8) (kept.rec_len + gone.rec_len + 10)
      ≡ 0 ∷ 0 ∷ []) where
  joined : ℕ
  joined = kept.rec_len + gone.rec_len

  after : List ℕ
  after = copy_at payload 8 (to_le 2 joined)

  kept-Tested : Tested is_utf8 payload 0 kept
  kept-Tested = decode-Tested is_utf8 payload 0 kept first

  free-advance : (12 ≤ free.rec_len) × (kept.rec_len + free.rec_len ≤ ub)
  free-advance = advance is_utf8 payload whole kept.rec_len free second

  gone-Tested : Tested is_utf8 payload (kept.rec_len + free.rec_len) gone
  gone-Tested = decode-Tested is_utf8 payload _ gone third

  gone-advance : (12 ≤ gone.rec_len) × (kept.rec_len + free.rec_len + gone.rec_len ≤ ub)
  gone-advance = advance is_utf8 payload whole _ gone third

  removed :
      (fuel : ℕ)
      → remove_in_block is_utf8 (suc (suc (suc fuel))) payload gone.name none 0 ≡ ok (some after)
  unfolding after joined drop_record
  removed fuel =
      remove_skip is_utf8 payload 0 kept (omega arith) first (suc (suc fuel)) gone.name none
        (ground (arith, differ))
      ∙ ap₂ (remove_in_block is_utf8 (suc (suc fuel)) payload gone.name)
          (rw (ne→== kept.inode 0 live)) (omega arith)
      ∙ remove_skip is_utf8 payload kept.rec_len free (omega (arith, free-advance)) second
          (suc fuel) gone.name (some 0) (rw dead)
      ∙ ap
          (λ o.
            remove_in_block is_utf8 (suc fuel) payload gone.name o (kept.rec_len + free.rec_len))
          (rw dead)
      ∙ remove_hit is_utf8 payload (kept.rec_len + free.rec_len) gone (omega (arith, gone-advance))
          third fuel gone.name (some 0) (rw (ne→== gone.inode 0 alive) (bytes_eq_refl gone.name))
      ∙ rw
          (
            range_ok payload 8 10 (omega (arith, whole)),
            kept-Tested.rec_len,
            copy_into_ok payload 8 (to_le 2 (kept.rec_len + gone.rec_len)) (omega (arith, whole)),
          )
          refl

  length-after : length after ≡ ub
  unfolding after
  length-after = length-copy_at payload 8 _ (omega (arith, whole)) ∙ whole

  joined-stored : from_le (slice after 8 10) ≡ joined
  unfolding after joined
  joined-stored =
      ap from_le (slice-copy_at_self payload 8 (to_le 2 joined) (omega (arith, whole)))
      ∙ from_le-to_le 2 joined (omega (arith, filled))

  first-after : decode is_utf8 after 0 ≡ ok (record kept { rec_len = joined })
  unfolding after joined
  first-after = Tested-decode is_utf8 after 0 _ (record {
    inode =
        ap from_le
          (slice-copy_at_before payload 8 _ 0 8 (omega (arith, whole)) (omega arith) (omega arith))
        ∙ kept-Tested.inode;
    rec_len = joined-stored;
    file_type = same 11 (omega arith) ∙ kept-Tested.file_type;
    name =
        ap (λ n. slice after 12 (12 + n)) (same 10 (omega arith))
        ∙ slice-copy_at_after payload 8 _ 12 _ (omega (arith, whole)) (omega arith)
        ∙ kept-Tested.name;
    named = rw (same 10 (omega arith)) (omega (arith, kept-Tested.named));
    aligned = omega (arith, kept-Tested.aligned, gone-Tested.aligned);
    inside = omega (arith, length-after, filled);
    utf8 = kept-Tested.utf8;
  })
    where
      same : (i : ℕ) → (10 ≤ i) × (i < ub) → get_or after i 0 ≡ get_or payload i 0
      same i h = get_or-copy_at_after payload 8 _ i 0 h.0 (omega (arith, whole, h.1))

  blank-after : from_le (slice after (joined + 8) (joined + 10)) ≡ 0
  unfolding after joined from_le
  blank-after = ap from_le (
      slice-copy_at_after payload 8 _ (joined + 8) (joined + 10) (omega (arith, whole))
        (omega (arith, kept-Tested.named))
      ∙ blank)

  room : joined + 12 ≤ ub
  unfolding joined
  room = omega (arith, filled, free-advance)

  second-after : decode is_utf8 after joined ≡ err manifest
  unfolding decode
  second-after =
      rw
        (
          range_ok after joined (joined + 8) (omega (arith, length-after, room)),
          range_ok after (joined + 8) (joined + 10) (omega (arith, length-after, room)),
          index_ok after (joined + 10) (omega (arith, length-after, room)),
          blank-after,
          le→ltb (length after) (joined + 12) (omega (arith, length-after, room)),
        )
        refl

  -- Where three records fill a block, a live entry, a free record and a live entry of another name, and
  -- the bytes that the tail of the last would have as a record length are zero, removing the last entry
  -- succeeds and leaves a block whose listing is an error.
  pub remove_breaks_block :
      (p : List ℕ) × (remove_in_block is_utf8 ub payload gone.name none 0 ≡ ok (some p))
      × (block_entries is_utf8 ub p 0 0 ≡ err manifest)
  remove_breaks_block = (
    after,
    removed 4029,
    entries_step is_utf8 after 0 (record kept { rec_len = joined }) (omega arith) first-after 4031 0
        ∙ ap (λ r. r >>= λ rest. ok ((0 + 0, record kept { rec_len = joined }) ∷ rest))
            (ap (block_entries is_utf8 4031 after 0) (omega arith)
              ∙ entries_stop is_utf8 after 4030 0 joined manifest
                  (unfold joined in omega (arith, filled, free-advance)) second-after),
  )
