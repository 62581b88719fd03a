-- ===== src/Store/Writes.antt =====
-- `write_block` on a well-formed store: it succeeds, the block then reads as what was written, and
-- every other block reads as before.
use album_fs.Common.{
  ℕ, suc, ◌+◌, ◌-◌, ◌*◌, ◌≤◌, ◌≡◌, ◌≢◌, refl, ap, ◌∙◌, inl, inr, true, List, length, some, set-set,
  slice, copy_at, length-copy_at, slice-copy_at_self, slice-copy_at_before, slice-copy_at_after,
  le→leb, ok, All-set, Bool-cases, ◌>>=◌, arith,
}
use native.Mathlib.Decide.{dec_lt}
use album_fs.Fs.{pb, ub}
use album_fs.Block.{pad}
use album_fs.Block.RoundTrip.{read-build_physical_block, decode-encode_ok, encode_total}
use album_fs.Store.{CarrierSlot, Machine, Libraries, covers, open_block}
use album_fs.Store.Methods.{put_slot, draw_nonce, seal_block, place, write_block}
use album_fs.Store.Slots.{Apart-set, Contiguous-set, raw-set_self, raw-set_other}
use album_fs.Store.Reads.{IsValid, view, Located, loads, after, after-slot, range-eq, within}

module _ {FilePath Disk : Type 0} (l : Libraries FilePath Disk) where
  -- What `seal_block` gives: a block that opens as the padded payload, and perhaps one nonce less.
  pub record Sealed (m : Machine FilePath Disk) (lba : ℕ) (payload : List ℕ) : Type 0 where
    pub block : List ℕ
    pub draws : ℕ
    pub seals : seal_block l lba payload m ≡ (ok block, record m { draws = draws })
    pub sized : length block ≡ pb
    pub opens : open_block l m.store lba block ≡ ok (pad payload)

  pub seal-Sealed :
      (m : Machine FilePath Disk) (lba : ℕ) (payload : List ℕ)
      → (m.store.encrypted ≡ true → (key : List ℕ) × (m.store.cipher ≡ some key))
      → length payload ≤ ub
      → Sealed m lba payload
  unfolding seal_block open_block draw_nonce
  seal-Sealed m lba payload keyed h = elim (Bool-cases m.store.encrypted) [
    | inl secret ↦
        let (key, has) = keyed secret in
        let (block, made) = encode_total l.checksum l.aead key (l.nonce m.draws) lba payload h in
        let (sized, opened) =
          decode-encode_ok l.checksum l.aead key (l.nonce m.draws) lba payload block
            (l.length-nonce m.draws) made in
        record {
          block = block;
          draws = suc m.draws;
          seals = rw (secret, has, made);
          sized = sized;
          opens = rw (secret, has, opened);
        }
    | inr plain ↦
        let (block, made, sized, opened) = read-build_physical_block l.checksum lba payload h in
        record {
          block = block;
          draws = m.draws;
          seals = rw (plain, made);
          sized = sized;
          opens = rw (plain, opened);
        }
  ]

  module _ (m : Machine FilePath Disk) (lba : ℕ) (payload : List ℕ) (p : Located l m lba)
      (s : Sealed (after l m lba p) lba payload) where
    offset : ℕ
    offset = (lba - p.slot.block_start) * pb

    new_slot : CarrierSlot FilePath
    new_slot = record (p.slot) { buffer = some (copy_at p.buffer offset s.block); dirty = true }

    -- The machine after the write: one slot and the nonces have changed.
    pub written : Machine FilePath Disk
    unfolding new_slot
    written = record (put_slot p.idx new_slot m) { draws = s.draws }

    room : offset + pb ≤ length p.buffer
    unfolding offset
    room = within l p.slot lba (length p.buffer) p.covered p.sized

    place-eq :
        place l lba p.idx s.block (record (after l m lba p) { draws = s.draws }) ≡ (ok tt, written)
    unfolding place written after offset new_slot
    place-eq =
        rw (after-slot l m lba p, range-eq l p.buffer offset (offset + pb) room)
          (λ i. (
            ok tt,
            record m {
              store = record (m.store) {
                carriers =
                    set-set m.store.carriers p.idx (record (p.slot) { buffer = some p.buffer })
                      new_slot i;
              };
              draws = s.draws;
            },
          ))

    pub write_block-eq : length payload ≤ ub → write_block l lba payload m ≡ (ok tt, written)
    unfolding write_block
    write_block-eq h =
        rw (le→leb (length payload) ub h, p.chosen, loads l m lba p, s.seals) place-eq

    -- The rest of the state is as it was.
    pub written-IsValid : IsValid l m → IsValid l written
    unfolding written new_slot
    written-IsValid v = record {
      contiguous =
          Contiguous-set 0 m.store.total_blocks p.idx m.store.carriers p.slot _ p.at (refl, refl)
            v.contiguous;
      ready = All-set _ m.store.carriers p.idx _ v.ready (
        _,
        refl,
        length-copy_at p.buffer offset s.block (omega (arith, room, s.sized)) ∙ p.sized,
      );
      apart = Apart-set l.carrier_codec.temporary p.idx m.store.carriers p.slot _ p.at refl v.apart;
      keyed = v.keyed;
    }

    pub view-written_self : view l written lba ≡ ok (pad payload)
    unfolding view written new_slot open_block after offset
    view-written_self =
        ap (λ r. r >>= open_block l m.store lba)
          (raw-set_self l m.store.encrypted m.store.order_key m.disk lba p.idx m.store.carriers
              new_slot p.found p.covered
            ∙ ap ok back)
        ∙ s.opens
      where
        back : slice (copy_at p.buffer offset s.block) offset (offset + pb) ≡ s.block
        back =
            ap (slice (copy_at p.buffer offset s.block) offset) (omega (arith, s.sized))
            ∙ slice-copy_at_self p.buffer offset s.block (omega (arith, room, s.sized))

    pub view-written_other : (j : ℕ) → j ≢ lba → view l written j ≡ view l m j
    unfolding view written new_slot open_block offset
    view-written_other j ne =
        ap (λ r. r >>= open_block l m.store j)
          (raw-set_other l m.store.encrypted m.store.order_key m.disk j p.idx m.store.carriers
            p.slot new_slot p.at refl (λ c. rw p.holds (ap ok (apart c))))
      where
        apart :
            covers p.slot j ≡ true
            → slice
                (copy_at p.buffer offset s.block)
                ((j - p.slot.block_start) * pb)
                ((j - p.slot.block_start) * pb + pb)
              ≡ slice p.buffer ((j - p.slot.block_start) * pb) ((j - p.slot.block_start) * pb + pb)
        apart c = elim (dec_lt j lba) [
          | yes below ↦
              slice-copy_at_before p.buffer offset s.block _ _ (omega (arith, room, s.sized))
                (omega arith) (ground (arith, p.covered, c))
          | no above ↦
              slice-copy_at_after p.buffer offset s.block _ _ (omega (arith, room, s.sized))
                (ground (arith, p.covered, s.sized, c))
        ]

    pub total-written : written.store.total_blocks ≡ m.store.total_blocks
    unfolding written
    total-written = refl
