-- ===== src/Store/Reads.antt =====
-- `read_block` on a well-formed store: it succeeds or reports what the block's own check says, and
-- changes nothing that can be read.
use album_fs.Common.{
  ℕ, ◌+◌, ◌-◌, ◌*◌, ◌≤◌, ◌<◌, ◌≡◌, refl, sym, ap, ◌∙◌, true, List, length, Option, none, some,
  get_elem?, get_elem?-set_self, set-get_elem?, set, slice, le→ltb, Result, ok, All, All-set,
  All-get_elem?, ◌>>=◌, arith,
}
use album_fs.Fs.{FsError, pb}
use album_fs.Fs.{range}
use album_fs.Store.{CarrierSlot, Machine, Libraries, covers, position, carrier_for, open_block}
use album_fs.Store.Methods.{put_slot, fill, ensure_loaded, read_loaded, read_block}
use album_fs.Store.Slots.{
  Contiguous, Apart, Apart-set, position_total, Contiguous-set, content, held, raw, IsReady,
  raw-position, raw-set_other,
}

module _ {FilePath Disk : Type 0} (l : Libraries FilePath Disk) where
  -- The slots cover the blocks from 0 to the total, each is loaded or can be, and an encrypted store
  -- has its key.
  pub record IsValid (m : Machine FilePath Disk) : Type 0 where
    pub contiguous : Contiguous 0 m.store.carriers m.store.total_blocks
    pub ready : All (IsReady l m.store.encrypted m.store.order_key m.disk) m.store.carriers
    pub apart : Apart l.carrier_codec.temporary m.store.carriers
    pub keyed : m.store.encrypted ≡ true → (key : List ℕ) × (m.store.cipher ≡ some key)

  -- What the store holds under a number, decrypted or tested.
  unfoldable pub view : Machine FilePath Disk → ℕ → Result FsError (List ℕ)
  view m lba =
      raw l m.store.encrypted m.store.order_key m.disk m.store.carriers lba
      >>= open_block l m.store lba

  -- Where a block is: its slot, and the slot's payload.
  pub record Located (m : Machine FilePath Disk) (lba : ℕ) : Type 0 where
    pub idx : ℕ
    pub slot : CarrierSlot FilePath
    pub buffer : List ℕ
    pub found : position lba m.store.carriers ≡ some idx
    pub chosen : carrier_for m.store lba ≡ ok idx
    pub at : get_elem? m.store.carriers idx ≡ some slot
    pub covered : covers slot lba ≡ true
    pub same :
        raw l m.store.encrypted m.store.order_key m.disk m.store.carriers lba
        ≡ held l m.store.encrypted m.store.order_key m.disk slot lba
    pub holds : content l m.store.encrypted m.store.order_key m.disk slot ≡ ok buffer
    pub sized : length buffer ≡ slot.block_count * pb

  pub locate :
      (m : Machine FilePath Disk) (lba : ℕ) → IsValid m → lba < m.store.total_blocks → Located m lba
  unfolding carrier_for
  locate m lba v h =
      let (idx, found) =
        position_total lba 0 m.store.total_blocks m.store.carriers v.contiguous (omega arith) h in
      let (slot, at, covered, same) =
        raw-position l m.store.encrypted m.store.order_key m.disk lba idx m.store.carriers found in
      let (buffer, holds, sized) = All-get_elem? _ m.store.carriers idx slot v.ready at in
      record {
        idx = idx;
        slot = slot;
        buffer = buffer;
        found = found;
        chosen = rw found (ground arith);
        at = at;
        covered = covered;
        same = same;
        holds = holds;
        sized = sized;
      }

  -- The machine after the slot has been loaded.
  abbrev pub loaded :
      (m : Machine FilePath Disk) → ℕ → CarrierSlot FilePath → List ℕ → Machine FilePath Disk
  loaded m idx slot buffer = put_slot idx (record slot { buffer = some buffer }) m

  fill-eq :
      (m : Machine FilePath Disk) (idx : ℕ) (slot : CarrierSlot FilePath) (o : Option (List ℕ))
      (buffer : List ℕ)
      → get_elem? m.store.carriers idx ≡ some (record slot { buffer = o })
      → content l m.store.encrypted m.store.order_key m.disk (record slot { buffer = o })
        ≡ ok buffer
      → fill l idx (record slot { buffer = o }) o m ≡ (ok tt, loaded m idx slot buffer)
  unfolding fill
  fill-eq m idx slot none buffer at e = rw e
  fill-eq m idx slot (some b) buffer at e =
      λ i. (ok tt, record m { store = record (m.store) { carriers = sym kept i } })
    where
      kept : set m.store.carriers idx (record slot { buffer = some buffer }) ≡ m.store.carriers
      kept =
          ap (λ x. set m.store.carriers idx (record slot { buffer = some x })) {x = buffer} {y = b}
            (cc)
          ∙ set-get_elem? m.store.carriers idx (record slot { buffer = some b }) at

  ensure_loaded-eq :
      (m : Machine FilePath Disk) (idx : ℕ) (slot : CarrierSlot FilePath) (buffer : List ℕ)
      → get_elem? m.store.carriers idx ≡ some slot
      → content l m.store.encrypted m.store.order_key m.disk slot ≡ ok buffer
      → ensure_loaded l idx m ≡ (ok tt, loaded m idx slot buffer)
  unfolding ensure_loaded
  ensure_loaded-eq m idx slot buffer at e = rw at (fill-eq m idx slot slot.buffer buffer at e)

  pub range-eq : (xs : List ℕ) (lo hi : ℕ) → hi ≤ length xs → range xs lo hi ≡ ok (slice xs lo hi)
  unfolding range
  range-eq xs lo hi h = rw (le→ltb (length xs) hi h)

  -- The block of a covered number lies within the slot's payload.
  pub within :
      (slot : CarrierSlot FilePath) (lba n : ℕ)
      → covers slot lba ≡ true
      → n ≡ slot.block_count * pb
      → (lba - slot.block_start) * pb + pb ≤ n
  within slot lba n c e = ground arith

  module _ (m : Machine FilePath Disk) (lba : ℕ) (p : Located m lba) where
    unfoldable pub after : Machine FilePath Disk
    after = loaded m p.idx p.slot p.buffer

    pub after-slot :
        get_elem? after.store.carriers p.idx ≡ some (record (p.slot) { buffer = some p.buffer })
    unfolding after
    after-slot = get_elem?-set_self m.store.carriers p.idx p.slot _ p.at

    pub loads : ensure_loaded l p.idx m ≡ (ok tt, after)
    unfolding after
    loads = ensure_loaded-eq m p.idx p.slot p.buffer p.at p.holds

    view-held :
        view m lba
        ≡ open_block l m.store lba (
            slice p.buffer ((lba - p.slot.block_start) * pb) ((lba - p.slot.block_start) * pb + pb))
    unfolding view
    view-held = rw (p.same, p.holds)

    read_loaded-eq : read_loaded l lba p.idx after ≡ (view m lba, after)
    unfolding read_loaded open_block
    read_loaded-eq =
        rw
          (
            view-held,
            after-slot,
            range-eq p.buffer ((lba - p.slot.block_start) * pb)
                ((lba - p.slot.block_start) * pb + pb)
                (within p.slot lba (length p.buffer) p.covered p.sized),
          )
          (unfold after in refl)

    -- Reading gives what the store holds, and leaves the slot loaded.
    pub read_block-eq : read_block l lba m ≡ (view m lba, loaded m p.idx p.slot p.buffer)
    unfolding read_block after
    read_block-eq = rw (p.chosen, loads) read_loaded-eq

    pub loaded-IsValid : IsValid m → IsValid (loaded m p.idx p.slot p.buffer)
    loaded-IsValid v = record {
      contiguous =
          Contiguous-set 0 m.store.total_blocks p.idx m.store.carriers p.slot _ p.at (refl, refl)
            v.contiguous;
      ready = All-set _ m.store.carriers p.idx _ v.ready (p.buffer, refl, p.sized);
      apart = Apart-set l.carrier_codec.temporary p.idx m.store.carriers p.slot _ p.at refl v.apart;
      keyed = v.keyed;
    }

    pub view-loaded : (j : ℕ) → view (loaded m p.idx p.slot p.buffer) j ≡ view m j
    unfolding view open_block
    view-loaded j =
        ap (λ r. r >>= open_block l m.store j)
          (raw-set_other l m.store.encrypted m.store.order_key m.disk j p.idx m.store.carriers
            p.slot (record (p.slot) { buffer = some p.buffer }) p.at refl (λ _. rw p.holds))
