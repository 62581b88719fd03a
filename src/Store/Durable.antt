-- ===== src/Store/Durable.antt =====
-- What stands in the files of the carriers after `flush`.
mod Examples
use album_fs.Common.{
  IsU32, ◌<◌, arith, Bool-cases, Option-cases, inl, inr, ◌>>=◌, ℕ, zero, suc, ◌*◌, ◌≡◌, refl, sym,
  ap, ◌∙◌, Bool, true, false, not, List, [], ◌∷◌, length, Option, none, some, get_elem?,
  if◌then◌else◌, Result, ok, err, panic, ok_or, ensure, map_err, ◌==◌, ==_refl, All, All-get_elem?,
  IsByte,
}
use album_fs.Store.Flush.{write_mode-state}
use album_fs.Common.Actions.{Action, continue, lift, modify, ◌>>◌}
use album_fs.Common.Keeps.{Keeps, Keeps-lift, ◌▷◌, ◌▸◌, Keeps-if}
use album_fs.Common.Ends.{Ends, is_ok, ◌▶◌, ◌▷▶◌, Ends-value, Ends-reads, Ends-ensure, Ends-then}
use mathlib.Core.Path.{subst}
use mathlib.Core.Option.{some-injective}
use album_fs.Fs.{FsError, codec, CodecError, auth, manifest, pb}
use album_fs.Codec.{ChunkMeta, ChunkWrite, ChunkRead, Separate, CarrierCodec}
use album_fs.Store.{CarrierSlot, Machine, Libraries, read_mode, load}
use album_fs.Store.Methods.{put_slot, write_chunk, write_mode, flush_slot, flush_from, flush}
use album_fs.Store.Modes.{Retains, reads_back, meta_of, mode_for, ok-inj, same_mode, was_ok}
use album_fs.Store.Slots.{Apart, payload_of}
use album_fs.Store.Reads.{IsValid}
use album_fs.Store.Keeps.{other-Same, after_write}

module _ {FilePath Disk : Type 0} (l : Libraries FilePath Disk) (encrypted : Bool)
    (order_key : Option (List ℕ)) (slot : CarrierSlot FilePath) where
  -- The mode is the one that the store had.
  SameMode : Machine FilePath Disk → Type 0
  SameMode m = (m.store.encrypted ≡ encrypted) × (m.store.order_key ≡ order_key)

  -- The slot's file loads to that result.
  Loads : Result FsError (List ℕ) → Machine FilePath Disk → Type 0
  Loads r m = load l encrypted order_key m.disk slot ≡ r

  write_mode-Keeps :
      (P : Machine FilePath Disk → Type 0) (other : CarrierSlot FilePath)
      → Keeps P (write_mode l other)
  write_mode-Keeps P other = record { keeps = λ m p. subst P (sym (write_mode-state l m other)) p }

  write_chunk-SameMode :
      (other : CarrierSlot FilePath) (mode : ChunkWrite) (buffer key : List ℕ)
      → Keeps SameMode (write_chunk l other mode buffer key)
  unfolding write_chunk SameMode
  write_chunk-SameMode other mode buffer key = record { keeps = λ m p. p }

  cleaned-SameMode :
      (idx : ℕ) (other : CarrierSlot FilePath)
      → Keeps {E = FsError} SameMode (modify (put_slot idx other))
  unfolding SameMode
  cleaned-SameMode idx other = record { keeps = λ m p. p }

  write_chunk-Loads :
      (r : Result FsError (List ℕ)) (other : CarrierSlot FilePath) (mode : ChunkWrite)
      (buffer key : List ℕ)
      → Separate l.carrier_codec.temporary slot.path other.path
      → Keeps (Loads r) (write_chunk l other mode buffer key)
  unfolding write_chunk Loads after_write
  write_chunk-Loads r other mode buffer key apart = record {
    keeps = λ m p.
        other-Same l encrypted order_key other.path mode buffer key m.disk none slot apart ∙ p;
  }

  cleaned-Loads :
      (r : Result FsError (List ℕ)) (idx : ℕ) (other : CarrierSlot FilePath)
      → Keeps {E = FsError} (Loads r) (modify (put_slot idx other))
  unfolding Loads
  cleaned-Loads r idx other = record { keeps = λ m p. p }

  -- What a write of a slot keeps, from what its two changes keep.
  flush_slot-Keeps :
      {P : Machine FilePath Disk → Type 0} (idx : ℕ) (other : CarrierSlot FilePath)
      → ((mode : ChunkWrite) (buffer key : List ℕ) → Keeps P (write_chunk l other mode buffer key))
      → Keeps {E = FsError} P (modify (put_slot idx (record other { dirty = false })))
      → Keeps P (flush_slot l idx other)
  unfolding flush_slot
  flush_slot-Keeps {P = P} idx other writes cleans =
      Keeps-lift (ok_or other.buffer manifest) ▷ λ buffer.
      Keeps-lift (ensure (l.carrier_codec.for_path other.path) manifest)
      ▸ (write_mode-Keeps P other ▷ λ (mode, key). writes mode buffer key ▸ cleans)

  flush_from-Loads :
      (r : Result FsError (List ℕ)) (idx : ℕ) (rest : List (CarrierSlot FilePath))
      → All (λ other. Separate l.carrier_codec.temporary slot.path other.path) rest
      → Keeps (Loads r) (flush_from l idx rest)
  unfolding flush_from
  flush_from-Loads r idx [] h = Keeps-lift _
  flush_from-Loads r idx (other ∷ rest) h =
      Keeps-if other.dirty
        (flush_slot-Keeps idx other
          (λ mode buffer key. write_chunk-Loads r other mode buffer key h.0)
          (cleaned-Loads r idx _))
        (Keeps-lift _)
      ▸ flush_from-Loads r (suc idx) rest h.1

  write_mode-eq :
      (m : Machine FilePath Disk)
      → SameMode m
      → write_mode l slot m ≡ (mode_for encrypted order_key slot, m)
  unfolding write_mode mode_for SameMode
  write_mode-eq m p = elim (Bool-cases m.store.encrypted) [
    | inr plain ↦ rw (plain, sym p.0 ∙ plain) refl
    | inl coded ↦ elim (Option-cases m.store.order_key) [
      | inl no_key ↦ rw (coded, no_key, sym p.0 ∙ coded, sym p.1 ∙ no_key) refl
      | inr (key, has) ↦ rw (coded, has, sym p.0 ∙ coded, sym p.1 ∙ has) refl
    ]
  ]

  -- Both ways round.
  All-Separate :
      (path : FilePath) (rest : List (CarrierSlot FilePath))
      → All (λ other. Separate l.carrier_codec.temporary other.path path) rest
      → All (λ other. Separate l.carrier_codec.temporary path other.path) rest
  All-Separate path [] h = tt
  All-Separate path (other ∷ rest) h =
      (((λ e. h.0.0 (sym e)), h.0.2, h.0.1), All-Separate path rest h.1)

  -- Loading from a file that the codec reads so.
  loads-read :
      (disk : Disk) (mode : ChunkRead) (meta : ChunkMeta) (buffer key : List ℕ)
      → l.carrier_codec.for_path slot.path ≡ true
      → read_mode encrypted order_key slot ≡ ok (mode, key)
      → l.carrier_codec.read_chunk slot.path mode key disk ≡ ok (meta, buffer)
      → meta.chunk_index ≡ slot.chunk_index
      → length buffer ≡ slot.block_count * pb
      → load l encrypted order_key disk slot ≡ ok buffer
  unfolding load
  loads-read disk mode meta buffer key supported how read same sized =
      rw
        (
          supported,
          how,
          read,
          same,
          ==_refl slot.chunk_index,
          sized,
          ==_refl (slot.block_count * pb),
        )
        refl

  -- The write of a slot in a store of that mode, after its mode has been found.
  stores :
      (buffer : List ℕ) (idx : ℕ) (mode : ChunkWrite) (key : List ℕ) (m : Machine FilePath Disk)
      → Retains l.carrier_codec
      → All IsByte buffer
      → IsU32 slot.chunk_index
      → length buffer ≡ slot.block_count * pb
      → l.carrier_codec.for_path slot.path ≡ true
      → mode_for encrypted order_key slot ≡ ok (mode, key)
      → is_ok (write_chunk l slot mode buffer key m).0 ≡ true
      → Loads (ok buffer) (write_chunk l slot mode buffer key m).1
  unfolding write_chunk Loads
  stores buffer idx mode key m keeps bytes narrow sized supported e done =
      let (how, same, small) = same_mode encrypted order_key slot mode key e in
      loads-read _ (reads_back mode (slot.block_count * pb)) (meta_of mode) buffer key supported how
        (subst
          (λ n.
            l.carrier_codec.read_chunk slot.path (reads_back mode n) key
              (l.carrier_codec.write_chunk slot.path mode buffer key m.disk).1
            ≡ ok (meta_of mode, buffer))
          sized
          (keeps slot.path mode buffer key m.disk bytes (subst IsU32 (sym same) narrow) small
            (was_ok _ done)))
        same sized

  -- The target's own write.
  flush_slot-Ends :
      (buffer : List ℕ) (idx : ℕ)
      → Retains l.carrier_codec
      → All IsByte buffer
      → IsU32 slot.chunk_index
      → length buffer ≡ slot.block_count * pb
      → slot.buffer ≡ some buffer
      → Ends SameMode (Loads (ok buffer)) (flush_slot l idx slot)
  unfolding flush_slot
  flush_slot-Ends buffer idx keeps bytes narrow sized here = Ends-value manifest _ here (
      Ends-ensure (l.carrier_codec.for_path slot.path) manifest λ supported.
        Ends-reads (mode_for encrypted order_key slot) write_mode-eq λ (mode, key) e.
          Ends-then
            (record {
              ends = λ m p done.
                  stores buffer idx mode key m keeps bytes narrow sized supported e done;
            })
            (cleaned-Loads (ok buffer) idx (record slot { dirty = false })))

  -- The slots before the target keep the mode, and those after it what was written.
  flush_from-Ends :
      (buffer : List ℕ) (idx k : ℕ) (rest : List (CarrierSlot FilePath))
      → Retains l.carrier_codec
      → All IsByte buffer
      → IsU32 slot.chunk_index
      → length buffer ≡ slot.block_count * pb
      → slot.buffer ≡ some buffer
      → slot.dirty ≡ true
      → get_elem? rest k ≡ some slot
      → Apart l.carrier_codec.temporary rest
      → Ends SameMode (Loads (ok buffer)) (flush_from l idx rest)
  unfolding flush_from
  flush_from-Ends buffer idx k [] keeps bytes narrow sized here dirty at apart = cc
  flush_from-Ends buffer idx zero (other ∷ rest) keeps bytes narrow sized here dirty at apart =
      let same : other ≡ slot = some-injective _ _ at in
      subst
        (λ (o : CarrierSlot FilePath).
          Ends SameMode (Loads (ok buffer))
            ((if o.dirty then flush_slot l idx o else lift (ok tt)) >> flush_from l (suc idx) rest))
        (sym same)
        (subst
          (λ b.
            Ends SameMode (Loads (ok buffer))
              ((if b then flush_slot l idx slot else lift (ok tt)) >> flush_from l (suc idx) rest))
          (sym dirty)
          (Ends-then (flush_slot-Ends buffer idx keeps bytes narrow sized here) (
            flush_from-Loads (ok buffer) (suc idx) rest (
              All-Separate slot.path rest (
                subst
                  (λ (o : CarrierSlot FilePath).
                    All (λ x. Separate l.carrier_codec.temporary x.path o.path) rest)
                  same apart.0)))))
  flush_from-Ends buffer idx (suc k) (other ∷ rest) keeps bytes narrow sized here dirty at apart =
      Keeps-if other.dirty
        (flush_slot-Keeps idx other (write_chunk-SameMode other) (cleaned-SameMode idx _))
        (Keeps-lift _)
      ▶ flush_from-Ends buffer (suc idx) k rest keeps bytes narrow sized here dirty at apart.1

-- With a codec that reads back what it wrote, a `flush` of a well-formed store that succeeds has written every
-- carrier that was dirty: loading its slot from the file gives the bytes that its buffer held.
pub flush-Loads :
    {FilePath Disk : Type 0} (l : Libraries FilePath Disk) (m : Machine FilePath Disk) (idx : ℕ)
    (slot : CarrierSlot FilePath) (buffer : List ℕ)
    → IsValid l m
    → Retains l.carrier_codec
    → get_elem? m.store.carriers idx ≡ some slot
    → slot.dirty ≡ true
    → slot.buffer ≡ some buffer
    → All IsByte buffer
    → IsU32 slot.chunk_index
    → is_ok (flush l m).0 ≡ true
    → load l m.store.encrypted m.store.order_key (flush l m).1.disk slot ≡ ok buffer
unfolding flush
flush-Loads l m idx slot buffer v keeps at dirty here bytes narrow done =
    let (held, holds, sized) = All-get_elem? _ m.store.carriers idx slot v.ready at in
    let same : buffer ≡ held = ok-inj (
      sym (ap (λ o. payload_of l m.store.encrypted m.store.order_key m.disk o slot) here)
      ∙ holds) in
    let start : SameMode l m.store.encrypted m.store.order_key slot m =
      unfold SameMode in (refl, refl) in
    let ends =
      flush_from-Ends l m.store.encrypted m.store.order_key slot buffer 0 idx m.store.carriers keeps
        bytes narrow (ap length same ∙ sized) here dirty at v.apart in
    unfold Loads in ends.ends m start done
