-- ===== src/Store/Keeps.antt =====
-- Writing a loaded slot to its carrier, or marking it clean, changes nothing that can be read.
use album_fs.Common.{
  ◌>>=◌, length, slice, ◌==◌, ◌*◌, map_err, ensure, ℕ, zero, suc, ◌+◌, ◌≡◌, refl, sym, ap, ◌∙◌,
  Bool, false, List, [], ◌∷◌, Option, none, some, get_elem?, Result, ok, err, panic, All, All-set,
  All-get_elem?,
}
use mathlib.Core.Path.{subst}
use mathlib.Core.Option.{some-injective}
use album_fs.Fs.{pb, codec, FsError, manifest}
use album_fs.Codec.{ChunkWrite, Separate}
use album_fs.Store.{read_mode, CarrierSlot, Machine, Libraries, load, open_block}
use album_fs.Store.Methods.{put_slot}
use album_fs.Store.Slots.{
  offset_of, Apart, Apart-set, Contiguous-set, payload_of, content, raw, IsReady, raw-set_other,
}
use album_fs.Store.Reads.{IsValid, view}

bind-congr :
    {A B : Type 0} (r : Result FsError A) (f g : A → Result FsError B)
    → ((a : A) → f a ≡ g a)
    → (r >>= f) ≡ (r >>= g)
bind-congr (ok a) f g h = h a
bind-congr (err e) f g h = refl
bind-congr panic f g h = refl

module _ {FilePath Disk : Type 0} (l : Libraries FilePath Disk) where
  -- What a call may do that only writes carriers: the machine stays well formed, and every number
  -- holds what it held.
  pub record Keeps (m m' : Machine FilePath Disk) : Type 0 where
    pub valid : IsValid l m → IsValid l m'
    pub same : IsValid l m → (j : ℕ) → view l m' j ≡ view l m j
    pub total : m'.store.total_blocks ≡ m.store.total_blocks

  pub Keeps-refl : (m : Machine FilePath Disk) → Keeps m m
  Keeps-refl m = record { valid = λ v. v; same = λ v j. refl; total = refl }

  pub Keeps-trans : (m m' m'' : Machine FilePath Disk) → Keeps m m' → Keeps m' m'' → Keeps m m''
  Keeps-trans m m' m'' h k = record {
    valid = λ v. k.valid (h.valid v);
    same = λ v j. k.same (h.valid v) j ∙ h.same v j;
    total = k.total ∙ h.total;
  }

  module _ (encrypted : Bool) (order_key : Option (List ℕ)) where
    Same : Disk → Disk → CarrierSlot FilePath → Type 0
    Same disk disk' slot =
        content l encrypted order_key disk' slot ≡ content l encrypted order_key disk slot

    raw-disk :
        (disk disk' : Disk) (slots : List (CarrierSlot FilePath)) (j : ℕ)
        → All (Same disk disk') slots
        → raw l encrypted order_key disk' slots j ≡ raw l encrypted order_key disk slots j
    unfolding raw Same
    raw-disk disk disk' [] j h = refl
    raw-disk disk disk' (s ∷ rest) j h = rw (h.0, raw-disk disk disk' rest j h.1) refl

    IsReady-disk :
        (disk disk' : Disk) (slots : List (CarrierSlot FilePath))
        → All (Same disk disk') slots
        → All (IsReady l encrypted order_key disk) slots
        → All (IsReady l encrypted order_key disk') slots
    unfolding Same
    IsReady-disk disk disk' [] h r = tt
    IsReady-disk disk disk' (s ∷ rest) h r =
        let (buffer, holds, sized) = r.0 in
        ((buffer, h.0 ∙ holds, sized), IsReady-disk disk disk' rest h.1 r.1)

    module _ (path : FilePath) (mode : ChunkWrite) (payload key : List ℕ) (disk : Disk) where
      unfoldable pub after_write : Disk
      after_write = (l.carrier_codec.write_chunk path mode payload key disk).1

      pub other-Same :
          (buffer : Option (List ℕ)) (slot : CarrierSlot FilePath)
          → Separate l.carrier_codec.temporary slot.path path
          → payload_of l encrypted order_key after_write buffer slot
            ≡ payload_of l encrypted order_key disk buffer slot
      unfolding after_write load
      other-Same (some b) slot ne = refl
      other-Same none slot ne =
          ap (λ r. ensure (l.carrier_codec.for_path slot.path) manifest >>= λ _. r)
            (bind-congr (read_mode encrypted order_key slot) _ _ λ (mode', key').
              ap
                (λ r. map_err codec r >>= λ (meta, bytes).
                  ensure (meta.chunk_index == slot.chunk_index) manifest >>= λ _.
                  ensure (length bytes == slot.block_count * pb) manifest >>= λ _. ok bytes)
                (l.carrier_codec.read_chunk-write_chunk_other path slot.path mode mode' payload key
                  key' disk ne.0 ne.1))

      others-Same :
          (slots : List (CarrierSlot FilePath))
          → All (λ other. Separate l.carrier_codec.temporary other.path path) slots
          → All (Same disk after_write) slots
      unfolding Same
      others-Same [] h = tt
      others-Same (s ∷ rest) h = (other-Same s.buffer s h.0, others-Same rest h.1)

      -- Writing a loaded slot's file changes the content of no slot.
      wrote-Same :
          (idx : ℕ) (slots : List (CarrierSlot FilePath)) (slot : CarrierSlot FilePath) (b : List ℕ)
          → get_elem? slots idx ≡ some slot
          → slot.buffer ≡ some b
          → slot.path ≡ path
          → Apart l.carrier_codec.temporary slots
          → All (Same disk after_write) slots
      unfolding Same
      wrote-Same idx [] slot b e f p h = tt
      wrote-Same zero (s ∷ rest) slot b e f p h =
          let same : slot ≡ s = sym (some-injective _ _ e) in
          (
            subst
                (λ (o : Option (List ℕ)).
                  payload_of l encrypted order_key after_write o s
                  ≡ payload_of l encrypted order_key disk o s)
                (sym f ∙ ap (λ (x : CarrierSlot FilePath). x.buffer) same) refl,
            others-Same rest (
                subst (λ q. All (λ other. Separate l.carrier_codec.temporary other.path q) rest)
                  (ap (λ (x : CarrierSlot FilePath). x.path) (sym same) ∙ p) h.0),
          )
      wrote-Same (suc idx) (s ∷ rest) slot b e f p h = (
        other-Same s.buffer s (
            subst (Separate l.carrier_codec.temporary s.path) p (
              let there =
                All-get_elem? (λ other. Separate l.carrier_codec.temporary other.path s.path) rest
                  idx slot h.0 e in
              ((λ q. there.0 (sym q)), there.2, there.1))),
        wrote-Same idx rest slot b e f p h.1,
      )

  -- The machine after a carrier was written, whatever the outcome.
  pub wrote-Keeps :
      (m : Machine FilePath Disk) (idx : ℕ) (slot : CarrierSlot FilePath) (b : List ℕ)
      (mode : ChunkWrite) (payload key : List ℕ)
      → get_elem? m.store.carriers idx ≡ some slot
      → slot.buffer ≡ some b
      → Keeps m (record m {
        disk = after_write m.store.encrypted m.store.order_key slot.path mode payload key m.disk;
      })
  unfolding view open_block
  wrote-Keeps m idx slot b mode payload key e f =
      let disk' : Disk =
        after_write m.store.encrypted m.store.order_key slot.path mode payload key m.disk in
      let same = λ (v : IsValid l m).
        wrote-Same m.store.encrypted m.store.order_key slot.path mode payload key m.disk idx
          m.store.carriers slot b e f refl v.apart in
      record {
        valid = λ v. record {
          contiguous = v.contiguous;
          ready =
              IsReady-disk m.store.encrypted m.store.order_key m.disk disk' m.store.carriers
                (same v) v.ready;
          apart = v.apart;
          keyed = v.keyed;
        };
        same = λ v j.
            ap (λ r. r >>= open_block l m.store j)
              (raw-disk m.store.encrypted m.store.order_key m.disk disk' m.store.carriers j
                (same v));
        total = refl;
      }

  content-clean :
      (m : Machine FilePath Disk) (slot : CarrierSlot FilePath) (o : Option (List ℕ))
      → payload_of l m.store.encrypted m.store.order_key m.disk o (record slot { dirty = false })
        ≡ payload_of l m.store.encrypted m.store.order_key m.disk o slot
  unfolding load read_mode
  content-clean m slot (some b) = refl
  content-clean m slot none = refl

  -- A slot that is marked clean.
  pub cleaned-Keeps :
      (m : Machine FilePath Disk) (idx : ℕ) (slot : CarrierSlot FilePath) (b : List ℕ)
      → get_elem? m.store.carriers idx ≡ some slot
      → slot.buffer ≡ some b
      → Keeps m (put_slot idx (record slot { dirty = false }) m)
  unfolding view open_block
  cleaned-Keeps m idx slot b e f = record {
    valid = λ v. record {
      contiguous =
          Contiguous-set 0 m.store.total_blocks idx m.store.carriers slot _ e (refl, refl)
            v.contiguous;
      ready = All-set _ m.store.carriers idx _ v.ready (
          let (buffer, holds, sized) = All-get_elem? _ m.store.carriers idx slot v.ready e in
          (buffer, content-clean m slot slot.buffer ∙ holds, sized));
      apart = Apart-set l.carrier_codec.temporary idx m.store.carriers slot _ e refl v.apart;
      keyed = v.keyed;
    };
    same = λ v j.
        ap (λ r. r >>= open_block l m.store j)
          (raw-set_other l m.store.encrypted m.store.order_key m.disk j idx m.store.carriers slot
            (record slot { dirty = false }) e refl
            (λ _.
              ap
                (λ r. r >>= λ a. ok (
                  slice a (offset_of l m.store.encrypted m.store.order_key m.disk slot j)
                    (offset_of l m.store.encrypted m.store.order_key m.disk slot j + pb)))
                (content-clean m slot slot.buffer)));
    total = refl;
  }
