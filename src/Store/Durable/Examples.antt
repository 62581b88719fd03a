-- ===== src/Store/Durable/Examples.antt =====
-- A codec that keeps what it wrote beside what it says of it, and a store with one changed carrier.
use album_fs.Common.{
  ℕ, zero, suc, ◌+◌, ◌%◌, ◌≡◌, refl, true, false, List, [], ◌∷◌, length, replicate,
  length-replicate, some, none, if◌then◌else◌, ok, ◌==◌, ==_refl, ne→==, All, IsByte, arith,
}
use album_fs.Common.Ends.{is_ok}
use album_fs.Fs.{pb}
use album_fs.Codec.{ChunkMeta, CarrierCodec}
use album_fs.Block.Examples.{first_byte, plain}
use album_fs.Store.{CarrierSlot, Machine, Libraries, load}
use album_fs.Store.Methods.{flush, flush_from, flush_slot, write_mode, write_chunk}
use album_fs.Store.Reads.{IsValid}
use album_fs.Store.Modes.{Retains, meta_of}
use album_fs.Store.Durable.{flush-Loads}

abbrev Notes : Type 0
Notes = ℕ → ChunkMeta × List ℕ

abbrev noting : CarrierCodec ℕ Notes
noting = record {
  for_path = λ path. true;
  raw_capacity_bytes = λ path disk. ok (length (disk path).1);
  write_chunk = λ path mode payload key disk.
      (ok tt, λ other. if other == path then (meta_of mode, payload) else disk other);
  read_chunk = λ path mode key disk. ok (disk path);
  write_prefix = λ path bytes disk. (ok tt, disk);
  read_prefix = λ path n disk. ok (disk path).1;
  temporary = λ path. path + 1000;
  read_chunk-write_chunk_other =
      λ path path' mode mode' payload key key' disk ne apart. rw (ne→== path' path ne) refl;
}

noting-Retains : Retains noting
noting-Retains path mode payload key disk bytes narrow small done = rw (==_refl path) refl

abbrev libraries : Libraries ℕ Notes
libraries = record {
  checksum = first_byte;
  aead = plain;
  nonce = λ k. replicate 24 (k % 256);
  length-nonce = λ k. length-replicate {A = ℕ} 24 (k % 256);
  carrier_codec = noting;
}

abbrev changed_slot : CarrierSlot ℕ
changed_slot = record {
  path = 0;
  chunk_index = 0;
  is_primary = true;
  block_start = 0;
  block_count = 1;
  buffer = some (replicate pb 7);
  dirty = true;
}

abbrev machine : Machine ℕ Notes
machine = record {
  store = record {
    carriers = changed_slot ∷ [];
    total_blocks = 1;
    encrypted = false;
    cipher = none;
    order_key = none;
  };
  disk = λ path. (record { chunk_index = path; flags = 0 }, []);
  draws = 0;
}

machine-IsValid : IsValid libraries machine
machine-IsValid = record {
  contiguous = (refl, refl);
  ready = ((replicate pb 7, refl, length-replicate {A = ℕ} pb 7), tt);
  apart = (tt, tt);
  keyed = λ e. cc;
}

sevens-IsByte : (n : ℕ) → All IsByte (replicate n 7)
unfolding replicate
sevens-IsByte zero = tt
sevens-IsByte (suc n) = (omega arith, sevens-IsByte n)

flush_succeeds : is_ok (flush libraries machine).0 ≡ true
unfolding flush flush_from flush_slot write_mode write_chunk
flush_succeeds = refl

flush-Loads_example :
    load libraries false none (flush libraries machine).1.disk changed_slot ≡ ok (replicate pb 7)
flush-Loads_example =
    flush-Loads libraries machine 0 changed_slot (replicate pb 7) machine-IsValid noting-Retains
      refl refl refl (sevens-IsByte pb) (omega arith) flush_succeeds
