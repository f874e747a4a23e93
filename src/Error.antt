-- ===== src/Error.antt =====
-- nervusdb-storage/src/error.rs. The payloads of `Io` and `Serialization` come from libraries.
use Prim.Native.String.{String}
use nervusdb.Base.{ℕ, Outcome}

pub data Error : Type 0 where
  io invalid_magic serialization : Error
  unsupported_page_size page_id_out_of_range page_not_allocated : ℕ → Error
  wal_record_too_large wal_checksum_mismatch : ℕ → Error
  storage_format_mismatch : ℕ → ℕ → Error
  wal_protocol storage_corrupted backup_protocol : String → Error

-- `Result<T>` of the storage crate
abbrev pub Storage : Type 0 → Type 0
Storage = Outcome Error
