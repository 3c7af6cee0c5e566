-- ===== src/Util.antt =====
-- src/util.rs: `atomic_write`, over a file system that may refuse any of its steps.
pub mod Replace
mod Samples
use gcit.Base.{ℕ, Bool, true, false, ◌==◌, Option, none, some, List, [], if◌then◌else◌}

abbrev pub Bytes : Type 0
Bytes = List ℕ

pub record File : Type 0 where
  pub content : Bytes
  pub mode : ℕ
  -- Whether the content, and whether the mode as it is, have reached the disk.
  pub content_synced : Bool
  pub mode_synced : Bool

-- What the destination's name stands for, and whether its directory entry has reached the disk.
pub record Disk : Type 0 where
  pub dest : Option File
  pub durable : Bool

-- The system calls of `atomic_write`, in their order.
pub data Call : Type 0 where
  create_temp write_temp chmod_temp sync_temp rename chmod_dest open_parent sync_parent : Call

-- One run of the file system: the calls that it refuses, the mode of a new temporary file, and
-- what a rename makes of a file's mode. A mode that differs from the one that was synced, and the one
-- that is set again after it, are not on the disk.
pub record World : Type 0 where
  pub refuses : Call → Bool
  pub temp_mode : ℕ
  pub renamed_mode : ℕ → ℕ

-- The temporary file is removed where a call before the rename fails. `none` is success, and
-- `some` names the call that failed.
unfoldable pub atomic_write : World → Bytes → ℕ → Disk → Disk × Option Call
atomic_write w contents mode d =
    if w.refuses create_temp
    then (d, some create_temp)
    else if w.refuses write_temp
    then (d, some write_temp)
    else let written : File = record {
      content = contents;
      mode = w.temp_mode;
      content_synced = false;
      mode_synced = false;
    } in
      if w.refuses chmod_temp
      then (d, some chmod_temp)
      else let moded : File = record written { mode = mode } in
        if w.refuses sync_temp
        then (d, some sync_temp)
        else let temp : File = record moded { content_synced = true; mode_synced = true } in
          if w.refuses rename
          then (d, some rename)
          else let renamed : File = record temp {
            mode = w.renamed_mode mode;
            mode_synced = w.renamed_mode mode == mode;
          } in
            if w.refuses chmod_dest
            then (record { dest = some renamed; durable = false }, some chmod_dest)
            else let d' : Disk = record {
              dest = some (record renamed { mode = mode });
              durable = false;
            } in
              if w.refuses open_parent
              then (d', some open_parent)
              else if w.refuses sync_parent
              then (d', some sync_parent)
              else (record d' { durable = true }, none)

-- `atomic_write_json`: `to_bytes` is the serializer, which may refuse a value.
pub data WriteError : Type 0 where
  serialize : WriteError
  io : Call → WriteError

abbrev pub io_result : Disk × Option Call → Disk × Option WriteError
io_result (d, none) = (d, none)
io_result (d, some c) = (d, some (io c))

unfoldable pub atomic_write_json {ℓ} :
    {A : Type ℓ} → (A → Option Bytes) → World → A → ℕ → Disk → Disk × Option WriteError
atomic_write_json to_bytes w value mode d = elim (to_bytes value) [
  | none ↦ (d, some serialize)
  | some bytes ↦ io_result (atomic_write w bytes mode d)
]
