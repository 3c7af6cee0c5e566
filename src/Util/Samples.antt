-- ===== src/Util/Samples.antt =====
-- A file system that fails after the rename, and the theorems about `atomic_write` at it.
use gcit.Base.{Bool, true, false, none, some, [], ◌∷◌, ◌≡◌, ◌≢◌, refl}
use gcit.Util.{Bytes, Disk, Call, sync_parent, World, atomic_write}
use gcit.Util.Replace.{is_early, Holds, Outcome, atomic_write_lem, atomic_write_fails_replaced}

abbrev only_sync_parent : Call → Bool
only_sync_parent sync_parent = true
only_sync_parent _ = false

abbrev late_failure : World
late_failure = record { refuses = only_sync_parent; temp_mode = 0o600; renamed_mode = λ mode. mode }

abbrev contents : Bytes
contents = 1 ∷ 2 ∷ []

abbrev empty_disk : Disk
empty_disk = record { dest = none; durable = true }

atomic_write_late : atomic_write late_failure contents 0o600 empty_disk ≡ (
  record {
    dest =
        some
          (record { content = contents; mode = 0o600; content_synced = true; mode_synced = true });
    durable = false;
  },
  some sync_parent,
)
unfolding atomic_write
atomic_write_late = refl

atomic_write_lem_example :
    Outcome late_failure contents 0o600 empty_disk
      (atomic_write late_failure contents 0o600 empty_disk)
atomic_write_lem_example = atomic_write_lem late_failure contents 0o600 empty_disk

early_passes : (c : Call) → is_early c ≡ true → only_sync_parent c ≡ false
early_passes sync_parent e = cc
early_passes _ e = refl

atomic_write_fails_replaced_example :
    ((atomic_write late_failure contents 0o600 empty_disk).1 ≢ none)
    × Holds contents (atomic_write late_failure contents 0o600 empty_disk).0
atomic_write_fails_replaced_example =
    atomic_write_fails_replaced late_failure contents 0o600 empty_disk early_passes refl

-- A rename that loses the mode: it is set again, and not synced.
abbrev mangling : World
mangling = record { refuses = λ _. false; temp_mode = 0o600; renamed_mode = λ _. 0o644 }

atomic_write_mangled : atomic_write mangling contents 0o600 empty_disk ≡ (
  record {
    dest =
        some
          (record { content = contents; mode = 0o600; content_synced = true; mode_synced = false });
    durable = true;
  },
  none,
)
unfolding atomic_write
atomic_write_mangled = refl
