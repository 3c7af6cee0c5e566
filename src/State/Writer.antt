-- ===== src/State/Writer.antt =====
-- src/state/writer.rs: the thread that applies the updates and persists the state. Its channel is
-- the list of the batches that `blocking_recv_many` returns, none of them empty, and the list ends
-- where the channel is closed. Each attempt to persist comes with what the file system does then
-- and whether the mirror's mutex is poisoned.
pub mod Durable
pub mod Shutdown
use gcit.Base.{ℕ, Bool, true, false, Option, none, some, List, [], ◌∷◌, String, if◌then◌else◌}
use gcit.Util.{Bytes, Disk, World, WriteError, atomic_write_json}
use gcit.State.Types.{State, StateUpdate}
use gcit.State.Apply.{apply_all}

abbrev pub state_file_mode : ℕ
state_file_mode = 0o600

pub record Attempt : Type 0 where
  pub world : World
  pub poisoned : Bool

-- The thread's variables, the file and the mirror.
pub record Writer : Type 0 where
  pub state : State
  pub disk : Disk
  pub mirror : State
  pub dirty : Bool

module _ {ObjectId : Type 0} (to_hex : ObjectId → String) (to_bytes : State → Option Bytes) where
  abbrev pub Batch : Type 0
  Batch = List (StateUpdate ObjectId) × Attempt

  abbrev pub refresh : Attempt → Writer → Writer
  refresh a t = if a.poisoned then t else record t { mirror = t.state }

  -- The `match` on `atomic_write_json` in the loop of `run_mirrored`.
  abbrev pub after_write : Attempt → Writer → Disk × Option WriteError → Writer
  after_write a t (disk, none) = refresh a (record t { disk = disk; dirty = false })
  after_write a t (disk, some _) = record t { disk = disk }

  unfoldable pub persist : Attempt → Writer → Writer
  persist a t = after_write a t (atomic_write_json to_bytes a.world t.state state_file_mode t.disk)

  -- The body of the loop, for one batch.
  unfoldable pub write_batch : Writer → Batch → Writer
  unfolding persist
  write_batch t (updates, a) =
      persist a (record t { state = apply_all to_hex t.state updates; dirty = true })

  -- The write after the loop leaves `dirty` alone.
  abbrev pub after_final : Attempt → Writer → Disk × Option WriteError → Writer
  after_final a t (disk, none) = refresh a (record t { disk = disk })
  after_final a t (disk, some _) = record t { disk = disk }

  unfoldable pub final_write : Attempt → Writer → Writer
  final_write a t =
      if t.dirty
      then after_final a t (atomic_write_json to_bytes a.world t.state state_file_mode t.disk)
      else t

  unfoldable pub write_loop : Writer → List Batch → Writer
  write_loop t [] = t
  write_loop t (b ∷ bs) = write_loop (write_batch t b) bs

  -- `spawn_with_mirror`, then `run_mirrored`: the mirror starts as the initial state.
  unfoldable pub run_mirrored : State → Disk → List Batch → Attempt → Writer
  unfolding write_loop write_batch final_write
  run_mirrored initial disk batches last = final_write last (
      write_loop (record { state = initial; disk = disk; mirror = initial; dirty = false }) batches)

  -- `run`: the same loop with no mirror, over the state, the file and the flag.
  abbrev pub after_plain : State × Disk × Bool → Disk × Option WriteError → State × Disk × Bool
  after_plain (state, _, dirty) (disk, none) = (state, disk, false)
  after_plain (state, _, dirty) (disk, some _) = (state, disk, dirty)

  unfoldable pub run_loop : State × Disk × Bool → List Batch → State × Disk × Bool
  run_loop t [] = t
  run_loop (state, disk, dirty) ((updates, a) ∷ bs) =
      let state' : State = apply_all to_hex state updates in
      run_loop
        (after_plain (state', disk, true)
          (atomic_write_json to_bytes a.world state' state_file_mode disk))
        bs

  abbrev pub run_final : Attempt → State × Disk × Bool → State × Disk
  run_final last (state, disk, dirty) = (
    state,
    (if dirty then (atomic_write_json to_bytes last.world state state_file_mode disk).0 else disk),
  )

  unfoldable pub run : State → Disk → List Batch → Attempt → State × Disk
  unfolding run_loop
  run initial disk batches last = run_final last (run_loop (initial, disk, false) batches)
