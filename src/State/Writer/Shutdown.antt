-- ===== src/State/Writer/Shutdown.antt =====
-- The write after the loop, and the writer with no mirror.
use gcit.Base.{
  Bool, true, false, Option, none, some, List, [], ◌∷◌, String, ◌≡◌, refl, ap, ◌∙◌, ◌⊎◌, inl, inr,
  if_ind, arith,
}
use gcit.Util.{Bytes, Disk, Call, WriteError, io_result, atomic_write_json}
use gcit.Util.Replace.{content_of, Written, atomic_write-Written, atomic_write-eq-none}
use gcit.State.Types.{State, StateUpdate}
use gcit.State.Apply.{apply_all}
use gcit.State.Writer.{
  state_file_mode, Attempt, Writer, Batch, after_write, write_batch, after_final, final_write,
  write_loop, run_mirrored, run, run_loop, run_final, after_plain,
}
use gcit.State.Writer.Durable.{Keeps, updates_of, write_loop-Keeps, start-Keeps}

-- The write succeeded, and the destination holds the bytes.
abbrev Wrote : Bytes → Disk × Option WriteError → Type 0
Wrote bytes r = (r.1 ≡ none) × (content_of r.0 ≡ some bytes)

module _ (to_bytes : State → Option Bytes) (a : Attempt) (s : State) (d : Disk) where
  save-Wrote :
      (bytes : Bytes)
      → to_bytes s ≡ some bytes
      → ((c : Call) → a.world.refuses c ≡ false)
      → Wrote bytes (atomic_write_json to_bytes a.world s state_file_mode d)
  unfolding atomic_write_json
  save-Wrote bytes e free =
      rw (e, atomic_write_json)
        (go _ (atomic_write-eq-none a.world bytes state_file_mode d free)
          (atomic_write-Written a.world bytes state_file_mode d))
    where
      go : (r : Disk × Option Call) → r.1 ≡ none → Written bytes d r → Wrote bytes (io_result r)
      go (d', none) p h = (refl, h)
      go (d', some c) p h = cc

module _ {ObjectId : Type 0} (to_hex : ObjectId → String) (to_bytes : State → Option Bytes)
    (initial : State) (disk : Disk) where
  after_final_lem :
      (a : Attempt) (t : Writer) (bytes : Bytes) (r : Disk × Option WriteError)
      → Wrote bytes r
      → content_of (after_final to_hex to_bytes a t r).disk ≡ some bytes
  after_final_lem a t bytes (d', none) (_, h) =
      if_ind (λ (w : Writer). content_of w.disk ≡ some bytes) a.poisoned (λ _. h) (λ _. h)
  after_final_lem a t bytes (d', some _) (p, h) = cc

  final_write_lem :
      (us : List (StateUpdate ObjectId)) (a : Attempt) (t : Writer) (bytes : Bytes)
      → Keeps to_hex to_bytes initial disk us t
      → to_bytes t.state ≡ some bytes
      → ((c : Call) → a.world.refuses c ≡ false)
      → (us ≡ []) ⊎ (content_of (final_write to_hex to_bytes a t).disk ≡ some bytes)
  unfolding final_write
  final_write_lem us a t bytes k e free =
      if_ind (λ (w : Writer). (us ≡ []) ⊎ (content_of w.disk ≡ some bytes)) t.dirty
        (λ _. inr (after_final_lem a t bytes _ (save-Wrote to_bytes a t.state t.disk bytes e free)))
        (λ clean. elim (k.clean_is clean) [ inl e' ↦ inl e' | inr h ↦ inr (h ∙ e) ])

  -- Where the state after all updates has a serialization and the file system refuses nothing of
  -- the last write, whatever was refused before, the thread ends with the bytes of that state on
  -- the disk, unless there were no updates at all.
  pub run_mirrored_flushes :
      (batches : List (Batch to_hex to_bytes)) (last : Attempt) (bytes : Bytes)
      → to_bytes (apply_all to_hex initial (updates_of to_hex to_bytes batches)) ≡ some bytes
      → ((c : Call) → last.world.refuses c ≡ false)
      → (updates_of to_hex to_bytes batches ≡ [])
        ⊎ (content_of (run_mirrored to_hex to_bytes initial disk batches last).disk ≡ some bytes)
  unfolding run_mirrored
  run_mirrored_flushes batches last bytes e free =
      let k =
        write_loop-Keeps to_hex to_bytes initial disk [] _ batches
          (start-Keeps to_hex to_bytes initial disk) in
      final_write_lem _ last _ bytes k (ap to_bytes k.state_is ∙ e) free

  -- What the writer with no mirror keeps of the one with a mirror.
  abbrev plain : Writer → State × Disk × Bool
  plain t = (t.state, t.disk, t.dirty)

  plain-after_write :
      (a : Attempt) (t : Writer) (r : Disk × Option WriteError)
      → plain (after_write to_hex to_bytes a t r) ≡ after_plain to_hex to_bytes (plain t) r
  plain-after_write a t (d', none) = ground arith
  plain-after_write a t (d', some _) = refl

  plain-write_loop :
      (t : Writer) (bs : List (Batch to_hex to_bytes))
      → plain (write_loop to_hex to_bytes t bs) ≡ run_loop to_hex to_bytes (plain t) bs
  unfolding write_loop run_loop write_batch
  plain-write_loop t [] = refl
  plain-write_loop t ((us, a) ∷ bs) =
      let applied : Writer = record t { state = apply_all to_hex t.state us; dirty = true } in
      plain-write_loop (write_batch to_hex to_bytes t (us, a)) bs
      ∙ ap (λ r. run_loop to_hex to_bytes r bs)
          (plain-after_write a applied
            (atomic_write_json to_bytes a.world applied.state state_file_mode t.disk))

  plain-final_write :
      (a : Attempt) (t : Writer)
      → ((final_write to_hex to_bytes a t).state, (final_write to_hex to_bytes a t).disk)
        ≡ run_final to_hex to_bytes a (plain t)
  unfolding final_write
  plain-final_write a t = ground arith

  -- The writer with a mirror leaves the state and the disk as the one with none does, on the same
  -- batches, whichever writes fail.
  pub run_mirrored-run :
      (batches : List (Batch to_hex to_bytes)) (last : Attempt)
      → let t = run_mirrored to_hex to_bytes initial disk batches last in
        (t.state, t.disk) ≡ run to_hex to_bytes initial disk batches last
  unfolding run_mirrored run
  run_mirrored-run batches last =
      plain-final_write last _ ∙ ap (run_final to_hex to_bytes last) (plain-write_loop _ batches)
