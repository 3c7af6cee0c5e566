-- ===== src/State/Writer/Durable.antt =====
-- What is on the disk and in the mirror, whichever writes fail.
use gcit.Base.{
  Bool, true, false, Option, none, some, List, [], ◌∷◌, ◌++◌, append-nil, append_assoc, String, ◌≡◌,
  refl, sym, ap, ◌∙◌, subst, ◌⊎◌, inl, inr, if_ind,
}
use gcit.Util.{Bytes, Disk, Call, WriteError, serialize, io_result, atomic_write, atomic_write_json}
use gcit.Util.Replace.{content_of, Written, atomic_write-Written}
use gcit.State.Types.{State, StateUpdate}
use gcit.State.Apply.{apply, apply_all}
use gcit.State.Writer.{
  state_file_mode, Attempt, Writer, Batch, refresh, after_write, write_batch, after_final,
  final_write, write_loop, run_mirrored,
}

module _ {ObjectId : Type 0} (to_hex : ObjectId → String) where
  apply_all-append :
      (s : State) (us vs : List (StateUpdate ObjectId))
      → apply_all to_hex s (us ++ vs) ≡ apply_all to_hex (apply_all to_hex s us) vs
  unfolding apply_all
  apply_all-append s [] vs = refl
  apply_all-append s (u ∷ us) vs = apply_all-append (apply to_hex s u) us vs

-- The updates of all batches, in order.
unfoldable pub updates_of :
    {ObjectId : Type 0} (to_hex : ObjectId → String) (to_bytes : State → Option Bytes)
    → List (Batch to_hex to_bytes)
    → List (StateUpdate ObjectId)
updates_of to_hex to_bytes [] = []
updates_of to_hex to_bytes ((us, _) ∷ bs) = us ++ updates_of to_hex to_bytes bs

-- A failed write leaves the old content or the new one.
abbrev pub Saved : (State → Option Bytes) → State → Disk → Disk × Option WriteError → Type 0
Saved to_bytes s d (d', none) = content_of d' ≡ to_bytes s
Saved to_bytes s d (d', some _) = (d' ≡ d) ⊎ (content_of d' ≡ to_bytes s)

module _ (to_bytes : State → Option Bytes) (a : Attempt) (s : State) (d : Disk) where
  pub save-Saved : Saved to_bytes s d (atomic_write_json to_bytes a.world s state_file_mode d)
  unfolding atomic_write_json
  save-Saved = go (to_bytes s) refl
    where
      io-Saved :
          (bytes : Bytes) (r : Disk × Option Call)
          → to_bytes s ≡ some bytes
          → Written bytes d r
          → Saved to_bytes s d (io_result r)
      io-Saved bytes (d', none) e h = h ∙ sym e
      io-Saved bytes (d', some c) e (inl same) = inl same
      io-Saved bytes (d', some c) e (inr new) = inr (new ∙ sym e)

      go :
          (o : Option Bytes)
          → to_bytes s ≡ o
          → Saved to_bytes s d (elim o [
            | none ↦ (d, some serialize)
            | some bytes ↦ io_result (atomic_write a.world bytes state_file_mode d)
          ])
      go none e = inl refl
      go (some bytes) e = io-Saved bytes _ e (atomic_write-Written a.world bytes state_file_mode d)

module _ {ObjectId : Type 0} (to_hex : ObjectId → String) (to_bytes : State → Option Bytes)
    (initial : State) (disk : Disk) where
  -- `s` is the initial state after some first part of the updates.
  abbrev pub IsPrefixState : List (StateUpdate ObjectId) → State → Type 0
  IsPrefixState us s =
      (pre : List (StateUpdate ObjectId)) × (post : List (StateUpdate ObjectId)) × (us
        ≡ pre ++ post)
      × (s ≡ apply_all to_hex initial pre)

  -- What the writer keeps true, after the updates `us`.
  pub record Keeps (us : List (StateUpdate ObjectId)) (t : Writer) : Type 0 where
    pub state_is : t.state ≡ apply_all to_hex initial us
    pub mirror_is : IsPrefixState us t.mirror
    pub disk_is :
        (t.disk ≡ disk) ⊎ ((s : State) × IsPrefixState us s × (content_of t.disk ≡ to_bytes s))
    pub clean_is : t.dirty ≡ false → (us ≡ []) ⊎ (content_of t.disk ≡ to_bytes t.state)

  IsPrefixState-append :
      (us vs : List (StateUpdate ObjectId)) (s : State)
      → IsPrefixState us s
      → IsPrefixState (us ++ vs) s
  IsPrefixState-append us vs s (pre, post, e, h) =
      (pre, post ++ vs, ap (λ l. l ++ vs) e ∙ append_assoc pre post vs, h)

  IsPrefixState-whole :
      (us : List (StateUpdate ObjectId)) (s : State)
      → s ≡ apply_all to_hex initial us
      → IsPrefixState us s
  IsPrefixState-whole us s h = (us, [], sym (append-nil us), h)

  refresh-Keeps :
      (us : List (StateUpdate ObjectId)) (a : Attempt) (t : Writer)
      → Keeps us t
      → Keeps us (refresh to_hex to_bytes a t)
  refresh-Keeps us a t k =
      if_ind (Keeps us) a.poisoned (λ _. k)
        λ _. record {
          state_is = k.state_is;
          mirror_is = IsPrefixState-whole us t.state k.state_is;
          disk_is = k.disk_is;
          clean_is = k.clean_is;
        }

  -- A write changes the disk and the flag.
  module _ (us : List (StateUpdate ObjectId)) (t : Writer) (k : Keeps us t) where
    saved-disk_is :
        (d' : Disk)
        → content_of d' ≡ to_bytes t.state
        → (d' ≡ disk) ⊎ ((s : State) × IsPrefixState us s × (content_of d' ≡ to_bytes s))
    saved-disk_is d' h = inr (t.state, IsPrefixState-whole us t.state k.state_is, h)

    failed-Keeps :
        (d' : Disk)
        → (d' ≡ t.disk) ⊎ (content_of d' ≡ to_bytes t.state)
        → Keeps us (record t { disk = d' })
    failed-Keeps d' (inl same) = record {
      state_is = k.state_is;
      mirror_is = k.mirror_is;
      disk_is = rw same k.disk_is;
      clean_is = rw same k.clean_is;
    }
    failed-Keeps d' (inr new) = record {
      state_is = k.state_is;
      mirror_is = k.mirror_is;
      disk_is = saved-disk_is d' new;
      clean_is = λ _. inr new;
    }

    saved-Keeps :
        (d' : Disk) (b : Bool)
        → content_of d' ≡ to_bytes t.state
        → Keeps us (record t { disk = d'; dirty = b })
    saved-Keeps d' b new = record {
      state_is = k.state_is;
      mirror_is = k.mirror_is;
      disk_is = saved-disk_is d' new;
      clean_is = λ _. inr new;
    }

    after_write-Keeps :
        (a : Attempt) (r : Disk × Option WriteError)
        → Saved to_bytes t.state t.disk r
        → Keeps us (after_write to_hex to_bytes a t r)
    after_write-Keeps a (d', none) h = refresh-Keeps us a _ (saved-Keeps d' false h)
    after_write-Keeps a (d', some _) h = failed-Keeps d' h

    after_final-Keeps :
        (a : Attempt) (r : Disk × Option WriteError)
        → Saved to_bytes t.state t.disk r
        → Keeps us (after_final to_hex to_bytes a t r)
    after_final-Keeps a (d', none) h = refresh-Keeps us a _ (saved-Keeps d' t.dirty h)
    after_final-Keeps a (d', some _) h = failed-Keeps d' h

    final_write-Keeps : (a : Attempt) → Keeps us (final_write to_hex to_bytes a t)
    unfolding final_write
    final_write-Keeps a =
        if_ind (Keeps us) t.dirty
          (λ _. after_final-Keeps a _ (save-Saved to_bytes a t.state t.disk)) (λ _. k)

  write_batch-Keeps :
      (us : List (StateUpdate ObjectId)) (t : Writer) (b : Batch to_hex to_bytes)
      → Keeps us t
      → Keeps (us ++ b.0) (write_batch to_hex to_bytes t b)
  unfolding write_batch
  write_batch-Keeps us t (vs, a) k =
      after_write-Keeps (us ++ vs) applied keeps a _ (save-Saved to_bytes a applied.state t.disk)
    where
      applied : Writer
      applied = record t { state = apply_all to_hex t.state vs; dirty = true }

      disk_is :
          (t.disk ≡ disk) ⊎ ((s : State) × IsPrefixState us s × (content_of t.disk ≡ to_bytes s))
          → (t.disk ≡ disk)
            ⊎ ((s : State) × IsPrefixState (us ++ vs) s × (content_of t.disk ≡ to_bytes s))
      disk_is (inl e) = inl e
      disk_is (inr (s, p, e)) = inr (s, IsPrefixState-append us vs s p, e)

      keeps : Keeps (us ++ vs) applied
      keeps = record {
        state_is =
            ap (λ s. apply_all to_hex s vs) k.state_is
            ∙ sym (apply_all-append to_hex initial us vs);
        mirror_is = IsPrefixState-append us vs t.mirror k.mirror_is;
        disk_is = disk_is k.disk_is;
        clean_is = λ e. cc;
      }

  pub write_loop-Keeps :
      (us : List (StateUpdate ObjectId)) (t : Writer) (bs : List (Batch to_hex to_bytes))
      → Keeps us t
      → Keeps (us ++ updates_of to_hex to_bytes bs) (write_loop to_hex to_bytes t bs)
  unfolding write_loop updates_of
  write_loop-Keeps us t [] k = subst (λ l. Keeps l t) (sym (append-nil us)) k
  write_loop-Keeps us t (b ∷ bs) k =
      subst (λ l. Keeps l (write_loop to_hex to_bytes (write_batch to_hex to_bytes t b) bs))
        (append_assoc us b.0 (updates_of to_hex to_bytes bs))
        (write_loop-Keeps (us ++ b.0) (write_batch to_hex to_bytes t b) bs
          (write_batch-Keeps us t b k))

  pub start-Keeps :
      Keeps [] (record { state = initial; disk = disk; mirror = initial; dirty = false })
  unfolding apply_all
  start-Keeps = record {
    state_is = refl;
    mirror_is = ([], [], refl, refl);
    disk_is = inl refl;
    clean_is = λ _. inl refl;
  }

  -- Whichever writes fail, and however the updates are cut into batches, the thread ends with the
  -- state after all updates; the mirror is the state after some first part of them; the disk is
  -- as it was or holds the bytes of such a state; and where the thread ends clean, with any
  -- update seen, it holds those of the last one.
  pub run_mirrored-Keeps :
      (batches : List (Batch to_hex to_bytes)) (last : Attempt)
      → Keeps
          (updates_of to_hex to_bytes batches)
          (run_mirrored to_hex to_bytes initial disk batches last)
  unfolding run_mirrored
  run_mirrored-Keeps batches last =
      final_write-Keeps _ _ (write_loop-Keeps [] _ batches start-Keeps) last
