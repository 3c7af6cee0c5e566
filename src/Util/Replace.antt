-- ===== src/Util/Replace.antt =====
-- What `atomic_write` leaves at its destination.
use gcit.Base.{
  ℕ, Bool, true, false, Option, none, some, ◌≡◌, ◌≢◌, if_ind, ◌⊎◌, inl, inr, refl, ap, ◌∙◌, ◌||◌,
  ◌==◌, arith,
}
use mathlib.Core.Option
use gcit.Util.{
  Bytes, File, Disk, Call, create_temp, write_temp, chmod_temp, sync_temp, rename, chmod_dest,
  open_parent, sync_parent, World, atomic_write,
}

-- The calls up to the rename.
abbrev pub is_early : Call → Bool
is_early create_temp = true
is_early write_temp = true
is_early chmod_temp = true
is_early sync_temp = true
is_early rename = true
is_early _ = false

-- The destination holds the whole contents, and they have reached the disk.
abbrev pub Holds : Bytes → Disk → Type 0
Holds contents d =
    (f : File) × (d.dest ≡ some f) × (f.content ≡ contents) × (f.content_synced ≡ true)

-- What `atomic_write` guarantees, by its result.
abbrev pub Outcome : World → Bytes → ℕ → Disk → Disk × Option Call → Type 0
Outcome w contents mode d (d', none) =
    (d'.dest
      ≡ some (record {
        content = contents;
        mode = mode;
        content_synced = true;
        mode_synced = w.renamed_mode mode == mode;
      }))
    × (d'.durable ≡ true)
    × ((c : Call) → w.refuses c ≡ false)
Outcome w contents mode d (d', some c) =
    (w.refuses c ≡ true)
    × ((is_early c ≡ true) × (d' ≡ d) ⊎ (is_early c ≡ false) × Holds contents d')

module _ (w : World) (contents : Bytes) (mode : ℕ) (d : Disk) where
  -- What `atomic_write` guarantees, whichever calls the file system refuses. Where it succeeds no
  -- call was refused, and the destination holds the contents, which are on the disk, and has the
  -- mode, which is on the disk where the rename had kept it. Where it fails the reported call was
  -- refused: up to the rename the disk is as it was, and after it the destination holds the new
  -- contents, whole and on the disk.
  pub atomic_write_lem : Outcome w contents mode d (atomic_write w contents mode d)
  unfolding atomic_write
  atomic_write_lem =
      if_ind (Outcome w contents mode d) (w.refuses create_temp) (λ e. (e, inl (refl, refl)))
        λ e1.
          if_ind (Outcome w contents mode d) (w.refuses write_temp) (λ e. (e, inl (refl, refl)))
            λ e2.
              if_ind (Outcome w contents mode d) (w.refuses chmod_temp) (λ e. (e, inl (refl, refl)))
                λ e3.
                  if_ind (Outcome w contents mode d) (w.refuses sync_temp)
                    (λ e. (e, inl (refl, refl)))
                    λ e4.
                      if_ind (Outcome w contents mode d) (w.refuses rename)
                        (λ e. (e, inl (refl, refl)))
                        λ e5.
                          if_ind (Outcome w contents mode d) (w.refuses chmod_dest)
                            (λ e. (e, inr (refl, (_, refl, refl, refl))))
                            λ e6.
                              if_ind (Outcome w contents mode d) (w.refuses open_parent)
                                (λ e. (e, inr (refl, (_, refl, refl, refl))))
                                λ e7.
                                  if_ind (Outcome w contents mode d) (w.refuses sync_parent)
                                    (λ e. (e, inr (refl, (_, refl, refl, refl))))
                                    λ e8. (
                                      refl,
                                      refl,
                                      (elim [
                                        | create_temp ↦ e1
                                        | write_temp ↦ e2
                                        | chmod_temp ↦ e3
                                        | sync_temp ↦ e4
                                        | rename ↦ e5
                                        | chmod_dest ↦ e6
                                        | open_parent ↦ e7
                                        | sync_parent ↦ e8
                                      ]),
                                    )

  -- Where the calls up to the rename are not refused and one after it is, `atomic_write` fails,
  -- and the destination holds the new contents.
  pub atomic_write_fails_replaced :
      ((c : Call) → is_early c ≡ true → w.refuses c ≡ false)
      → (w.refuses chmod_dest || w.refuses open_parent || w.refuses sync_parent) ≡ true
      → ((atomic_write w contents mode d).1 ≢ none)
        × Holds contents (atomic_write w contents mode d).0
  atomic_write_fails_replaced early late = go _ atomic_write_lem
    where
      go :
          (r : Disk × Option Call) → Outcome w contents mode d r → (r.1 ≢ none) × Holds contents r.0
      go (d', none) (_, _, passed) =
          absurd (ground (arith, passed chmod_dest, passed open_parent, passed sync_parent))
      go (d', some c) (refused, inl (before, _)) = absurd (ground (arith, early c before))
      go (d', some c) (refused, inr (_, holds)) = ((λ e. cc), holds)

abbrev pub content_of : Disk → Option Bytes
content_of d = Option.map (λ (f : File). f.content) d.dest

abbrev pub Written : Bytes → Disk → Disk × Option Call → Type 0
Written contents d (d', none) = content_of d' ≡ some contents
Written contents d (d', some _) = (d' ≡ d) ⊎ (content_of d' ≡ some contents)

pub atomic_write-Written :
    (w : World) (contents : Bytes) (mode : ℕ) (d : Disk)
    → Written contents d (atomic_write w contents mode d)
atomic_write-Written w contents mode d = go _ (atomic_write_lem w contents mode d)
  where
    go : (r : Disk × Option Call) → Outcome w contents mode d r → Written contents d r
    go (d', none) h = ap (Option.map (λ (f : File). f.content)) h.0
    go (d', some c) h = elim h.1 [
      | inl (_, same) ↦ inl same
      | inr (_, (f, at, whole, _)) ↦
          inr (ap (Option.map (λ (f : File). f.content)) at ∙ ap some whole)
    ]

-- Where the file system refuses nothing, the write succeeds.
pub atomic_write-eq-none :
    (w : World) (contents : Bytes) (mode : ℕ) (d : Disk)
    → ((c : Call) → w.refuses c ≡ false)
    → (atomic_write w contents mode d).1 ≡ none
unfolding atomic_write
atomic_write-eq-none w contents mode d free = ground (
  arith,
  free create_temp,
  free write_temp,
  free chmod_temp,
  free sync_temp,
  free rename,
  free chmod_dest,
  free open_parent,
  free sync_parent,
)
