-- ===== src/State/Samples.antt =====
-- Small histories of the daemon's state, and its theorems at them.
use gcit.Base.{
  ℕ, String, true, false, Option, none, some, List, [], ◌∷◌, ◌≡◌, refl, ◌⊎◌, arith, if◌then◌else◌,
  ◌==◌, filter, length, any, extract,
}
use gcit.Base.Dict.{lookup, insert, remove, modify_or}
use gcit.Util.{Bytes, Disk}
use gcit.Util.Replace.{content_of}
use gcit.State.Types.{
  FlowState, State, default_state, default_flow, StateUpdate, poll_observation, poll_timestamp,
  run_started, run_finished,
}
use gcit.State.Apply.{observe, start_run, finish_run, conclude, cap_notified, apply, apply_all}
use gcit.State.PerFlow.Refinement.{lookup-apply, apply_all-filter}
use gcit.State.Latest.{latest, field_of, apply_all_last_writer}
use gcit.State.Runs.Invariant.{IsValid, IsValidEntry, apply_all-IsValid}
use gcit.State.Runs.Lifecycle.{opened, finish_run-start_run, finish_run_once}
use gcit.State.Runs.History.{capped_entry, keep_all, apply_all_keeps_last}
use gcit.State.Writer.{Attempt, Batch, run_mirrored, run}
use gcit.State.Writer.Durable.{Keeps, updates_of, run_mirrored-Keeps}
use gcit.State.Writer.Shutdown.{run_mirrored_flushes, run_mirrored-run}

-- Object ids are numbers here.
abbrev hex : ℕ → String
hex sha = if sha == 10 then "0a" else "0b"

abbrev history : List (StateUpdate ℕ)
history =
    poll_observation "kernel" 10 100 none none
    ∷ run_started "kernel" 7 110
    ∷ poll_timestamp "docs" 115
    ∷ poll_observation "kernel" 11 120 (some 120) (some 420)
    ∷ run_finished "kernel" 7 "success" 130
    ∷ []

abbrev finished : Option FlowState
finished = some (record {
  last_sha = some "0b";
  last_poll_at = some 120;
  last_dispatched_at = some 120;
  cooldown_until = some 420;
  active_runs = [];
  notified_runs =
      record { run_id = 7; started_at = 110; conclusion = some "success"; completed_at = some 130 }
      ∷ [];
})

program : Unit {0}
unfolding apply apply_all observe start_run finish_run cap_notified modify_or insert remove lookup
    any extract filter
program = tt

history_runs : lookup "kernel" (apply_all hex default_state history).flows ≡ finished
unfolding program
history_runs = refl

lookup-apply_example :
    lookup "docs" (apply hex default_state (poll_timestamp "docs" 115)).flows
    ≡ some (record default_flow { last_poll_at = some 115 })
unfolding lookup
lookup-apply_example = lookup-apply hex default_state (poll_timestamp "docs" 115) "docs"

apply_all-filter_example :
    lookup "docs" (apply_all hex default_state history).flows
    ≡ lookup "docs" (apply_all hex default_state (poll_timestamp "docs" 115 ∷ [])).flows
unfolding filter
apply_all-filter_example = apply_all-filter hex default_state history "docs"

apply_all_last_writer_example :
    let after = lookup "kernel" (apply_all hex default_state history).flows in
    (field_of (λ f. f.last_sha) after ≡ some "0b")
    × (field_of (λ f. f.last_poll_at) after ≡ some 120)
    × (field_of (λ f. f.last_dispatched_at) after ≡ some 120)
    × (field_of (λ f. f.cooldown_until) after ≡ some 420)
unfolding latest lookup
apply_all_last_writer_example = apply_all_last_writer hex default_state history "kernel"

apply_all-IsValid_example :
    IsValidEntry (lookup "kernel" (apply_all hex default_state history).flows)
unfolding lookup
apply_all-IsValid_example = apply_all-IsValid hex default_state history "kernel" tt

apply_all_keeps_last_example :
    lookup "kernel" (apply_all hex default_state history).flows
    ≡ capped_entry (keep_all hex "kernel" history none)
unfolding lookup
apply_all_keeps_last_example = apply_all_keeps_last hex default_state history "kernel" refl

abbrev busy : FlowState
busy = record default_flow { active_runs = opened 7 110 ∷ [] }

finish_run-start_run_example :
    finish_run 8 "failure" 140 (start_run 8 120 busy)
    ≡ record busy { notified_runs = cap_notified (conclude "failure" 140 (opened 8 120) ∷ []) }
unfolding any
finish_run-start_run_example = finish_run-start_run 8 120 140 "failure" busy refl

busy-IsValid : IsValid busy
unfolding any
busy-IsValid = record {
  distinct = (refl, tt);
  active_open = ((refl, refl), tt);
  notified_done = tt;
  capped = omega arith;
}

finish_run_once_example :
    finish_run 7 "failure" 150 (finish_run 7 "success" 140 busy) ≡ finish_run 7 "success" 140 busy
finish_run_once_example = finish_run_once 7 "success" "failure" 140 150 busy busy-IsValid

-- The number of flows stands for the serialized state.
abbrev serialize_count : State → Option Bytes
serialize_count s = some (length s.flows ∷ [])

abbrev healthy : Attempt
healthy = record {
  world = record { refuses = λ _. false; temp_mode = 0o600; renamed_mode = λ mode. mode };
  poisoned = false;
}

abbrev full_disk : Attempt
full_disk = record {
  world = record { refuses = λ _. true; temp_mode = 0o600; renamed_mode = λ mode. mode };
  poisoned = false;
}

abbrev empty_disk : Disk
empty_disk = record { dest = none; durable = true }

abbrev batches : List (Batch hex serialize_count)
batches = (history, full_disk) ∷ []

run_mirrored-Keeps_example :
    Keeps hex serialize_count default_state empty_disk
      (updates_of hex serialize_count batches)
      (run_mirrored hex serialize_count default_state empty_disk batches healthy)
run_mirrored-Keeps_example =
    run_mirrored-Keeps hex serialize_count default_state empty_disk batches healthy

abbrev two_flows : Bytes
two_flows = 2 ∷ []

run_mirrored_flushes_example :
    (updates_of hex serialize_count batches ≡ [])
    ⊎ (content_of (run_mirrored hex serialize_count default_state empty_disk batches healthy).disk
        ≡ some two_flows)
unfolding program updates_of
run_mirrored_flushes_example =
    run_mirrored_flushes hex serialize_count default_state empty_disk batches healthy two_flows refl
      (λ _. refl)

run_mirrored-run_example :
    let t = run_mirrored hex serialize_count default_state empty_disk batches healthy in
    (t.state, t.disk) ≡ run hex serialize_count default_state empty_disk batches healthy
run_mirrored-run_example =
    run_mirrored-run hex serialize_count default_state empty_disk batches healthy
