-- ===== src/Poll/Samples.antt =====
-- Rounds of a poll task, and the theorems of the loop at them.
use native.Mathlib.Decide.{ℕ_discrete}
use mathlib.Core.Option
use gcit.Base.{
  ℕ, String, true, false, Option, none, some, List, [], ◌∷◌, ◌++◌, ◌≡◌, refl, arith, if◌then◌else◌,
  ◌==◌,
}
use gcit.Base.Dict.{lookup, insert, remove}
use gcit.LastError.{record_last_error}
use gcit.State.Types.{DateTime, default_state}
use gcit.State.Apply.{apply_all}
use gcit.State.Latest.{field_of}
use gcit.Poll.Strategy.{Duration, PollStrategy, ls_remote, grokmirror}
use gcit.Poll.Executor.{
  PollOutcome, refreshed, unchanged, Reply, replied, error, fingerprint, Upstream, poll_one,
}
use gcit.Poll.Send.{delivered, trigger, update, Poller}
use gcit.Poll.Loop.{
  PollParams, Round, is_cooled_down, handle_refreshed, poll_round, run_with_executor,
  handle_unchanged, handle_unborn_ref, note_error,
}
use gcit.Poll.Loop.Messages.{IsSpaced, trigger_times, updates, IsAnnounced}
use gcit.Poll.Loop.Spacing.{
  run_with_executor-IsSpaced, run_with_executor-IsAnnounced, run_with_executor_coherent,
}
use gcit.Poll.Loop.Suppression.{
  armed, Reaches, handle_refreshed_again, run_with_executor_lost_to_error,
  run_with_executor_lost_to_cooldown,
}

abbrev hex : ℕ → String
hex sha = if sha == 10 then "0a" else "0b"

abbrev in_range : Duration → Option Duration
in_range d = some d

abbrev params : PollStrategy → PollParams
params strategy = record {
  flow_name = "kernel";
  url = "https://git.kernel.org/linux.git";
  ref_name = "refs/heads/master";
  strategy = strategy;
  cooldown = 300;
  has_rate_bucket = true;
}

abbrev upstream : Reply (PollOutcome ℕ) → Upstream ℕ
upstream reply = record {
  has_octo = true;
  github_url_error = none;
  github = replied unchanged;
  has_reqwest = true;
  has_base_url = true;
  repo_path_error = none;
  manifest = replied (fingerprint "f1");
  ls_remote_reply = reply;
}

abbrev round : DateTime → Reply (PollOutcome ℕ) → Round ℕ
round now reply = record {
  sleep_cancelled = false;
  rate_cancelled = false;
  upstream = upstream reply;
  now = now;
  trigger_send = delivered;
  writer_alive = true;
  error_at = now;
}

abbrev poller : Option ℕ → Option DateTime → Poller ℕ
poller sha dispatched = record {
  last_sha = sha;
  last_dispatched_at = dispatched;
  last_error_cleared = false;
  fingerprint = none;
  last_errors = [];
  log = [];
}

-- A baseline, a change, a change within the cooldown, and the same sha after it.
abbrev rounds : List (Round ℕ)
rounds =
    round 1000 (replied (refreshed 10))
    ∷ round 1060 (replied (refreshed 11))
    ∷ round 1120 (replied (refreshed 12))
    ∷ round 1400 (replied (refreshed 12))
    ∷ []

program : Unit {0}
unfolding run_with_executor poll_round handle_refreshed handle_unchanged handle_unborn_ref
    note_error poll_one ℕ_discrete insert remove lookup record_last_error
program = tt

rounds_dispatch :
    trigger_times
      (run_with_executor ℕ_discrete in_range (params ls_remote) rounds (poller none none)).0.log
    ≡ 1060 ∷ 1400 ∷ []
unfolding program
rounds_dispatch = refl

run_with_executor-IsSpaced_example : IsSpaced 300 none (
    trigger_times
      (run_with_executor ℕ_discrete in_range (params ls_remote) rounds (poller none none)).0.log)
run_with_executor-IsSpaced_example =
    run_with_executor-IsSpaced ℕ_discrete in_range (params ls_remote) rounds (poller none none) refl

run_with_executor-IsAnnounced_example :
    IsAnnounced none
      (run_with_executor ℕ_discrete in_range (params ls_remote) rounds (poller none none)).0.log
run_with_executor-IsAnnounced_example =
    run_with_executor-IsAnnounced ℕ_discrete in_range (params ls_remote) rounds (poller none none)
      refl

run_with_executor_coherent_example :
    let out = run_with_executor ℕ_discrete in_range (params ls_remote) rounds (poller none none) in
    let s' = apply_all hex default_state (updates out.0.log) in
    (field_of (λ f. f.last_sha) (lookup "kernel" s'.flows) ≡ Option.map hex out.0.last_sha)
    × (field_of (λ f. f.last_dispatched_at) (lookup "kernel" s'.flows) ≡ out.0.last_dispatched_at)
unfolding program
run_with_executor_coherent_example =
    run_with_executor_coherent ℕ_discrete in_range (params ls_remote) rounds (poller none none) refl
      hex default_state refl refl refl

handle_refreshed_again_example :
    let t' =
      (handle_refreshed ℕ_discrete in_range
        (params ls_remote)
        (round 1120 (replied unchanged))
        12
        (poller (some 11) (some 1060))).0 in
    let t'' =
      (handle_refreshed ℕ_discrete in_range
        (params ls_remote)
        (round 1400 (replied unchanged))
        12
        t').0 in
    (t''.last_sha ≡ some 12)
    × (t''.last_dispatched_at ≡ some 1400)
    × (t''.log
        ≡ t'.log
          ++ (trigger 12 1400
              ∷ update (
                  armed ℕ_discrete in_range
                    (params ls_remote)
                    (round 1400 (replied unchanged))
                    12
                    11
                    t')
              ∷ []))
unfolding is_cooled_down
handle_refreshed_again_example =
    handle_refreshed_again ℕ_discrete in_range (params ls_remote) (round 1120 (replied unchanged))
      (round 1400 (replied unchanged)) 11 12 12 (poller (some 11) (some 1060)) refl (omega arith)
      refl refl (omega arith) refl refl refl

abbrev reaches :
    (now : DateTime) (reply : Reply (PollOutcome ℕ))
    → Reaches ℕ_discrete in_range (params grokmirror) "f1" (round now reply)
reaches now reply = record {
  awake = refl;
  admitted = refl;
  reqwest = refl;
  base = refl;
  path = refl;
  shows = refl;
}

run_with_executor_lost_to_error_example :
    trigger_times
      (run_with_executor ℕ_discrete in_range
        (params grokmirror)
        (round 1000 (error "connection reset") ∷ rounds)
        (poller (some 9) none)).0.log
    ≡ []
run_with_executor_lost_to_error_example =
    run_with_executor_lost_to_error ℕ_discrete in_range (params grokmirror) "f1"
      (round 1000 (error "connection reset")) rounds (poller (some 9) none) refl
      (reaches 1000 (error "connection reset")) refl (refl, (refl, (refl, (refl, tt))))
      "connection reset" refl

run_with_executor_lost_to_cooldown_example :
    trigger_times
      (run_with_executor ℕ_discrete in_range
        (params grokmirror)
        (round 1010 (replied (refreshed 10)) ∷ rounds)
        (poller (some 9) (some 1000))).0.log
    ≡ []
unfolding is_cooled_down
run_with_executor_lost_to_cooldown_example =
    run_with_executor_lost_to_cooldown ℕ_discrete in_range (params grokmirror) "f1"
      (round 1010 (replied (refreshed 10))) rounds (poller (some 9) (some 1000)) refl
      (reaches 1010 (replied (refreshed 10))) refl (refl, (refl, (refl, (refl, tt)))) 9 10 refl refl
      (omega arith) refl refl
