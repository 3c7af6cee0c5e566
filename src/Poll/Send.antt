-- ===== src/Poll/Send.antt =====
-- src/flow/poll/send.rs: the trigger and the observation that goes with it. And the task's state,
-- with what it has sent.
use gcit.Base.{String, Bool, true, false, Option, none, some, List, [], ◌∷◌, ◌++◌, if◌then◌else◌}
use gcit.Base.Dict.{Dict}
use gcit.LastError.{FlowLastError}
use gcit.State.Types.{DateTime, StateUpdate}

-- What the select on the trigger channel does: the token is cancelled, the signal is taken, or the
-- dispatcher has gone.
pub data TriggerSend : Type 0 where
  cancel_fired delivered receiver_dropped : TriggerSend

pub data SendOutcome : Type 0 where
  sent cancelled trigger_channel_closed state_channel_closed : SendOutcome

abbrev pub is_sent : SendOutcome → Bool
is_sent sent = true
is_sent _ = false

-- What the task has sent, in order.
pub data Message (ObjectId : Type 0) : Type 0 where
  trigger : (observed_sha : ObjectId) (observed_at : DateTime) → Message ObjectId
  update : StateUpdate ObjectId → Message ObjectId

-- The task's variables, the map of last errors, and what it has sent.
pub record Poller (ObjectId : Type 0) : Type 0 where
  pub last_sha : Option ObjectId
  pub last_dispatched_at : Option DateTime
  pub last_error_cleared : Bool
  pub fingerprint : Option String
  pub last_errors : Dict FlowLastError
  pub log : List (Message ObjectId)

module _ {ObjectId : Type 0} where
  abbrev pub emit : Message ObjectId → Poller ObjectId → Poller ObjectId
  emit m t = record t { log = t.log ++ (m ∷ []) }

  -- `state_tx.send`
  unfoldable pub send_state : Bool → StateUpdate ObjectId → Poller ObjectId → Poller ObjectId × Bool
  send_state alive u t = if alive then (emit (update u) t, true) else (t, false)

  unfoldable pub send_observation :
      Bool → StateUpdate ObjectId → Poller ObjectId → Poller ObjectId × SendOutcome
  send_observation alive u t =
      if alive then (emit (update u) t, sent) else (t, state_channel_closed)

  -- The signal goes first, and only if it was taken the observation.
  unfoldable pub send_trigger_then_observation :
      Option (ObjectId × DateTime)
      → StateUpdate ObjectId
      → TriggerSend
      → Bool
      → Poller ObjectId
      → Poller ObjectId × SendOutcome
  unfolding send_observation
  send_trigger_then_observation none u trigger_send alive t = send_observation alive u t
  send_trigger_then_observation (some (sha, at)) u cancel_fired alive t = (t, SendOutcome.cancelled)
  send_trigger_then_observation (some (sha, at)) u receiver_dropped alive t =
      (t, trigger_channel_closed)
  send_trigger_then_observation (some (sha, at)) u delivered alive t =
      send_observation alive u (emit (trigger sha at) t)
