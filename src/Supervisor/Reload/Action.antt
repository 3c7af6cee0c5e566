-- ===== src/Supervisor/Reload/Action.antt =====
-- src/flow/supervisor/reload/action.rs and diff.rs: what a reload means to do with each flow. The
-- JSON of serde_json, the sorting of a vector and the order of the names are parameters or left out.
use mathlib.Core.Option
use gcit.Base.{
  String, Bool, true, false, Option, none, some, List, [], ◌∷◌, not, str_eq, if◌then◌else◌,
}
use gcit.Base.Dict.{Dict, lookup, insert, contains_key}
use gcit.Supervisor.Types.{FlowHandle, FlowConfig}

-- What `serde_json` and `sort` give: the JSON of a flow's source, action and poll overrides, that
-- of a destination with its `fire_on` sorted, and the order of texts.
pub record Serde (Rest Destination : Type 0) : Type 0 where
  pub flow_diff : String → Rest → Option String
  pub destination_json : Destination → Option String
  pub sort : List String → List String

pub data ReloadAction : Type 0 where
  keep : (name : String) → ReloadAction
  remove : (name : String) (live_handle : Bool) → ReloadAction
  disable restart : (name : String) (url_changed : Bool) → ReloadAction
  spawn : (name : String) → ReloadAction

unfoldable pub same_texts : List String → List String → Bool
same_texts [] [] = true
same_texts [] (_ ∷ _) = false
same_texts (_ ∷ _) [] = false
same_texts (s ∷ ss) (t ∷ ts) = if str_eq s t then same_texts ss ts else false

abbrev pub bool_eq : Bool → Bool → Bool
bool_eq true b = b
bool_eq false b = not b

abbrev pub both_agree {ℓ} : {A : Type ℓ} → (A → A → Bool) → Option A → Option A → Bool
both_agree same (some a) (some b) = same a b
both_agree same (some a) none = false
both_agree same none _ = false

-- `?` on the text, then on the others.
abbrev pub both_there : Option String → Option (List String) → Option (List String)
both_there none _ = none
both_there (some _) none = none
both_there (some text) (some texts) = some (text ∷ texts)

module _ {Rest Destination : Type 0} (serde : Serde Rest Destination) where
  -- The texts of the destinations, before they are sorted.
  unfoldable pub canonical : List Destination → Option (List String)
  canonical [] = some []
  canonical (d ∷ ds) = both_there (serde.destination_json d) (canonical ds)

  unfoldable pub canonical_destination_multiset : List Destination → Option (List String)
  unfolding canonical
  canonical_destination_multiset ds = Option.map serde.sort (canonical ds)

  unfoldable pub flow_config_unchanged :
      FlowConfig Rest Destination → FlowConfig Rest Destination → Bool
  unfolding canonical_destination_multiset same_texts
  flow_config_unchanged old new =
      if bool_eq old.enabled new.enabled
      then if both_agree str_eq (serde.flow_diff old.url old.rest)
          (serde.flow_diff new.url new.rest)
        then both_agree same_texts (canonical_destination_multiset old.destination)
            (canonical_destination_multiset new.destination)
        else false
      else false

  abbrev pub url_changed : FlowConfig Rest Destination → FlowConfig Rest Destination → Bool
  url_changed old new = not (str_eq old.url new.url)

  -- The action for one name: the new configuration, the old one, and whether it has a handle. A
  -- name with none of the three has no action.
  unfoldable pub action_for :
      String
      → Option (FlowConfig Rest Destination)
      → Option (FlowConfig Rest Destination)
      → Bool
      → Option ReloadAction
  unfolding flow_config_unchanged
  action_for name none (some old) live = some (remove name live)
  action_for name none none true = some (remove name true)
  action_for name none none false = none
  action_for name (some new) (some old) true =
      if new.enabled
      then if flow_config_unchanged old new
        then some (keep name)
        else some (restart name (url_changed old new))
      else some (disable name (url_changed old new))
  action_for name (some new) none true =
      if new.enabled then some (restart name false) else some (disable name false)
  action_for name (some new) old false = if new.enabled then some (spawn name) else none

-- `flow.iter().map(|f| (f.name, f)).collect()`: the last of two flows with one name stays.
unfoldable pub by_name :
    {Rest Destination : Type 0}
    → List (FlowConfig Rest Destination)
    → Dict (FlowConfig Rest Destination)
    → Dict (FlowConfig Rest Destination)
by_name [] m = m
by_name (f ∷ fs) m = by_name fs (insert f.name f m)

-- `names.extend(keys)`
unfoldable pub extend {ℓ} : {V : Type ℓ} → Dict V → Dict (Unit {0}) → Dict (Unit {0})
extend [] names = names
extend (e ∷ m) names = extend m (insert e.key tt names)

abbrev pub push_action : Option ReloadAction → List ReloadAction → List ReloadAction
push_action none actions = actions
push_action (some a) actions = a ∷ actions

module _ {Rest Destination : Type 0} (serde : Serde Rest Destination)
    (old_flows new_flows : Dict (FlowConfig Rest Destination))
    (live_handles : Dict FlowHandle) where
  unfoldable pub actions_of : Dict (Unit {0}) → List ReloadAction
  unfolding action_for
  actions_of [] = []
  actions_of (e ∷ names) =
      push_action
        (action_for serde e.key (lookup e.key new_flows) (lookup e.key old_flows)
          (contains_key e.key live_handles))
        (actions_of names)

  unfoldable pub compute_reload_actions : List ReloadAction
  unfolding actions_of extend
  compute_reload_actions = actions_of (extend live_handles (extend new_flows (extend old_flows [])))
