-- ===== src/Mqtt/Table.antt =====
-- The subscription table seen from outside: sixteen slots.
pub mod Slots
pub mod Search
pub mod Refine
use mathlib.Core.List.{map}
use data_stream_pilot.Shared.{
  ℕ, zero, suc, ◌+◌, ◌*◌, ◌≤◌, ◌<◌, ◌≡◌, ◌⊎◌, Bool, true, false, List, [], ◌∷◌, Option, none, some,
  ◌==◌, if◌then◌else◌, length, get_or, set,
}
use data_stream_pilot.Shared.Text.{Text, codes, str_eq}
use data_stream_pilot.Shared.Int.{eqb_ℤ}
use data_stream_pilot.Mqtt.{
  Subscription, Emcute, Mqtt, num_of_subs, topic_maxlen, topic_name, cmd_sub_1, cmd_unsub,
}

-- A slot is free, or holds a topic that the broker has given an id (`live`) or has not (`stale`):
-- cmd_sub_1 leaves the topic of a subscription that failed in its entry.
pub data Slot : Type 0 where
  free : Slot
  stale live : Text → Slot

unfoldable pub slot_of : List ℕ → Subscription → Slot
slot_of topics s = elim s.name [
  | none ↦ free
  | some row ↦ let name = topic_name topics row in if s.id == 0 then stale name else live name
]

abbrev pub slots : {W : Type 0} → Mqtt W → List Slot
slots m = map (slot_of m.topics) m.subscriptions

-- The entries from index `i` on: one that has no name has no id, and one that has shows to its row.
abbrev pub IsTable : ℕ → List Subscription → Type 0
IsTable i [] = Unit
IsTable i (s ∷ subs) = (((s.name ≡ none) × (s.id ≡ 0)) ⊎ (s.name ≡ some i)) × IsTable (i + 1) subs

-- Each row has a NUL as its last byte.
abbrev pub IsTerminated : List ℕ → Type 0
IsTerminated topics = (i : ℕ) → i < num_of_subs → get_or topics (topic_maxlen * i + 63) 0 ≡ 0

pub record IsValid {W : Type 0} (m : Mqtt W) : Type 0 where
  pub sixteen : length m.subscriptions ≡ num_of_subs
  pub sized : length m.topics ≡ topic_maxlen * num_of_subs
  pub entries : IsTable 0 m.subscriptions
  pub terminated : IsTerminated m.topics

-- The specification: a new topic takes the first slot that is not live, if there is one, and a
-- topic leaves the first slot that has it.
unfoldable pub put : Slot → List Slot → List Slot
put new [] = []
put new (live t ∷ r) = live t ∷ put new r
put new (free ∷ r) = new ∷ r
put new (stale t ∷ r) = new ∷ r

unfoldable pub is_full : List Slot → Bool
is_full [] = true
is_full (live t ∷ r) = is_full r
is_full (free ∷ r) = false
is_full (stale t ∷ r) = false

-- the position of the first slot with a topic
unfoldable pub position : Text → List Slot → ℕ → Option ℕ
position topic [] i = none
position topic (free ∷ r) i = position topic r (i + 1)
position topic (stale t ∷ r) i = if str_eq t topic then some i else position topic r (i + 1)
position topic (live t ∷ r) i = if str_eq t topic then some i else position topic r (i + 1)

-- a command on the table
pub data Command : Type 0 where
  sub_to unsub_from : Text → Command

abbrev pub command_topic : Command → Text
command_topic (sub_to topic) = topic
command_topic (unsub_from topic) = topic

module _ {W : Type 0} (em : Emcute W) where
  -- the code
  unfoldable pub execute : Command → Mqtt W → Mqtt W
  execute (sub_to topic) m = (cmd_sub_1 em (codes "sub" ∷ topic ∷ []) m).1
  execute (unsub_from topic) m = (cmd_unsub em (codes "unsub" ∷ topic ∷ []) m).1

  -- the specification, with the answers of the broker
  unfoldable pub specify : Command → List Slot × W → List Slot × W
  specify (sub_to topic) (l, w) =
      if is_full l
      then (l, w)
      else (let (ret, id, w') = em.sub topic em.qos_0 w in
          (put (if id == 0 then stale topic else live topic) l, w'))
  specify (unsub_from topic) (l, w) = elim (position topic l 0) [
    | none ↦ (l, w)
    | some i ↦ let (ret, w') = em.unsub i w in (if eqb_ℤ ret em.ok then set l i free else l, w')
  ]

  unfoldable pub execute_all : List Command → Mqtt W → Mqtt W
  unfolding execute
  execute_all [] m = m
  execute_all (c ∷ cs) m = execute_all cs (execute c m)

  unfoldable pub specify_all : List Command → List Slot × W → List Slot × W
  unfolding specify
  specify_all [] s = s
  specify_all (c ∷ cs) s = specify_all cs (specify c s)
