-- ===== src/Node/Start.antt =====
-- From power-on to the loop: what the connection and the two commands leave.
use mathlib.Core.Option
use mathlib.Core.List.{map}
use data_stream_pilot.Shared.{
  ℕ, zero, suc, ◌+◌, ◌*◌, ◌≤◌, ◌<◌, ◌≡◌, refl, ap, inl, ◌∙◌, [], ◌∷◌, some, arith, get_or,
  length-replicate, ◌==◌, if◌then◌else◌, replicate,
}
use data_stream_pilot.Shared.Text.{codes}
use data_stream_pilot.Cli.{initial}
use data_stream_pilot.Delta
use data_stream_pilot.Mqtt.{
  Mqtt, num_of_subs, topic_maxlen, empty_table, zero_subscription, cmd_sub_1, cmd_unsub,
  unsubscribe_from_topics, subscribe_to_topics,
}
use data_stream_pilot.Mqtt.Connect.{Link, Accepts, connect_returns}
use data_stream_pilot.Mqtt.Table.{
  IsValid, IsTable, free, stale, live, slot_of, sub_to, unsub_from, execute, execute_all,
  specify_all, Slot, put, is_full, position, specify,
}
use data_stream_pilot.Mqtt.Table.Refine.{view, IsTopic, execute_all-refines}
use data_stream_pilot.Node.{Node, Build, start, connected}

get_or-replicate : (n i : ℕ) → ◌≡◌ {A = ℕ} (get_or (replicate n 0) i 0) 0
get_or-replicate zero i = refl
get_or-replicate (suc n) zero = refl
get_or-replicate (suc n) (suc i) = get_or-replicate n i

zero_entries : (n i : ℕ) → IsTable i (replicate n zero_subscription)
zero_entries zero i = tt
zero_entries (suc n) i = (inl (refl, refl), zero_entries n (i + 1))

module _ {W : Type 0} (w : W) where
  abbrev pub table : Mqtt W
  table = record {
    subscriptions = empty_table;
    topics = replicate (topic_maxlen * num_of_subs) 0;
    world = w;
  }

  pub table-IsValid : IsValid table
  table-IsValid = record {
    sixteen = refl;
    sized = length-replicate {A = ℕ} (topic_maxlen * num_of_subs) 0;
    entries = zero_entries num_of_subs 0;
    terminated = λ i h. get_or-replicate (topic_maxlen * num_of_subs) (topic_maxlen * i + 63);
  }

  table-view : view table ≡ (replicate 16 free, w)
  unfolding slot_of
  table-view = refl

pub d-IsTopic : IsTopic (codes "d")
d-IsTopic = ((ground arith, tt), omega arith)

module _ {P R W : Type 0} (b : Build P R W) where
  open b use {emcute, con, rn, broker_ip}

  -- what the broker's answer to the subscription leaves: the slot and the network
  abbrev pub answered : W → Slot × W
  answered w =
      let (ret, id, w') = emcute.sub (codes "d") emcute.qos_0 w in
      (if id == 0 then stale (codes "d") else live (codes "d"), w')

  specified :
      (w : W)
      → specify_all emcute (unsub_from (codes "d") ∷ sub_to (codes "d") ∷ []) (replicate 16 free, w)
        ≡ ((answered w).0 ∷ replicate 15 free, (answered w).1)
  unfolding specify_all specify position is_full put
  specified w = refl

  pub connected-slots :
      (l : Link R W)
      → let n = connected b l in
        (map (slot_of n.topics) n.subscriptions ≡ (answered l.world).0 ∷ replicate 15 free)
        × (n.cli ≡ initial (answered l.world).1)
  unfolding execute_all execute unsubscribe_from_topics subscribe_to_topics cmd_sub_1 cmd_unsub
  connected-slots l =
      let t = table l.world in
      let (valid, same) =
        execute_all-refines emcute (unsub_from (codes "d") ∷ sub_to (codes "d") ∷ []) t
          (table-IsValid l.world) (d-IsTopic, (d-IsTopic, tt)) in
      let all : view (subscribe_to_topics emcute (unsubscribe_from_topics emcute t))
          ≡ ((answered l.world).0 ∷ replicate 15 free, (answered l.world).1) =
        same ∙ ap (specify_all emcute _) (table-view l.world) ∙ specified l.world in
      (ap (λ v. v.0) all, ap (λ v. initial v.1) all)

  -- Where the broker accepts the connection after `k` refusals, main reaches its loop. In the
  -- table of subscriptions one slot is taken, the first, by the topic "d": live if the broker gave
  -- it an id, else stale. No request is made or retained yet, the encoder is in its initial state,
  -- and main has slept 16 seconds, and 10 to 15 seconds for each refusal.
  pub start_lem :
      (k : ℕ) (r : R) (w : W)
      → 0 < rn.rand_max
      → ((r' : R) → (rn.rand r').0 ≤ rn.rand_max)
      → Accepts rn con broker_ip k w
      → (n : Node R W) × (w' : W) × (start b (suc k) r w ≡ some n)
        × (map (slot_of n.topics) n.subscriptions ≡ (answered w').0 ∷ replicate 15 free)
        × (n.cli ≡ initial (answered w').1)
        × (n.encoder ≡ Delta.initial)
        × (16_000 + 10_000 * k ≤ n.slept)
        × (n.slept ≤ 16_000 + 15_000 * k)
  unfolding start
  start_lem k r w p h a =
      let (l, same, low, high) =
        connect_returns rn con broker_ip k (record { world = w; random = r; slept = 4000 }) p h a in
      let (slots, cli) = connected-slots l in
      (
        connected b l,
        l.world,
        ap (Option.map (connected b)) same,
        slots,
        cli,
        refl,
        omega arith,
        omega arith,
      )
