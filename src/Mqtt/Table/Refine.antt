-- ===== src/Mqtt/Table/Refine.antt =====
-- The table does what the slots say.
use data_stream_pilot.Shared.{
  ℕ, ◌<◌, ◌≡◌, ◌≢◌, refl, ap, ◌∙◌, inl, inr, Bool-cases, true, false, List, [], ◌∷◌, Option, none,
  some, ◌==◌, arith, length, set, if◌then◌else◌, All, length-set, map-set,
}
use data_stream_pilot.Shared.Int.{eqb_ℤ}
use data_stream_pilot.Shared.Text.{Text}
use data_stream_pilot.Mqtt.{
  Subscription, Emcute, Mqtt, num_of_subs, topic_maxlen, zero_subscription, copy_topic, topic_name,
  find_empty, find_topic, subscribe, cmd_sub_1, unsubscribe, cmd_unsub,
}
use data_stream_pilot.Mqtt.Rows.{topic_name-copy_topic}
use data_stream_pilot.Mqtt.Table.{
  Slot, free, stale, live, slot_of, slots, IsValid, put, is_full, Command, sub_to, unsub_from,
  command_topic, execute, specify, execute_all, specify_all,
}
use data_stream_pilot.Mqtt.Table.Slots.{length-copy_topic, copy_topic-IsTerminated, topic_name-kept}
use data_stream_pilot.Mqtt.Table.Search.{
  find_empty-le, slots-put, is_full-find_empty, find_topic-position, IsTable-set,
}

abbrev pub view : {W : Type 0} → Mqtt W → List Slot × W
view m = (slots m, m.world)

-- a topic that fits its row
abbrev pub IsTopic : Text → Type 0
IsTopic topic = All (λ x. x ≢ 0) topic × (length topic < topic_maxlen)

module _ {W : Type 0} (em : Emcute W) where
  -- cmd_sub_1 of a topic that fits
  sub_cases :
      (topic : Text) (m : Mqtt W)
      → length topic < topic_maxlen
      → execute em (sub_to topic) m ≡ (
          let i = find_empty m.subscriptions 0 in
          if i == num_of_subs then m else (subscribe em i topic em.qos_0 m).1)
  unfolding execute cmd_sub_1
  sub_cases topic m h = ground arith

  module _ (topic : Text) (m : Mqtt W) (v : IsValid m) (t : IsTopic topic)
      (room : find_empty m.subscriptions 0 < num_of_subs) where
    abbrev place : ℕ
    place = find_empty m.subscriptions 0

    abbrev given : ℕ
    given = (em.sub topic em.qos_0 m.world).1

    abbrev taken : Mqtt W
    taken = (subscribe em place topic em.qos_0 m).1

    written : topic_name (copy_topic m.topics place topic) place ≡ topic
    written = topic_name-copy_topic m.topics place topic (omega (arith, v.sized)) t.0

    subscribe-IsValid : IsValid taken
    unfolding subscribe
    subscribe-IsValid = record {
      sixteen = length-set m.subscriptions place _ ∙ v.sixteen;
      sized = length-copy_topic m.topics place topic v.sized room t.1;
      entries = IsTable-set m.subscriptions 0 place _ v.entries (inr (ap some (omega arith)));
      terminated = copy_topic-IsTerminated m.topics place topic v.sized room t.1 v.terminated;
    }

    subscribe-view : view taken ≡ (
      put (if given == 0 then stale topic else live topic) (slots m),
      (em.sub topic em.qos_0 m.world).2,
    )
    unfolding subscribe slot_of
    subscribe-view =
        let topics' = copy_topic m.topics place topic in
        let entry : Subscription = record { id = given; name = some place; cb = true } in
        let shown : slot_of topics' entry ≡ (if given == 0 then stale topic else live topic) =
          rw written refl in
        let kept =
          slots-put m.topics topics' m.subscriptions 0 place entry v.entries (omega arith)
            (omega (arith, v.sixteen))
            (λ r other h h'.
              topic_name-kept m.topics place topic v.sized room t.1 v.terminated r
                (λ q. other (omega arith)) (omega (arith, v.sixteen))) in
        rw written (
          ap (λ l. (l, (em.sub topic em.qos_0 m.world).2)) (kept ∙ ap (λ x. put x (slots m)) shown))

  sub-refines :
      (topic : Text) (m : Mqtt W)
      → IsValid m
      → IsTopic topic
      → IsValid (execute em (sub_to topic) m)
        × (view (execute em (sub_to topic) m) ≡ specify em (sub_to topic) (view m))
  unfolding specify
  sub-refines topic m v t =
      let full = is_full-find_empty m.topics m.subscriptions 0 v.entries in
      let bound = find_empty-le m.subscriptions 0 in
      elim (Bool-cases (find_empty m.subscriptions 0 == num_of_subs)) [
        | inl e ↦
            let all_live : is_full (slots m) ≡ true = ground (arith, full, v.sixteen) in
            rw (sub_cases topic m t.1, e, all_live) (v, refl)
        | inr e ↦
            let some_left : is_full (slots m) ≡ false = ground (arith, full, v.sixteen) in
            let room : find_empty m.subscriptions 0 < num_of_subs = ground (arith, v.sixteen) in
            rw (sub_cases topic m t.1, e, some_left)
              (subscribe-IsValid topic m v t room, subscribe-view topic m v t room)
      ]

  unsub_found :
      (m : Mqtt W) (o : Option ℕ)
      → IsValid m
      → let after = elim o as (λ x. ℕ × Mqtt W) [ none ↦ (1, m) | some i ↦ unsubscribe em i m ] in
        IsValid after.1
        × (view after.1 ≡ (elim o as (λ x. List Slot × W) [
          | none ↦ view m
          | some i ↦
              let (ret, w') = em.unsub i m.world in
              (if eqb_ℤ ret em.ok then set (slots m) i free else slots m, w')
        ]))
  unfolding unsubscribe slot_of
  unsub_found m none v = (v, refl)
  unsub_found m (some i) v = elim (Bool-cases (eqb_ℤ (em.unsub i m.world).0 em.ok)) [
    | inl e ↦ rw e (
      record {
        sixteen = length-set m.subscriptions i zero_subscription ∙ v.sixteen;
        sized = v.sized;
        entries = IsTable-set m.subscriptions 0 i zero_subscription v.entries (inl (refl, refl));
        terminated = v.terminated;
      },
      ap (λ l. (l, (em.unsub i m.world).1))
          (map-set (slot_of m.topics) m.subscriptions i zero_subscription),
    )
    | inr e ↦ rw e (
      record {
        sixteen = v.sixteen;
        sized = v.sized;
        entries = v.entries;
        terminated = v.terminated;
      },
      refl,
    )
  ]

  unsub-refines :
      (topic : Text) (m : Mqtt W)
      → IsValid m
      → IsValid (execute em (unsub_from topic) m)
        × (view (execute em (unsub_from topic) m) ≡ specify em (unsub_from topic) (view m))
  unfolding execute specify cmd_unsub
  unsub-refines topic m v =
      let same = find_topic-position m.topics topic m.subscriptions 0 v.entries in
      rw (specify, ← same) (unsub_found m (find_topic m.topics topic m.subscriptions 0) v)

  execute-refines :
      (c : Command) (m : Mqtt W)
      → IsValid m
      → IsTopic (command_topic c)
      → IsValid (execute em c m) × (view (execute em c m) ≡ specify em c (view m))
  execute-refines (sub_to topic) m v t = sub-refines topic m v t
  execute-refines (unsub_from topic) m v t = unsub-refines topic m v

  -- The subscription table implements sixteen slots. From a valid table, over any sequence of
  -- subscriptions and unsubscriptions to topics of less than 64 bytes, none of them 0, and whatever the
  -- broker answers: a new topic takes the first slot that is not live, live if it was given an id
  -- and stale if not, or is refused if all sixteen are live; an unsubscription that the broker
  -- accepts frees the first slot with its topic, live or stale; no other slot changes; and the calls
  -- of the broker are the specification's. The table is valid at the end.
  pub execute_all-refines :
      (cs : List Command) (m : Mqtt W)
      → IsValid m
      → All (λ c. IsTopic (command_topic c)) cs
      → IsValid (execute_all em cs m) × (view (execute_all em cs m) ≡ specify_all em cs (view m))
  unfolding execute_all specify_all
  execute_all-refines [] m v t = (v, refl)
  execute_all-refines (c ∷ cs) m v (t, ts) =
      let (v', e) = execute-refines c m v t in
      let (v'', e') = execute_all-refines cs (execute em c m) v' ts in
      (v'', e' ∙ ap (specify_all em cs) e)
