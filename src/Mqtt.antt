-- ===== src/Mqtt.antt =====
-- The MQTT subscriptions of "compute_engine copy"/main.c. The emcute client is RIOT's: its calls
-- are parameters.
pub mod Rows
pub mod Data
pub mod Table
pub mod Connect
use data_stream_pilot.Shared.{
  ℕ, zero, suc, ◌+◌, ◌*◌, ◌-◌, Bool, true, false, not, ◌&&◌, List, [], ◌∷◌, ◌++◌, Option, none,
  some, ◌==◌, if◌then◌else◌, ltb, leb, length, get_or, set, take, drop, replicate,
}
use data_stream_pilot.Shared.Int.{ℤ, pos, eqb_ℤ}
use data_stream_pilot.Shared.Text.{Text, codes, str_eq, c_string, overwrite}

abbrev pub num_of_subs : ℕ
num_of_subs = 16

abbrev pub topic_maxlen : ℕ
topic_maxlen = 64

-- `emcute_sub_t`: `name` is the row of `topics` that the pointer shows to, and `cb` is set or NULL
pub record Subscription : Type 0 where
  pub id : ℕ
  pub name : Option ℕ
  pub cb : Bool

abbrev pub zero_subscription : Subscription
zero_subscription = record { id = 0; name = none; cb = false }

-- `sub` returns its code and the id that it leaves in the topic
pub record Emcute (W : Type 0) : Type 0 where
  pub ok : ℤ
  pub qos_0 : ℕ
  pub get_qos : Text → ℕ
  pub with_flags : ℕ → ℕ → ℕ
  pub sub : Text → ℕ → W → ℤ × ℕ × W
  pub unsub : ℕ → W → ℤ × W

-- `topics` is the array of 16 rows of 64 bytes, one after the other
pub record Mqtt (W : Type 0) : Type 0 where
  pub subscriptions : List Subscription
  pub topics : List ℕ
  pub world : W

-- the bytes written from an offset on, as strcpy writes them: with no test of a bound
unfoldable pub write_at : List ℕ → ℕ → List ℕ → List ℕ
write_at memory zero bytes = overwrite memory bytes
write_at [] (suc offset) bytes = []
write_at (m ∷ memory) (suc offset) bytes = m ∷ write_at memory offset bytes

-- `strcpy(topics[row], name)`
unfoldable pub copy_topic : List ℕ → ℕ → Text → List ℕ
copy_topic topics row name = write_at topics (topic_maxlen * row) (name ++ (0 ∷ []))

-- the string in a row
unfoldable pub topic_name : List ℕ → ℕ → Text
topic_name topics row = c_string (drop (topic_maxlen * row) topics)

-- the first entry whose id is 0, from index `i` on
unfoldable pub find_empty : List Subscription → ℕ → ℕ
find_empty [] i = i
find_empty (s ∷ subs) i = if not (s.id == 0) then find_empty subs (i + 1) else i

-- the first entry whose topic has the name
unfoldable pub find_topic : List ℕ → Text → List Subscription → ℕ → Option ℕ
find_topic topics name [] i = none
find_topic topics name (s ∷ subs) i =
    let here : Bool = elim s.name [
      | none ↦ false
      | some row ↦ str_eq (topic_name topics row) name
    ] in
    if here then some i else find_topic topics name subs (i + 1)

module _ {W : Type 0} (em : Emcute W) where
  open em use {ok, qos_0, get_qos, with_flags, sub, unsub}

  -- the end of cmd_sub_1, from the empty entry `i` on
  unfoldable pub subscribe : ℕ → Text → ℕ → Mqtt W → ℕ × Mqtt W
  subscribe i topic flags m =
      let topics = copy_topic m.topics i topic in
      let (ret, id, w) = sub (topic_name topics i) flags m.world in
      let entry : Subscription = record { id = id; name = some i; cb = true } in
      (
        if not (eqb_ℤ ret ok) then 1 else 0,
        record { subscriptions = set m.subscriptions i entry; topics = topics; world = w },
      )

  -- `cmd_sub_1`; the callback is never NULL
  unfoldable pub cmd_sub_1 : List Text → Mqtt W → ℕ × Mqtt W
  cmd_sub_1 argv m =
      if ltb (length argv) 2
      then (1, m)
      else if ltb topic_maxlen (length (get_or argv 1 []))
      then (1, m)
      else (let flags =
            if leb 3 (length argv) then with_flags qos_0 (get_qos (get_or argv 2 [])) else qos_0 in
          let i = find_empty m.subscriptions 0 in
          if i == num_of_subs then (1, m) else subscribe i (get_or argv 1 []) flags m)

  -- the body of the loop of cmd_unsub at the entry that it found
  unfoldable pub unsubscribe : ℕ → Mqtt W → ℕ × Mqtt W
  unsubscribe i m =
      let (ret, w) = unsub i m.world in
      if eqb_ℤ ret ok
      then (0, record m { subscriptions = set m.subscriptions i zero_subscription; world = w })
      else (0, record m { world = w })

  unfoldable pub cmd_unsub : List Text → Mqtt W → ℕ × Mqtt W
  cmd_unsub argv m =
      if ltb (length argv) 2
      then (1, m)
      else elim (find_topic m.topics (get_or argv 1 []) m.subscriptions 0) [
        | none ↦ (1, m)
        | some i ↦ unsubscribe i m
      ]

  unfoldable pub unsubscribe_from_topics : Mqtt W → Mqtt W
  unfolding cmd_unsub
  unsubscribe_from_topics m = (cmd_unsub (codes "sub" ∷ codes "d" ∷ []) m).1

  unfoldable pub subscribe_to_topics : Mqtt W → Mqtt W
  unfolding cmd_sub_1
  subscribe_to_topics m = (cmd_sub_1 (codes "sub" ∷ codes "d" ∷ []) m).1

-- what `initizlize_mqtt_client` leaves in the table
abbrev pub empty_table : List Subscription
empty_table = replicate num_of_subs zero_subscription

-- `denoised_data`, a block of the heap or NULL, and how many blocks this code has allocated and
-- not freed. An allocation is taken to succeed, as in the code.
pub record Received : Type 0 where
  pub denoised_data : Option (List ℕ)
  pub blocks : ℕ

-- `strncpy(block, in, len)`: the string in the first `len` bytes, and zeros up to `len`
unfoldable pub strncpy : ℕ → List ℕ → List ℕ
strncpy len bytes = let s = c_string (take len bytes) in s ++ replicate (len - length s) 0

unfoldable pub on_pub : List ℕ → ℕ → Received → Received
unfolding strncpy
on_pub bytes len r =
    let block = strncpy len bytes ++ (0 ∷ []) in
    let freed : ℕ = elim r.denoised_data [ none ↦ r.blocks | some old ↦ r.blocks - 1 ] in
    record { denoised_data = some block; blocks = freed + 1 }
