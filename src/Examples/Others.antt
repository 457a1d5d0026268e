-- ===== src/Examples/Others.antt =====
-- The delta encoder, the subscriptions, the filter and the table of resources.
use data_stream_pilot.Shared.{
  ℕ, zero, suc, ◌+◌, ◌*◌, ◌<◌, ◌≡◌, ◌≢◌, refl, List, [], ◌∷◌, arith, length, replicate, All,
}
use data_stream_pilot.Shared.Int.{ℤ, pos, negsuc}
use data_stream_pilot.Shared.Text.{Text, codes}
use data_stream_pilot.Delta
use data_stream_pilot.Delta.Buffers.{IsWithin, all_writes, initial_writes-IsWithin}
use data_stream_pilot.Mqtt.{
  Mqtt, num_of_subs, topic_maxlen, empty_table, topic_name, find_empty, cmd_sub_1,
}
use data_stream_pilot.Mqtt.Rows.{cmd_sub_1-overrun}
use data_stream_pilot.Examples.Net.{em}

initial_writes-IsWithin_example :
    All IsWithin (all_writes 4 Delta.initial (pos 3_250 ∷ negsuc 4 ∷ pos 90 ∷ []))
initial_writes-IsWithin_example =
    initial_writes-IsWithin 4 (pos 3_250 ∷ negsuc 4 ∷ pos 90 ∷ []) (omega arith)
      (omega arith, (omega arith, (omega arith, tt)))

abbrev fresh : Mqtt ℕ
fresh = record { subscriptions = empty_table; topics = replicate 1_024 0; world = 0 }

fresh-lt : find_empty fresh.subscriptions 0 < num_of_subs
unfolding find_empty
fresh-lt = omega arith

fresh-size : length fresh.topics ≡ topic_maxlen * num_of_subs
fresh-size = refl

abbrev full_topic : Text
full_topic = replicate 64 97

replicate-nonzero : (n x : ℕ) → x ≢ 0 → All (λ x. x ≢ 0) (replicate n x)
replicate-nonzero zero x h = tt
replicate-nonzero (suc n) x h = (h, replicate-nonzero n x h)

cmd_sub_1-overrun_example :
    let i = find_empty fresh.subscriptions 0 in
    let topics = (cmd_sub_1 em (codes "sub" ∷ full_topic ∷ []) fresh).1.topics in
    (topic_name topics i ≡ full_topic) × (topic_name topics (i + 1) ≡ [])
cmd_sub_1-overrun_example =
    cmd_sub_1-overrun em fresh (codes "sub") full_topic fresh-size
      (replicate-nonzero 64 97 (ground arith)) refl fresh-lt

abbrev three : List ℤ
three = pos 20 ∷ pos 21 ∷ pos 95 ∷ []
