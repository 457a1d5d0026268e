-- ===== src/Node/Rounds.antt =====
-- The rounds of the second node's loop over a network that works.
use mathlib.Core.Option
use mathlib.Core.List.{map}
use data_stream_pilot.Shared.{◌%◌, ◌≤◌, ◌≡◌, refl, List, some, length, arith}
use data_stream_pilot.Site.Lookup.{get_binary_value_three_bits}
use data_stream_pilot.Shared.Text.{Text}
use data_stream_pilot.Delta.{Encoder, encode, sample_text, sample_json, round, fixed_temp}
use data_stream_pilot.Delta.Exact.{IsReady, IsTaken, round_goes_on, next_state, length-payload}
use data_stream_pilot.Mqtt.Table.{Slot, slot_of}
use data_stream_pilot.Node.{Node, Build, site, finish_round, node_round}

abbrev pub node_slots : {R W : Type 0} → Node R W → List Slot
node_slots n = map (slot_of n.topics) n.subscriptions

-- From a ready encoder a round does not return from main, whatever the network does: it hands a
-- payload of 39 bytes at most to gcoap_post, and leaves the encoder ready.
pub node_round_returns :
    {P R W : Type 0} (b : Build P R W) (n : Node R W)
    → IsReady n.encoder
    → (encoder : Encoder) × (payload : Text) × (node_round b n
        ≡ some (finish_round b (some payload) (record n { encoder = encoder })))
      × IsReady encoder
      × (length payload ≤ 39)
      × (round (site b) n.encoder fixed_temp ≡ some (encoder, some payload))
unfolding node_round
node_round_returns b n h =
    let e = n.encoder in
    let taken : IsTaken fixed_temp = ground arith in
    let three_bits = get_binary_value_three_bits b.site_name in
    let x = encode (e.counter % 10) e.base_value fixed_temp in
    let payload = sample_json (site b) (sample_text x.value) x.is_base in
    let (same, ready) = round_goes_on (site b) e fixed_temp three_bits h taken in
    (
      next_state e fixed_temp,
      payload,
      rw (node_round, same) refl,
      ready,
      length-payload (site b) (e.counter % 10) e.base_value fixed_temp three_bits taken h.based,
      same,
    )
