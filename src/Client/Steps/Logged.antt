-- ===== src/Client/Steps/Logged.antt =====
-- What an observer of the network sees of a thread that other responses come in between.
use data_stream_pilot.Shared.{ℕ, ◌≤◌, ◌≡◌, List, [], ◌∷◌, ◌++◌, length, All}
use data_stream_pilot.Shared.Text.{Text}
use data_stream_pilot.Gcoap.Recording.{Recording}
use data_stream_pilot.Cli.{Cli}
use data_stream_pilot.Client.{Server}
use data_stream_pilot.Client.Requests.{IsWorking}
use data_stream_pilot.Client.Steps.{
  Phase, built, cleared, retained, ready, sent, counting, counted, returned,
}
use data_stream_pilot.Client.Steps.Thread.{Thread}
use data_stream_pilot.Client.Steps.Progress.{Begun}

module _ {P : Type 0} where
  -- the text of the request under way, while it is still to send
  abbrev pending : Text → Phase P → List Text
  pending msg (sent n) = []
  pending msg (counting n) = []
  pending msg counted = []
  pending msg (returned r) = []
  pending msg _ = msg ∷ []

  abbrev waiting : List Text → Phase P → List Text
  waiting [] phase = []
  waiting (msg ∷ rest) phase = pending msg phase ++ rest

module _ {P W : Type 0} (srv : Server P W) {uri : Text} {room : ℕ} (works : IsWorking srv uri room)
    (uri_len : ℕ) (rec : Recording srv.gcoap) where
  open works use {opened}
  open opened use {parsed}

  -- a packet is one of a POST, and has the text when it is ready
  abbrev Holds : Text → Phase P → Type 0
  Holds msg (built pdu) = Begun srv uri pdu
  Holds msg (cleared pdu) = Begun srv uri pdu
  Holds msg (retained pdu) = Begun srv uri pdu
  Holds msg (ready pdu len) = rec.body pdu ≡ msg
  Holds msg _ = Unit

  abbrev HoldsFirst : List Text → Phase P → Type 0
  HoldsFirst [] phase = Unit
  HoldsFirst (msg ∷ rest) phase = Holds msg phase

  abbrev Logs : Text → Phase P → Cli W → Phase P × Cli W → Type 0
  Logs msg phase c (phase', c') =
      Holds msg phase'
      × (rec.log c'.world ++ pending msg phase' ≡ rec.log c.world ++ pending msg phase)

  abbrev Stands : Thread P W → Type 0
  Stands t = All (λ msg. length msg ≤ room) t.todo × HoldsFirst t.todo t.phase

  -- what was sent and what is still to send are as before
  abbrev Follows : Thread P W → Thread P W → Type 0
  Follows t t' =
      Stands t'
      × (rec.log t'.cli.world ++ waiting t'.todo t'.phase
          ≡ rec.log t.cli.world ++ waiting t.todo t.phase)
