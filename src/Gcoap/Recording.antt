-- ===== src/Gcoap/Recording.antt =====
-- What an observer of the network sees: the bodies of the requests that were sent, in order.
use data_stream_pilot.Shared.{ℕ, ◌≡◌, List, [], ◌∷◌, ◌++◌, Option}
use data_stream_pilot.Shared.Text.{Text}
use data_stream_pilot.Gcoap.{Gcoap, Endpoint}

-- A log in the state of the network stack. A packet has the body that was last copied into it; a
-- request that is sent is appended with its body, and nothing else is.
pub record Recording {P W : Type 0} (g : Gcoap P W) : Type 0 where
  pub log : W → List (List ℕ)
  pub body : P → List ℕ
  pub writes : (bytes : List ℕ) (pdu : P) → body (g.write_payload bytes pdu) ≡ bytes
  pub begins :
      (pdu : P) (method : ℕ) (path : Option Text) (w : W)
      → log (g.req_init pdu method path w).1 ≡ log w
  pub sends :
      (pdu : P) (len : ℕ) (remote : Endpoint) (context : ℕ) (w : W)
      → log (g.req_send pdu len remote context w).1 ≡ log w ++ (body pdu ∷ [])
  pub observes : (i : ℕ) (w : W) → log (g.obs_init i w).2 ≡ log w
  pub notifies : (pdu : P) (len i : ℕ) (w : W) → log (g.obs_send pdu len i w) ≡ log w
