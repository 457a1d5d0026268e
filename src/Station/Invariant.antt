-- ===== src/Station/Invariant.antt =====
-- What every interleaving of the steps of the thread, the shell and the responses keeps.
use data_stream_pilot.Shared.{
  ℕ, zero, suc, ◌≤◌, ◌<◌, ◌≡◌, refl, ◌∙◌, Bool, true, false, List, [], ◌∷◌, ◌++◌, Option, none,
  some, arith, ltb, length, take, drop, get_or, if◌then◌else◌, length-append, length-drop,
  length-take,
}
use data_stream_pilot.Shared.Int.{pos, negsuc}
use data_stream_pilot.Shared.Text.{overwrite}
use data_stream_pilot.Gcoap.{Endpoint}
use data_stream_pilot.Cli.{Cli}
use data_stream_pilot.Cli.Command.{notify}
use data_stream_pilot.Cli.Command.Effects.{IsValid, initial-IsValid, notify-IsValid}
use data_stream_pilot.Cli.Command.Paths.{IsRetained}
use data_stream_pilot.Client.{Server}
use data_stream_pilot.Client.Command.Effects.{host_cmd-IsValid, resp_handler-IsValid}
use data_stream_pilot.Client.Steps.{
  Request, Phase, called, built, cleared, retained, ready, sent, counting, counted, returned,
  advance, build, target,
}
use data_stream_pilot.Station.{
  Pc, before_lock, Station, cli_cmd, resp_handler, Step, lock, go, core_asked, board_asked,
  digest_posted, unlock, shell_begins, shell_goes, shell_ends, shell, answer, Reach, here, next,
}

-- the thread is between its lock and its unlock
abbrev pub is_inside : Pc → Bool
is_inside before_lock = false
is_inside _ = true

-- the static variables are valid, and the mutex is taken exactly while the thread is inside
pub record IsSafe {P W : Type 0} (s : Station P W) : Type 0 where
  pub client : IsValid s.cli
  pub owned : s.held ≡ is_inside s.pc

get_or-overwrite :
    (xs buf : List ℕ) (i : ℕ)
    → length xs ≤ i
    → i < length buf
    → get_or (overwrite buf xs) i 1 ≡ get_or buf i 1
get_or-overwrite [] buf i h k = refl
get_or-overwrite (x ∷ xs) [] i h k = absurd (omega (arith, k))
get_or-overwrite (x ∷ xs) (y ∷ buf) zero h k = absurd (omega (arith, h))
get_or-overwrite (x ∷ xs) (y ∷ buf) (suc i) h k =
    get_or-overwrite xs buf i (omega (arith, h)) (omega (arith, k))

-- A copy of less than 64 bytes keeps the NUL at the end of the buffer, whatever is in the buffer.
overwrite-IsRetained :
    (buf xs : List ℕ) → IsRetained buf → length xs < 64 → IsRetained (overwrite buf xs)
overwrite-IsRetained buf xs (size, end) h = (
  omega (arith, size, h, length-append xs (drop (length xs) buf), length-drop (length xs) buf),
  get_or-overwrite xs buf 63 (omega (arith, h)) (omega (arith, size)) ∙ end,
)

module _ {P W : Type 0} (srv : Server P W) where
  addressed-IsValid :
      (q : Request) (addr : Option (List ℕ)) (c : Cli W)
      → IsValid c
      → IsValid
          (elim addr as (λ x. Phase P × Cli W) [
            | none ↦ (returned (negsuc 0), c)
            | some addr ↦ build srv q c
          ]).1
  unfolding build
  addressed-IsValid q none c v = v
  addressed-IsValid q (some addr) c v = record { retained = v.retained; counted = v.counted }

  called-IsValid :
      (q : Request) (from_shell : Bool) (c : Cli W)
      → IsValid c
      → IsValid
          (elim from_shell as (λ x. Phase P × Cli W) [
            | true ↦ build srv q c
            | false ↦ elim (srv.gcoap.addr_from_str srv.server_ip) [
              | none ↦ (returned (negsuc 0), c)
              | some addr ↦ build srv q c
            ]
          ]).1
  unfolding build
  called-IsValid q true c v = record { retained = v.retained; counted = v.counted }
  called-IsValid q false c v = addressed-IsValid q (srv.gcoap.addr_from_str srv.server_ip) c v

  sent-IsValid :
      (pdu : P) (len : ℕ) (remote : Option Endpoint) (c : Cli W)
      → IsValid c
      → IsValid
          (elim remote as (λ x. Phase P × Cli W) [
            | none ↦ (returned (pos 0), c)
            | some remote ↦
                let (bytes_sent, w) = srv.gcoap.req_send pdu len remote 0 c.world in
                (sent bytes_sent, record c { world = w })
          ]).1
  sent-IsValid pdu len none c v = v
  sent-IsValid pdu len (some remote) c v = record { retained = v.retained; counted = v.counted }

  copied-IsRetained :
      (fits : Bool) (n : ℕ) (t buf : List ℕ)
      → ltb n 64 ≡ fits
      → IsRetained buf
      → IsRetained (if fits then overwrite buf (take n t) else buf)
  copied-IsRetained true n t buf e h =
      overwrite-IsRetained buf (take n t) h (ground (arith, length-take n t))
  copied-IsRetained false n t buf e h = h

  notified-IsValid :
      (from_shell : Bool) (c : Cli W)
      → IsValid c
      → IsValid (if from_shell then notify srv.gcoap c else c)
  notified-IsValid true c v = notify-IsValid srv.gcoap c v
  notified-IsValid false c v = v

  -- Each step of each request keeps the static variables valid, whatever the other requests have
  -- left in them.
  advance-IsValid :
      (q : Request) (phase : Phase P) (c : Cli W) → IsValid c → IsValid (advance srv q phase c).1
  unfolding advance build
  advance-IsValid q called c v = called-IsValid q q.from_shell c v
  advance-IsValid q (built pdu) c v = record { retained = omega arith; counted = v.counted }
  advance-IsValid q (cleared pdu) c v = record {
    retained =
        copied-IsRetained (ltb q.uri_len 64) q.uri_len (q.uri ++ (0 ∷ [])) c.last_req_path refl
          v.retained;
    counted = v.counted;
  }
  advance-IsValid q (retained pdu) c v = v
  advance-IsValid q (ready pdu len) c v = sent-IsValid pdu len (target srv q.host c) c v
  advance-IsValid q (sent n) c v = v
  advance-IsValid q (counting n) c v = record { retained = v.retained; counted = omega arith }
  advance-IsValid q counted c v = notified-IsValid q.from_shell c v
  advance-IsValid q (returned r) c v = v

  Step-IsSafe : {s t : Station P W} → Step srv s t → IsSafe s → IsSafe t
  unfolding cli_cmd resp_handler
  Step-IsSafe (lock e free) h = record { client = h.client; owned = refl }
  Step-IsSafe {s} (go q e) h = record {
    client = advance-IsValid q s.phase s.cli h.client;
    owned = h.owned;
  }
  Step-IsSafe (core_asked r e done) h = record {
    client = h.client;
    owned = ground (arith, h.owned);
  }
  Step-IsSafe (board_asked r e done) h = record {
    client = h.client;
    owned = ground (arith, h.owned);
  }
  Step-IsSafe (digest_posted r e done) h = record {
    client = h.client;
    owned = ground (arith, h.owned);
  }
  Step-IsSafe (unlock e) h = record { client = h.client; owned = refl }
  Step-IsSafe (shell_begins q e p free) h = record { client = h.client; owned = h.owned }
  Step-IsSafe {s} (shell_goes q phase e) h = record {
    client = advance-IsValid q phase s.cli h.client;
    owned = h.owned;
  }
  Step-IsSafe (shell_ends q r e) h = record { client = h.client; owned = h.owned }
  Step-IsSafe {s} (shell argv free e) h = record {
    client = host_cmd-IsValid srv argv s.cli h.client;
    owned = h.owned;
  }
  Step-IsSafe {s} (answer state context pdu remote) h = record {
    client = resp_handler-IsValid srv state context pdu remote s.cli h.client;
    owned = h.owned;
  }

  -- In every state that an interleaving of the steps of the thread's requests, of the steps of
  -- unproxied requests with a path of the shell, of its commands that make no request, and of
  -- responses reaches: the retained path is a string within its buffer of 64 bytes, though two
  -- requests may write it at once, the count of requests is a 16-bit number, and the mutex is taken
  -- exactly while the thread is between its lock and unlock.
  pub Reach-IsSafe : (w : W) {s : Station P W} → Reach srv w s → IsSafe s
  Reach-IsSafe w here = record { client = initial-IsValid w; owned = refl }
  Reach-IsSafe w (next r st) = Step-IsSafe st (Reach-IsSafe w r)
