-- ===== src/Client/Steps/Retained.antt =====
-- What a thread of posts leaves in the static variables, and what a response finds there while a
-- request is under way.
use mathlib.Core.Path.{subst}
use data_stream_pilot.Shared.{
  ℕ, ◌≡◌, refl, sym, ap, ◌∙◌, Bool, ltb, if◌then◌else◌, ◌⊎◌, inl, inr, true, false, List, [], ◌∷◌,
  ◌++◌, Option, none, some, arith, replicate,
}
use data_stream_pilot.Shared.Int.{pos, negsuc}
use data_stream_pilot.Shared.Text.{Text, c_string}
use data_stream_pilot.Gcoap.{Endpoint}
use data_stream_pilot.Cli.{Cli}
use data_stream_pilot.Cli.Command.{retain_path}
use data_stream_pilot.Cli.Command.Effects.{IsValid}
use data_stream_pilot.Cli.Command.Paths.{IsRetained, retain_path-IsRetained}
use data_stream_pilot.Client.{
  Server, Resource, get_resource_path, get_resource_path_len, retain_resource,
}
use data_stream_pilot.Client.Resources.{retain_resource_lem}
use data_stream_pilot.Client.Steps.{
  Phase, called, built, cleared, retained, ready, sent, counting, counted, returned, advance, build,
  target, finish_packet, post_request,
}

-- no proxy is set, the retained string is empty or the path of the resource, the buffer has its NUL
-- and the count its width
abbrev pub Keeps : {W : Type 0} → Resource → Cli W → Type 0
Keeps r c =
    (c.proxied ≡ false)
    × ((c_string c.last_req_path ≡ []) ⊎ (c_string c.last_req_path ≡ get_resource_path r))
    × IsValid c

-- between the memset and the memcpy the buffer is empty
abbrev pub Cleared : {P W : Type 0} → Phase P → Cli W → Type 0
Cleared (cleared pdu) c = c.last_req_path ≡ replicate 64 0
Cleared _ c = Unit

pub Keeps-frame :
    {W : Type 0} (r : Resource) (c c' : Cli W)
    → c'.proxied ≡ c.proxied
    → c'.last_req_path ≡ c.last_req_path
    → c'.req_count ≡ c.req_count
    → Keeps r c
    → Keeps r c'
Keeps-frame r c c' p l n (direct, path, valid) = (
  p ∙ direct,
  subst (λ b. (c_string b ≡ []) ⊎ (c_string b ≡ get_resource_path r)) (sym l) path,
  record { retained = rw l valid.retained; counted = rw n valid.counted },
)

module _ {P W : Type 0} (srv : Server P W) (r : Resource) where
  abbrev Follows : Phase P × Cli W → Type 0
  Follows (phase, c) = Cleared phase c × Keeps r c

  called-Keeps :
      (msg : Text) (addr : Option (List ℕ)) (c : Cli W)
      → Keeps r c
      → let q = post_request srv (get_resource_path r) (get_resource_path_len r) msg in
        Follows (elim addr as (λ x. Phase P × Cli W) [
          | none ↦ (returned (negsuc 0), c)
          | some addr ↦ build srv q c
        ])
  unfolding build
  called-Keeps msg none c k = (tt, k)
  called-Keeps msg (some addr) c k = (tt, Keeps-frame r c _ refl refl refl k)

  finished_keeps :
      (msg : Text) (pdu : P) (c : Cli W)
      → Cleared
          (finish_packet srv
            (post_request srv (get_resource_path r) (get_resource_path_len r) msg)
            pdu)
          c
  unfolding finish_packet
  finished_keeps msg pdu c = ground arith

  sent-Keeps :
      (pdu : P) (len : ℕ) (remote : Option Endpoint) (c : Cli W)
      → Keeps r c
      → Follows (elim remote as (λ x. Phase P × Cli W) [
        | none ↦ (returned (pos 0), c)
        | some remote ↦
            let (bytes_sent, w) = srv.gcoap.req_send pdu len remote 0 c.world in
            (sent bytes_sent, record c { world = w })
      ])
  sent-Keeps pdu len none c k = (tt, k)
  sent-Keeps pdu len (some remote) c k = (tt, Keeps-frame r c _ refl refl refl k)

  counted-Keeps :
      (some_sent : Bool) (c : Cli W)
      → Keeps r c
      → Follows (if some_sent then counting c.req_count else returned (pos 0), c)
  counted-Keeps true c k = (tt, k)
  counted-Keeps false c k = (tt, k)

  pub advance-Keeps :
      (msg : Text) (phase : Phase P) (c : Cli W)
      → Cleared phase c
      → Keeps r c
      → Follows (
          advance srv
            (post_request srv (get_resource_path r) (get_resource_path_len r) msg)
            phase
            c)
  unfolding advance build
  advance-Keeps msg called c h k = called-Keeps msg (srv.gcoap.addr_from_str srv.server_ip) c k
  advance-Keeps msg (built pdu) c h (direct, path, valid) = (
    refl,
    (
      direct,
      inl (unfold c_string in refl),
      record { retained = omega arith; counted = valid.counted },
    ),
  )
  advance-Keeps msg (cleared pdu) c h (direct, path, valid) =
      let retains : retain_path (get_resource_path r ++ (0 ∷ [])) (get_resource_path_len r)
          ≡ (advance srv (post_request srv (get_resource_path r) (get_resource_path_len r) msg)
              (cleared pdu) c).1.last_req_path =
        unfold retain_path in rw h refl in
      let is_path = retain_resource_lem r in
      (
        tt,
        (
          direct,
          inr (ap c_string (sym retains) ∙ (unfold retain_resource in is_path.2)),
          record {
            retained = subst IsRetained retains (retain_path-IsRetained _ _);
            counted = valid.counted;
          },
        ),
      )
  advance-Keeps msg (retained pdu) c h k = (finished_keeps msg pdu c, k)
  advance-Keeps msg (ready pdu len) c h k = sent-Keeps pdu len (target srv srv.server_name c) c k
  advance-Keeps msg (sent n) c h k = counted-Keeps (ltb 0 n) c k
  advance-Keeps msg (counting n) c h (direct, path, valid) =
      (tt, (direct, path, record { retained = valid.retained; counted = omega arith }))
  advance-Keeps msg counted c h k = (tt, k)
  advance-Keeps msg (returned v) c h k = (tt, k)
