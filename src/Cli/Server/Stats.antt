-- ===== src/Cli/Server/Stats.antt =====
-- The count of requests, written and read through /cli/stats, and the bounds of the links.
use data_stream_pilot.Shared.{
  ℕ, zero, suc, ◌%◌, ◌^◌, ◌≤◌, ◌<◌, ◌≡◌, refl, true, sym, ◌∙◌, ap, [], ◌∷◌, ◌++◌, Option, none,
  some, arith, leb, length, length-append,
}
use data_stream_pilot.Shared.Int.{pos}
use data_stream_pilot.Shared.Text.{Text, c_string, c_string_terminated, take_all}
use data_stream_pilot.Shared.Decimal.{unsigned_decimal, strtoul}
use data_stream_pilot.Shared.Decimal.RoundTrip.{
  strtoul-unsigned_decimal, unsigned_decimal-ne, length-unsigned_decimal,
}
use mathlib.Core.List.{append-nil}
use data_stream_pilot.Gcoap.{Gcoap, flag_get, flag_put}
use data_stream_pilot.Cli.{Cli}
use data_stream_pilot.Cli.Server.{
  stats_get, stats_method, stats_handler, link_params, add_params, encode_link,
}

payload_count_decimal :
    (n : ℕ) → n < 10 ^ 5 → strtoul (c_string (unsigned_decimal n ++ (0 ∷ []))) ≡ n
payload_count_decimal n h =
    ap strtoul (
      c_string_terminated (unsigned_decimal n) []
        (unsigned_decimal-ne 0 n (omega arith) (omega arith))
      ∙ sym (append-nil (unsigned_decimal n)))
    ∙ strtoul-unsigned_decimal n [] (omega arith) tt

module _ {P W : Type 0} (g : Gcoap P W) where
  -- A PUT whose payload is a number of up to five digits sets the count to it modulo 2^16, changes
  -- nothing else and is answered by 2.04; the next GET reports that count.
  pub stats_put_get :
      (put get : P) (n : ℕ) (c : Cli W)
      → g.method_flag put ≡ flag_put
      → g.method_flag get ≡ flag_get
      → n < 10 ^ 5
      → g.payload put ≡ unsigned_decimal n
      → g.payload_len put ≡ length (unsigned_decimal n)
      → let (answer, c') = stats_handler g put c in
        (answer ≡ g.response g.code_changed put)
        × (c' ≡ record c { req_count = n % 2 ^ 16 })
        × (stats_handler g get c' ≡ (stats_get g get (n % 2 ^ 16), c'))
  unfolding stats_handler stats_method
  stats_put_get put get n c p q h payload count =
      let short = length-unsigned_decimal 4 n h in
      let small : leb (length (unsigned_decimal n)) 5 ≡ true = ground arith in
      rw
        (
          p,
          q,
          count,
          payload,
          small,
          take_all (length (unsigned_decimal n)) (unsigned_decimal n) (omega arith),
          payload_count_decimal n h,
        )
        (refl, refl, refl)

  -- The text that _encode_link leaves is as long as it returns, and within the buffer, if that
  -- holds of the library's link.
  encode_link_fits :
      (link_pos maxlen n : ℕ) (text : Text)
      → g.encode_link link_pos maxlen ≡ (pos n, text)
      → n ≡ length text
      → n ≤ maxlen
      → maxlen < 2 ^ 31
      → let (result, text') = encode_link g link_pos maxlen in
        (result ≡ pos (length text')) × (length text' ≤ maxlen)
  unfolding encode_link
  encode_link_fits link_pos maxlen n text e l m b = rw e (fits n (link_params link_pos) l m)
    where
      fits :
          (n : ℕ) (params : Option Text)
          → n ≡ length text
          → n ≤ maxlen
          → let (result, text') = add_params (pos n) text params maxlen in
            (result ≡ pos (length text')) × (length text' ≤ maxlen)
      fits zero none l m = ground arith
      fits zero (some p) l m = ground arith
      fits (suc n) none l m = ground arith
      fits (suc n) (some p) l m = ground (arith, length-append text p)
