-- ===== src/Mqtt/Table/Slots.antt =====
-- A topic written to its row: what the other rows show, and the NULs at the ends of the rows.
use mathlib.Core.List.{append_assoc}
use data_stream_pilot.Shared.{
  ℕ, zero, suc, ◌+◌, ◌*◌, ◌≤◌, ◌<◌, ◌≡◌, ◌≢◌, refl, sym, ap, ◌∙◌, ◌⊎◌, inl, inr, Bool-cases, List,
  [], ◌∷◌, ◌++◌, ◌==◌, arith, length, get_or, drop, ltb, length-append, length-drop,
}
use data_stream_pilot.Shared.Text.{Text, c_string}
use data_stream_pilot.Mqtt.{num_of_subs, topic_maxlen, write_at, copy_topic, topic_name}
use data_stream_pilot.Mqtt.Rows.{drop-write_at, get_or-write_at}
use data_stream_pilot.Mqtt.Table.{IsTerminated}

get_or-drop : (a : ℕ) (l : List ℕ) (j : ℕ) → get_or (drop a l) j 0 ≡ get_or l (a + j) 0
get_or-drop zero l j = ap (λ k. get_or l k 0) (omega arith)
get_or-drop (suc a) [] j = refl
get_or-drop (suc a) (x ∷ l) j =
    let e : suc a + j ≡ suc (a + j) = omega arith in
    get_or-drop a l j ∙ ap (λ k. get_or (x ∷ l) k 0) (sym e)

-- Two memories that agree up to a NUL hold the same string.
c_string-ext :
    (n : ℕ) (l l' : List ℕ)
    → ((j : ℕ) → j ≤ n → get_or l j 0 ≡ get_or l' j 0)
    → get_or l n 0 ≡ 0
    → c_string l ≡ c_string l'
unfolding c_string
c_string-ext n [] [] h z = refl
c_string-ext n [] (y ∷ l') h z = ground (arith, h 0)
c_string-ext n (x ∷ l) [] h z = ground (arith, h 0)
c_string-ext zero (x ∷ l) (y ∷ l') h z = ground (arith, h 0)
c_string-ext (suc n) (x ∷ l) (y ∷ l') h z =
    ground (arith, h 0, c_string-ext n l l' (λ j k. h (suc j) (omega arith)) z)

length-write_at :
    (memory : List ℕ) (offset : ℕ) (bytes : List ℕ)
    → offset + length bytes ≤ length memory
    → length (write_at memory offset bytes) ≡ length memory
unfolding write_at
length-write_at memory zero bytes h =
    omega
      (arith, length-append bytes (drop (length bytes) memory), length-drop (length bytes) memory)
length-write_at [] (suc offset) bytes h = absurd (omega arith)
length-write_at (m ∷ memory) (suc offset) bytes h =
    ap suc (length-write_at memory offset bytes (omega arith))

get_or-end : (xs rest : List ℕ) (n : ℕ) → length xs ≡ n → get_or (xs ++ (0 ∷ rest)) n 0 ≡ 0
get_or-end [] rest zero e = refl
get_or-end [] rest (suc n) e = absurd (omega arith)
get_or-end (x ∷ xs) rest zero e = absurd (omega arith)
get_or-end (x ∷ xs) rest (suc n) e = get_or-end xs rest n (omega arith)

module _ (topics : List ℕ) (i : ℕ) (topic : Text)
    (sized : length topics ≡ topic_maxlen * num_of_subs) (row : i < num_of_subs)
    (short : length topic < topic_maxlen) where
  bytes_length : length (topic ++ (0 ∷ [])) ≡ length topic + 1
  bytes_length = omega (arith, length-append topic (0 ∷ []))

  pub length-copy_topic : length (copy_topic topics i topic) ≡ topic_maxlen * num_of_subs
  unfolding copy_topic
  length-copy_topic =
      length-write_at topics (topic_maxlen * i) (topic ++ (0 ∷ [])) (omega (arith, bytes_length))
      ∙ sized

  -- a byte outside the row
  byte_kept :
      (j : ℕ)
      → (j < topic_maxlen * i) ⊎ (topic_maxlen * i + length topic + 1 ≤ j)
      → get_or (copy_topic topics i topic) j 0 ≡ get_or topics j 0
  unfolding copy_topic
  byte_kept j (inl h) = get_or-write_at topics (topic_maxlen * i) (topic ++ (0 ∷ [])) j (inl h)
  byte_kept j (inr h) =
      get_or-write_at topics (topic_maxlen * i) (topic ++ (0 ∷ [])) j
        (inr (omega (arith, bytes_length)))

  -- the byte where the NUL of the topic is
  end_byte : get_or (copy_topic topics i topic) (topic_maxlen * i + length topic) 0 ≡ 0
  unfolding copy_topic
  end_byte =
      let written = write_at topics (topic_maxlen * i) (topic ++ (0 ∷ [])) in
      let rest = drop (length (topic ++ (0 ∷ []))) (drop (topic_maxlen * i) topics) in
      sym (get_or-drop (topic_maxlen * i) written (length topic))
      ∙ ap (λ l. get_or l (length topic) 0)
          (drop-write_at topics (topic_maxlen * i) (topic ++ (0 ∷ [])) (omega arith)
            ∙ append_assoc topic (0 ∷ []) rest)
      ∙ get_or-end topic rest (length topic) refl

  apart :
      (r j : ℕ)
      → r ≢ i
      → j ≤ 63
      → (topic_maxlen * r + j < topic_maxlen * i)
        ⊎ (topic_maxlen * i + length topic + 1 ≤ topic_maxlen * r + j)
  apart r j h k = elim (Bool-cases (ltb r i)) [
    | inl e ↦ let lt : r < i = ground arith in inl (omega arith)
    | inr e ↦ let gt : i < r = ground arith in inr (omega arith)
  ]

  pub copy_topic-IsTerminated : IsTerminated topics → IsTerminated (copy_topic topics i topic)
  copy_topic-IsTerminated t r h = elim (Bool-cases (r == i)) [
    | inl e ↦ elim (Bool-cases (length topic == 63)) [
      | inl full ↦
          let same : topic_maxlen * r + 63 ≡ topic_maxlen * i + length topic = ground arith in
          ap (λ k. get_or (copy_topic topics i topic) k 0) same ∙ end_byte
      | inr part ↦
          let here : r ≡ i = ground arith in
          let less : length topic < 63 = ground arith in
          byte_kept (topic_maxlen * r + 63) (inr (omega arith)) ∙ t r h
    ]
    | inr e ↦
        let other : r ≢ i = ground arith in
        byte_kept (topic_maxlen * r + 63) (apart r 63 other (omega arith)) ∙ t r h
  ]

  -- The other rows show what they showed.
  pub topic_name-kept :
      IsTerminated topics
      → (r : ℕ) → r ≢ i
      → r < num_of_subs
      → topic_name (copy_topic topics i topic) r ≡ topic_name topics r
  unfolding topic_name
  topic_name-kept t r other h =
      let written = copy_topic topics i topic in
      c_string-ext 63 (drop (topic_maxlen * r) written) (drop (topic_maxlen * r) topics)
        (λ j k.
          get_or-drop (topic_maxlen * r) written j
          ∙ byte_kept (topic_maxlen * r + j) (apart r j other k)
          ∙ sym (get_or-drop (topic_maxlen * r) topics j))
        (get_or-drop (topic_maxlen * r) written 63 ∙ copy_topic-IsTerminated t r h)
