-- ===== src/Mqtt/Rows.antt =====
-- The rows of the topic table: what a subscription writes and what it leaves alone.
use mathlib.Core.List.{append_assoc}
use data_stream_pilot.Shared.{
  ℕ, zero, suc, ◌+◌, ◌*◌, ◌≤◌, ◌<◌, ◌≡◌, ◌≢◌, refl, sym, ap, ◌∙◌, ◌⊎◌, inl, inr, Bool, true, false,
  List, [], ◌∷◌, ◌++◌, Option, some, arith, length, get_or, set, drop, if◌then◌else◌, All,
  length-append,
}
use data_stream_pilot.Shared.Int.{eqb_ℤ}
use data_stream_pilot.Shared.Text.{Text, c_string, c_string_terminated}
use data_stream_pilot.Mqtt.{
  Subscription, Emcute, Mqtt, num_of_subs, topic_maxlen, zero_subscription, write_at, copy_topic,
  topic_name, find_empty, find_topic, subscribe, cmd_sub_1, unsubscribe, cmd_unsub,
}

-- what was written, read from where it was written
pub drop-write_at :
    (memory : List ℕ) (offset : ℕ) (bytes : List ℕ)
    → offset ≤ length memory
    → drop offset (write_at memory offset bytes) ≡ bytes ++ drop (length bytes) (drop offset memory)
unfolding write_at
drop-write_at memory zero bytes h = refl
drop-write_at [] (suc offset) bytes h = absurd (omega arith)
drop-write_at (m ∷ memory) (suc offset) bytes h = drop-write_at memory offset bytes (omega arith)

-- a byte before or after what is written
get_or-overwrite :
    (bytes memory : List ℕ) (j : ℕ)
    → length bytes ≤ j
    → get_or (bytes ++ drop (length bytes) memory) j 0 ≡ get_or memory j 0
get_or-overwrite [] memory j h = refl
get_or-overwrite (b ∷ bytes) memory zero h = absurd (omega arith)
get_or-overwrite (b ∷ bytes) [] (suc j) h = get_or-overwrite_nil bytes j (omega arith)
  where
    get_or-overwrite_nil :
        (bytes : List ℕ) (j : ℕ) → length bytes ≤ j → get_or (bytes ++ []) j 0 ≡ 0
    get_or-overwrite_nil [] j h = refl
    get_or-overwrite_nil (b ∷ bytes) zero h = absurd (omega arith)
    get_or-overwrite_nil (b ∷ bytes) (suc j) h = get_or-overwrite_nil bytes j (omega arith)
get_or-overwrite (b ∷ bytes) (m ∷ memory) (suc j) h = get_or-overwrite bytes memory j (omega arith)

pub get_or-write_at :
    (memory : List ℕ) (offset : ℕ) (bytes : List ℕ) (j : ℕ)
    → (j < offset) ⊎ (offset + length bytes ≤ j)
    → get_or (write_at memory offset bytes) j 0 ≡ get_or memory j 0
unfolding write_at
get_or-write_at memory zero bytes j (inl h) = absurd (omega arith)
get_or-write_at memory zero bytes j (inr h) = get_or-overwrite bytes memory j (omega arith)
get_or-write_at [] (suc offset) bytes j h = refl
get_or-write_at (m ∷ memory) (suc offset) bytes zero h = refl
get_or-write_at (m ∷ memory) (suc offset) bytes (suc j) (inl h) =
    get_or-write_at memory offset bytes j (inl (omega arith))
get_or-write_at (m ∷ memory) (suc offset) bytes (suc j) (inr h) =
    get_or-write_at memory offset bytes j (inr (omega arith))

-- a topic without NULs is what its row then holds
pub topic_name-copy_topic :
    (topics : List ℕ) (i : ℕ) (topic : Text)
    → topic_maxlen * i ≤ length topics
    → All (λ x. x ≢ 0) topic
    → topic_name (copy_topic topics i topic) i ≡ topic
unfolding topic_name copy_topic
topic_name-copy_topic topics i topic h nz =
    let rest = drop (length (topic ++ (0 ∷ []))) (drop (topic_maxlen * i) topics) in
    ap c_string (
      drop-write_at topics (topic_maxlen * i) (topic ++ (0 ∷ [])) h
      ∙ append_assoc topic (0 ∷ []) rest)
    ∙ c_string_terminated topic rest nz

drop_nil : (n : ℕ) → drop {A = ℕ} n [] ≡ []
drop_nil zero = refl
drop_nil (suc n) = refl

drop-drop : (m n : ℕ) (l : List ℕ) → drop (m + n) l ≡ drop n (drop m l)
drop-drop zero n l = ap (λ k. drop k l) (omega arith)
drop-drop (suc m) n [] = drop_nil (suc m + n) ∙ sym (drop_nil n)
drop-drop (suc m) n (x ∷ l) =
    let e : suc m + n ≡ suc (m + n) = omega arith in ap (λ k. drop k (x ∷ l)) e ∙ drop-drop m n l

drop-append : (xs ys : List ℕ) (n : ℕ) → length xs ≡ n → drop n (xs ++ ys) ≡ ys
drop-append [] ys zero e = refl
drop-append [] ys (suc n) e = absurd (omega arith)
drop-append (x ∷ xs) ys zero e = absurd (omega arith)
drop-append (x ∷ xs) ys (suc n) e = drop-append xs ys n (omega arith)

-- the next row starts with the NUL of a topic of 64 bytes
topic_name-copy_topic_next :
    (topics : List ℕ) (i : ℕ) (topic : Text)
    → topic_maxlen * i ≤ length topics
    → length topic ≡ topic_maxlen
    → topic_name (copy_topic topics i topic) (i + 1) ≡ []
unfolding topic_name copy_topic c_string
topic_name-copy_topic_next topics i topic h e =
    let bytes = topic ++ (0 ∷ []) in
    let written = write_at topics (topic_maxlen * i) bytes in
    let rest = drop (length bytes) (drop (topic_maxlen * i) topics) in
    ap c_string (
      ap (λ n. drop n written) (omega arith)
      ∙ drop-drop (topic_maxlen * i) topic_maxlen written
      ∙ ap (drop topic_maxlen)
          (drop-write_at topics (topic_maxlen * i) bytes h ∙ append_assoc topic (0 ∷ []) rest)
      ∙ drop-append topic (0 ∷ rest) topic_maxlen e)

-- an entry that is made empty is found again
find_empty-set :
    (subs : List Subscription) (i k : ℕ)
    → i < length subs
    → find_empty (set subs i zero_subscription) k ≤ k + i
unfolding find_empty
find_empty-set [] i k h = absurd (omega arith)
find_empty-set (s ∷ subs) zero k h = omega arith
find_empty-set (s ∷ subs) (suc i) k h = ground (arith, find_empty-set subs i (k + 1) (omega arith))

module _ {W : Type 0} (em : Emcute W) (m : Mqtt W) (cmd topic : Text) where
  -- what cmd_sub_1 leaves in the table when it finds an empty entry
  cmd_sub_1-topics :
      length topic ≤ topic_maxlen
      → find_empty m.subscriptions 0 < num_of_subs
      → (cmd_sub_1 em (cmd ∷ topic ∷ []) m).1.topics
        ≡ copy_topic m.topics (find_empty m.subscriptions 0) topic
  unfolding cmd_sub_1 subscribe
  cmd_sub_1-topics h k = ground arith

  -- A subscription to a topic of less than 64 bytes, none of them 0, when the table of 16 rows of
  -- 64 bytes has an empty entry: the topic is what the row of the first empty entry then holds, and every byte of the
  -- table outside that row is as it was.
  cmd_sub_1-row :
      (j : ℕ)
      → length m.topics ≡ topic_maxlen * num_of_subs
      → All (λ x. x ≢ 0) topic
      → length topic < topic_maxlen
      → find_empty m.subscriptions 0 < num_of_subs
      → (j < topic_maxlen * find_empty m.subscriptions 0)
        ⊎ (topic_maxlen * (find_empty m.subscriptions 0 + 1) ≤ j)
      → let i = find_empty m.subscriptions 0 in
        let topics = (cmd_sub_1 em (cmd ∷ topic ∷ []) m).1.topics in
        (topic_name topics i ≡ topic) × (get_or topics j 0 ≡ get_or m.topics j 0)
  unfolding copy_topic
  cmd_sub_1-row j size nz h k outside =
      let i = find_empty m.subscriptions 0 in
      let bound : topic_maxlen * i + length (topic ++ (0 ∷ [])) ≤ topic_maxlen * (i + 1) =
        omega (arith, length-append topic (0 ∷ [])) in
      rw (cmd_sub_1-topics (omega arith) k) (
        topic_name-copy_topic m.topics i topic (omega arith) nz,
        get_or-write_at m.topics (topic_maxlen * i) (topic ++ (0 ∷ [])) j
            (elim outside [ inl b ↦ inl b | inr b ↦ inr (omega arith) ]),
      )

  -- A topic of exactly 64 bytes, none of them 0, when the table of 16 rows of 64 bytes has an empty
  -- entry: it passes the test of its length, and its NUL is written into the row after its own: the topic of the next entry is then the empty string.
  pub cmd_sub_1-overrun :
      length m.topics ≡ topic_maxlen * num_of_subs
      → All (λ x. x ≢ 0) topic
      → length topic ≡ topic_maxlen
      → find_empty m.subscriptions 0 < num_of_subs
      → let i = find_empty m.subscriptions 0 in
        let topics = (cmd_sub_1 em (cmd ∷ topic ∷ []) m).1.topics in
        (topic_name topics i ≡ topic) × (topic_name topics (i + 1) ≡ [])
  cmd_sub_1-overrun size nz e k =
      let i = find_empty m.subscriptions 0 in
      rw (cmd_sub_1-topics (omega arith) k) (
        topic_name-copy_topic m.topics i topic (omega arith) nz,
        topic_name-copy_topic_next m.topics i topic (omega arith) e,
      )

choice-bound :
    (b : Bool) (rest : Option ℕ) (i k n : ℕ)
    → (rest ≡ some i → (k + 1 ≤ i) × (i < k + 1 + n))
    → (if b then some k else rest) ≡ some i
    → (k ≤ i) × (i < k + suc n)
choice-bound true rest i k n ih e = ground arith
choice-bound false rest i k n ih e = let h = ih e in omega arith

find_topic-bound :
    (topics : List ℕ) (name : Text) (subs : List Subscription) (i k : ℕ)
    → find_topic topics name subs k ≡ some i
    → (k ≤ i) × (i < k + length subs)
unfolding find_topic
find_topic-bound topics name [] i k e = absurd (cc)
find_topic-bound topics name (s ∷ subs) i k e =
    choice-bound _ _ i k (length subs) (find_topic-bound topics name subs i (k + 1)) e

module _ {W : Type 0} (em : Emcute W) (m : Mqtt W) (cmd topic : Text) where
  -- cmd_unsub of a topic that entry `i` has, when the broker accepts it: the entry is free, so
  -- that the next subscription takes it or one before it.
  cmd_unsub_frees :
      (i : ℕ)
      → find_topic m.topics topic m.subscriptions 0 ≡ some i
      → (em.unsub i m.world).0 ≡ em.ok
      → let after = (cmd_unsub em (cmd ∷ topic ∷ []) m).1 in
        (find_empty after.subscriptions 0 ≤ i) × (after.topics ≡ m.topics)
  unfolding cmd_unsub unsubscribe
  cmd_unsub_frees i found ok =
      let bound = find_topic-bound m.topics topic m.subscriptions i 0 found in
      let freed = find_empty-set m.subscriptions i 0 (omega arith) in
      let accepted : eqb_ℤ (em.unsub i m.world).0 em.ok ≡ true = rw ok (ground arith) in
      rw (found, unsubscribe, accepted) (omega arith, refl)
