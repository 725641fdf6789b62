-- ===== src/Sse/Channel.antt =====
-- The bounded channels of the crate `tokio` (`tokio::sync::mpsc`): an interface with the documented
-- behaviour that src/sse.rs relies on.
use gitarena.Prelude.{
  inl, inr, ◌⊎◌, ltb, ◌&&◌, Bool-cases, arith, ℕ, ◌<◌, ◌≤◌, ◌≡◌, Bool, true, false, Option, none,
  some, List, [], ◌∷◌, ◌++◌, Bytes, length,
}
use gitarena.Error.{Result, ok}

-- `Poll<Option<Bytes>>`
pub data Poll : Type 0 where
  ready : Option Bytes → Poll
  pending : Poll

-- A value of `Channel` is the state that both ends share: the messages in the buffer, how many fit,
-- and whether the receiver is there. `try_send` fails if the buffer is full or the receiver gone;
-- `send` waits for room. `poll_recv` takes the oldest message out, and `close` is what happens when
-- the receiver is dropped.
pub record Channels : Type 1 where
  pub Channel : Type 0
  pub channel : ℕ → Channel
  pub try_send : Bytes → Channel → Option Channel
  pub send : Bytes → Channel → Result Channel
  pub poll_recv : Channel → Poll × Channel
  pub close : Channel → Channel
  pub queued : Channel → List Bytes
  pub capacity : Channel → ℕ
  pub is_open : Channel → Bool

-- That a channel has taken a message in.
pub record Takes (C : Channels) (b : Bytes) (before after : C.Channel) : Type 0 where
  pub queued : C.queued after ≡ C.queued before ++ b ∷ []
  pub capacity : C.capacity after ≡ C.capacity before
  pub is_open : C.is_open after ≡ true

-- That a receiver has at most taken messages out.
pub record Drains (C : Channels) (before after : C.Channel) : Type 0 where
  pub queued : length (C.queued after) ≤ length (C.queued before)
  pub capacity : C.capacity after ≡ C.capacity before

pub record ChannelLaws (C : Channels) : Type 0 where
  pub queued-channel : (n : ℕ) → C.queued (C.channel n) ≡ []
  pub capacity-channel : (n : ℕ) → C.capacity (C.channel n) ≡ n
  pub is_open-channel : (n : ℕ) → C.is_open (C.channel n) ≡ true
  pub try_send-takes :
      (b : Bytes) (c : C.Channel)
      → C.is_open c ≡ true
      → length (C.queued c) < C.capacity c
      → (d : C.Channel) × (C.try_send b c ≡ some d) × Takes C b c d
  pub try_send-full :
      (b : Bytes) (c : C.Channel) → C.capacity c ≤ length (C.queued c) → C.try_send b c ≡ none
  pub try_send-closed : (b : Bytes) (c : C.Channel) → C.is_open c ≡ false → C.try_send b c ≡ none
  pub send-takes :
      (b : Bytes) (c : C.Channel)
      → C.is_open c ≡ true
      → length (C.queued c) < C.capacity c
      → (d : C.Channel) × (C.send b c ≡ ok d) × Takes C b c d
  pub poll_recv-drains : (c : C.Channel) → Drains C c (C.poll_recv c).1
  pub close-drains : (c : C.Channel) → Drains C c (C.close c)

lt_or_le : (a b : ℕ) → (a < b) ⊎ (b ≤ a)
lt_or_le a b = elim (Bool-cases (ltb a b)) [
  | inl h ↦ inl (ground arith)
  | inr h ↦ inr (ground arith)
]

module _ (C : Channels) where
  -- Whether the receiver is there and there is room for a message.
  abbrev pub has_room : C.Channel → Bool
  has_room tx = C.is_open tx && ltb (length (C.queued tx)) (C.capacity tx)

  -- A message is taken in where there is room, and nowhere else.
  pub try_send_lem :
      (laws : ChannelLaws C) (b : Bytes) (tx : C.Channel)
      → ((C.try_send b tx ≡ none) × (has_room tx ≡ false))
        ⊎ ((d : C.Channel) × (C.try_send b tx ≡ some d)
            × Takes C b tx d
            × (has_room tx ≡ true)
            × (length (C.queued tx) < C.capacity tx))
  try_send_lem laws b tx = elim (Bool-cases (C.is_open tx)) [
    | inl o ↦ elim (lt_or_le (length (C.queued tx)) (C.capacity tx)) [
      | inl l ↦ (let (d, e, t) = laws.try_send-takes b tx o l in inr (d, e, t, ground arith, l))
      | inr g ↦ inl (laws.try_send-full b tx g, ground arith)
    ]
    | inr o ↦ inl (laws.try_send-closed b tx o, ground arith)
  ]
