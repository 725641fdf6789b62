-- ===== src/Samples/Queue.antt =====
-- A channel for the tests: the messages in its buffer, its capacity, and whether its receiver is there.
use gitarena.Prelude.{
  ℕ, ◌≡◌, refl, Bool, true, false, ltb, Option, none, some, List, [], ◌∷◌, ◌++◌, Bytes, length,
  arith, ◌&&◌, if◌then◌else◌,
}
use gitarena.Error.{Result, ok, err, other}
use gitarena.Sse.Channel.{Channels, ChannelLaws, Poll, ready, pending, Takes, Drains}

pub record Queue : Type 0 where
  pub messages : List Bytes
  pub room : ℕ
  pub is_listening : Bool

abbrev accept : Bytes → Queue → Queue
accept b q = record q { messages = q.messages ++ b ∷ [] }

abbrev offer : Bytes → Queue → Option Queue
offer b q = if q.is_listening && ltb (length q.messages) q.room then some (accept b q) else none

abbrev deliver : Bytes → Queue → Result Queue
deliver b q = if q.is_listening then ok (accept b q) else err other

abbrev receive : ℕ → Bool → List Bytes → Poll × Queue
receive n o [] = (pending, record { messages = []; room = n; is_listening = o })
receive n o (b ∷ bs) = (ready (some b), record { messages = bs; room = n; is_listening = o })

abbrev pub sample_channels : Channels
sample_channels = record {
  Channel = Queue;
  channel = λ n. record { messages = []; room = n; is_listening = true };
  try_send = offer;
  send = deliver;
  poll_recv = λ q. receive q.room q.is_listening q.messages;
  close = λ q. record { messages = []; room = q.room; is_listening = false };
  queued = λ q. q.messages;
  capacity = λ q. q.room;
  is_open = λ q. q.is_listening;
}

accept-Takes :
    (b : Bytes) (q : Queue) → q.is_listening ≡ true → Takes sample_channels b q (accept b q)
accept-Takes b q o = record { queued = refl; capacity = refl; is_open = o }

receive-Drains :
    (n : ℕ) (o : Bool) (ms : List Bytes)
    → Drains sample_channels
        (record { messages = ms; room = n; is_listening = o })
        (receive n o ms).1
receive-Drains n o [] = record { queued = omega arith; capacity = refl }
receive-Drains n o (m ∷ ms) = record { queued = omega arith; capacity = refl }

pub sample_channels-ChannelLaws : ChannelLaws sample_channels
sample_channels-ChannelLaws = record {
  queued-channel = λ n. refl;
  capacity-channel = λ n. refl;
  is_open-channel = λ n. refl;
  try_send-takes = λ b q o l. (accept b q, ground arith, accept-Takes b q o);
  try_send-full = λ b q g. ground arith;
  try_send-closed = λ b q o. ground arith;
  send-takes = λ b q o l. (accept b q, ground arith, accept-Takes b q o);
  poll_recv-drains = λ q. receive-Drains q.room q.is_listening q.messages;
  close-drains = λ q. record { queued = omega arith; capacity = refl };
}
