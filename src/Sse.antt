-- ===== src/Sse.antt =====
-- src/sse.rs: the broadcaster of server-sent events. The lock around it makes each operation one step.
pub mod Channel
pub mod Delivery
pub mod Stale
mod Tests
use gitarena.Prelude.{
  ℕ, zero, suc, Bool, true, Option, none, some, List, [], ◌∷◌, ◌++◌, Text, Bytes, codes, to_bytes,
  length, map, is_empty, unwrap_or, if◌then◌else◌,
}
use gitarena.Error.{Result, ok, err, panic}
use gitarena.Sse.Channel.{Channels, Poll}

abbrev pub sse_buffer_size : ℕ
sse_buffer_size = 512

pub data Category : Type 0 where
  admin_log : Category

-- `Display` and `PartialEq`
unfoldable pub display : Category → Text
display admin_log = codes "log"

unfoldable pub is_same : Category → Category → Bool
is_same admin_log admin_log = true

abbrev pub ping : Bytes
ping = to_bytes (codes "event: ping\ndata: pong!\n\n")

abbrev pub event : Category → Text → Bytes
event category message =
    to_bytes
      (codes "event: " ++ (display category ++ (codes "\ndata: " ++ (message ++ codes "\n\n"))))

module _ (C : Channels) where
  abbrev pub Client : Type 0
  Client = C.Channel × Category

  pub record Broadcaster : Type 0 where
    pub clients : List Client

  -- `Broadcaster::default`
  abbrev pub nobody : Broadcaster
  nobody = record { clients = [] }

  abbrev pub push : Broadcaster → Category → Result C.Channel → Result Broadcaster
  push b category (ok tx) = ok (record { clients = b.clients ++ (tx, category) ∷ [] })
  push b category (err e) = err e
  push b category panic = panic

  -- The receiver of the last channel is that of the new client.
  unfoldable pub new_client : Category → Broadcaster → Result Broadcaster
  new_client category b =
      push b category (C.send (to_bytes (codes "data: connected\n\n")) (C.channel sse_buffer_size))

  -- An error of `try_send` is ignored.
  abbrev pub notify : Category → Bytes → Client → Client
  notify category bytes (tx, c) =
      if is_same c category then (unwrap_or tx (C.try_send bytes tx), c) else (tx, c)

  unfoldable pub send : Category → Text → Broadcaster → Broadcaster
  send category message b = record {
    clients = map (notify category (event category message)) b.clients;
  }

  abbrev pub keep : Category → Option C.Channel → List Client → List Client
  keep category none rest = rest
  keep category (some tx) rest = (tx, category) ∷ rest

  unfoldable pub retain_live : List Client → List Client
  retain_live [] = []
  retain_live ((tx, category) ∷ rest) = keep category (C.try_send ping tx) (retain_live rest)

  unfoldable pub remove_stale_clients : Broadcaster → Broadcaster
  remove_stale_clients b = record { clients = retain_live b.clients }

  unfoldable pub len : Broadcaster → ℕ
  len b = length b.clients

  unfoldable pub no_clients : Broadcaster → Bool
  no_clients b = is_empty b.clients

  -- `SseClient::poll_next` passes on what the receiver gives.
  unfoldable pub poll_next : C.Channel → Poll × C.Channel
  poll_next rx = C.poll_recv rx
