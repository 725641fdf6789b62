-- ===== src/Sse/Delivery.antt =====
-- Whom a message reaches.
use gitarena.Prelude.{
  ◌≡◌, ◌⊎◌, refl, sym, inl, inr, true, false, unwrap_or, List, [], ◌∷◌, ◌++◌, Text, Bytes, codes,
  to_bytes, map,
}
use mathlib.Core.Path.{subst}
use gitarena.Sse.Channel.{Channels, ChannelLaws, has_room, try_send_lem}
use gitarena.Sse.{Category, admin_log, Client, Broadcaster, notify, event, send, is_same, display}

module _ (C : Channels) (laws : ChannelLaws C) where
  -- What a message does to a client: where its receiver is there and there is room, the message is
  -- behind those in the buffer; else the client is as before.
  abbrev pub Reached : Bytes → Client C → Client C → Type 0
  Reached bytes (tx, c) (rx, d) =
      (d ≡ c)
      × (((has_room C tx ≡ true)
            × (C.queued rx ≡ C.queued tx ++ bytes ∷ [])
            × (C.capacity rx ≡ C.capacity tx)
            × (C.is_open rx ≡ true))
          ⊎ ((has_room C tx ≡ false) × (rx ≡ tx)))

  -- The same clients, in order, each of them reached.
  abbrev pub AllReached : Bytes → List (Client C) → List (Client C) → Type 0
  AllReached bytes [] after = after ≡ []
  AllReached bytes (client ∷ before) [] = ⊥
  AllReached bytes (client ∷ before) (client' ∷ after) =
      Reached bytes client client' × AllReached bytes before after

  offered :
      (bytes : Bytes) (tx : C.Channel) (c : Category)
      → Reached bytes (tx, c) (unwrap_or tx (C.try_send bytes tx), c)
  offered bytes tx c = elim (try_send_lem C laws bytes tx) [
    | inl (e, r) ↦
        subst (λ o. Reached bytes (tx, c) (unwrap_or tx o, c)) (sym e) (refl, inr (r, refl))
    | inr (d, e, t, r, l) ↦
        subst (λ o. Reached bytes (tx, c) (unwrap_or tx o, c)) (sym e)
          (refl, inl (r, t.queued, t.capacity, t.is_open))
  ]

  notified :
      (bytes : Bytes) (clients : List (Client C))
      → AllReached bytes clients (map (notify C admin_log bytes) clients)
  unfolding is_same
  notified bytes [] = refl
  notified bytes ((tx, admin_log) ∷ clients) = (offered bytes tx admin_log, notified bytes clients)

  -- A message of the log is offered once to every client, in order: each whose receiver is there and
  -- that has room for it has the text `event: log`, a line `data: ` with the message and an empty line
  -- as the last in its buffer, every other is as before, and none is lost or added.
  pub send-AllReached :
      (message : Text) (b : Broadcaster C)
      → AllReached
          (to_bytes (codes "event: log\ndata: " ++ (message ++ codes "\n\n")))
          b.clients
          (send C admin_log message b).clients
  unfolding send display
  send-AllReached message b = notified (event admin_log message) b.clients
