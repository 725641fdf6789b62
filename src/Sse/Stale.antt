-- ===== src/Sse/Stale.antt =====
-- Which clients the task that pings keeps.
use gitarena.Prelude.{
  Bytes, true, ◌≡◌, refl, sym, Bool, List, [], ◌∷◌, ◌++◌, length, count, All, arith, inl, inr,
}
use mathlib.Core.Path.{subst}
use gitarena.Sse.Channel.{Channels, ChannelLaws, has_room, try_send_lem}
use gitarena.Sse.{Client, Broadcaster, keep, retain_live, remove_stale_clients, len, ping}

module _ (C : Channels) (laws : ChannelLaws C) where
  abbrev pub is_live : Client C → Bool
  is_live (tx, c) = has_room C tx

  -- That a client is there and has been pinged last.
  abbrev pub IsPinged : Client C → Type 0
  IsPinged (tx, c) = (C.is_open tx ≡ true) × ((q : List Bytes) × (C.queued tx ≡ q ++ ping ∷ []))

  retain_live-IsPinged :
      (clients : List (Client C))
      → All IsPinged (retain_live C clients)
        × (length (retain_live C clients) ≡ count is_live clients)
  unfolding retain_live
  retain_live-IsPinged [] = (tt, refl)
  retain_live-IsPinged ((tx, c) ∷ rest) =
      let (pinged, counted) = retain_live-IsPinged rest in
      elim (try_send_lem C laws ping tx) [
        | inl (e, r) ↦ (
          subst (λ o. All IsPinged (keep C c o (retain_live C rest))) (sym e) pinged,
          ground arith,
        )
        | inr (d, e, t, r, l) ↦ (
          subst (λ o. All IsPinged (keep C c o (retain_live C rest))) (sym e)
              ((t.is_open, (C.queued tx, t.queued)), pinged),
          ground arith,
        )
      ]

  -- A round of pings keeps exactly as many clients as are connected and have room for a message, and
  -- each of those it keeps is connected and has the ping as the last message in its buffer.
  pub remove_stale_clients-IsPinged :
      (b : Broadcaster C)
      → All IsPinged (remove_stale_clients C b).clients
        × (len C (remove_stale_clients C b) ≡ count is_live b.clients)
  unfolding remove_stale_clients len
  remove_stale_clients-IsPinged b = retain_live-IsPinged b.clients
