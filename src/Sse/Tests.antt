-- ===== src/Sse/Tests.antt =====
-- Tests of the broadcaster.
use gitarena.Prelude.{◌≡◌, ◌++◌, ◌∷◌, [], true, false, All, codes, to_bytes, count}
use gitarena.Samples.{sample_channels, sample_channels-ChannelLaws}
use gitarena.Sse.{Broadcaster, ping, admin_log, send, remove_stale_clients, len}
use gitarena.Sse.Delivery.{AllReached, send-AllReached}
use gitarena.Sse.Stale.{remove_stale_clients-IsPinged, IsPinged, is_live}
use gitarena.Prelude.{count}

-- One client is there with room for a message, one without, and one is gone.
abbrev crowd : Broadcaster sample_channels
crowd = record {
  clients =
      (record { messages = []; room = 2; is_listening = true }, admin_log)
      ∷ (record { messages = ping ∷ []; room = 1; is_listening = true }, admin_log)
      ∷ (record { messages = []; room = 2; is_listening = false }, admin_log)
      ∷ [];
}

send-AllReached_example :
    AllReached sample_channels sample_channels-ChannelLaws
      (to_bytes (codes "event: log\ndata: " ++ (codes "started" ++ codes "\n\n")))
      crowd.clients
      (send sample_channels admin_log (codes "started") crowd).clients
send-AllReached_example =
    send-AllReached sample_channels sample_channels-ChannelLaws (codes "started") crowd

remove_stale_clients-IsPinged_example :
    All
      (IsPinged sample_channels sample_channels-ChannelLaws)
      (remove_stale_clients sample_channels crowd).clients
    × (len sample_channels (remove_stale_clients sample_channels crowd)
        ≡ count (is_live sample_channels sample_channels-ChannelLaws) crowd.clients)
remove_stale_clients-IsPinged_example =
    remove_stale_clients-IsPinged sample_channels sample_channels-ChannelLaws crowd
