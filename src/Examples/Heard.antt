-- ===== src/Examples/Heard.antt =====
-- What the theorems on the fanout and on the validators say of concrete events and texts.
use stranger_club.Base.{◌<◌, ◌≡◌, refl, String, true, false, some, List, [], ◌∷◌, arith}
use stranger_club.Realtime.{size, topic_size, subscribe, unsubscribe, discard, has_channel, publish}
use stranger_club.Realtime.Postgres.{
  resync_all, lock_unsubscribe, resync_channels, listens, without, Listener, new_listener,
  lock_subscribe, put_pending, drain, drain_commands, is_listening, notify, reconnect, connect,
}
use stranger_club.Realtime.Postgres.Listening.{
  Event, subscribes, unsubscribes, drains, breaks, reconnects, happen, happen_all,
  happen_all-delivers,
}
use stranger_club.Realtime.Postgres.Races.{AllWoken, overtake, overtake-Deaf, reconnect-recovers}

-- A subscriber comes before the connection, which is lost and opened again; another leaves.
abbrev events : List Event
events =
    subscribes "event-1"
    ∷ reconnects 0
    ∷ subscribes "event-2"
    ∷ drains
    ∷ breaks
    ∷ unsubscribes "event-2" 1
    ∷ reconnects 0
    ∷ []

happen_all-delivers_example :
    (notify "event-1" 5 (drain_commands (happen_all events new_listener))).hub
    ≡ publish "event-1" 5 (happen_all events new_listener).hub
unfolding happen_all happen drain_commands drain reconnect resync_all connect put_pending
    lock_unsubscribe has_channel lock_subscribe subscribe topic_size resync_channels size
    unsubscribe discard listens without
happen_all-delivers_example =
    happen_all-delivers events "event-1" 5 ("event-1" ∷ []) refl (omega arith)

-- One subscriber, whose topic is listened to.
abbrev settled_listener : Listener
settled_listener = record {
  hub = record {
    subscribers = record { topic = "event-1"; id = 0; messages = [] } ∷ [];
    total = 1;
    next_id = 1;
  };
  pending = [];
  commands = [];
  connection = some ("event-1" ∷ []);
}

overtake-Deaf_example :
    let end = drain_commands (overtake "event-1" 0 settled_listener) in
    topic_size "event-1" end.hub.subscribers ≡ 1
    × is_listening "event-1" end.connection ≡ false
    × end.commands ≡ []
    × end.pending ≡ []
unfolding has_channel topic_size unsubscribe discard
overtake-Deaf_example = overtake-Deaf "event-1" 0 settled_listener refl refl refl refl

reconnect-recovers_example :
    let end = reconnect 9 (drain_commands (overtake "event-1" 0 settled_listener)) in
    ((topic : String)
      → 0 < topic_size topic end.hub.subscribers
      → is_listening topic end.connection ≡ true)
    × AllWoken end.hub.subscribers
reconnect-recovers_example =
    reconnect-recovers 9 (drain_commands (overtake "event-1" 0 settled_listener))
