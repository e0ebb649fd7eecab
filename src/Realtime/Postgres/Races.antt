-- ===== src/Realtime/Postgres/Races.antt =====
-- The listener of the fanout where it fails and where it recovers: a put that is overtaken by the
-- put of another thread, and the start of a new connection.
use stranger_club.Base.{
  ℕ, ◌<◌, ◌≡◌, refl, String, true, false, Option, none, some, List, [], ◌∷◌, ◌++◌, eq_iff, arith,
}
use stranger_club.Realtime.{Channel, size, topic_size, subscribe, has_channel, unsubscribe}
use stranger_club.Realtime.Postgres.{
  Command, Listener, listen, unlisten, lock_subscribe, lock_unsubscribe, put_pending, drain,
  drain_commands, execute?, connect, is_listening, resync_channels, resync_all, reconnect,
}
use stranger_club.Realtime.Postgres.Listening.{reconnect-hears}
use stranger_club.Realtime.Postgres.Commands.{
  topic_size-subscribe, lock_subscribe-first, lock_unsubscribe-last, is_full, is_in-without,
}
use stranger_club.Realtime.Limits.{size-snoc}

-- Every subscriber has something to read.
abbrev pub AllWoken : List Channel → Type 0
AllWoken [] = Unit
AllWoken (c ∷ cs) = (0 < size c.messages) × AllWoken cs

resync_channels-AllWoken : (m : ℕ) (cs : List Channel) → AllWoken (resync_channels m cs)
unfolding resync_channels size
resync_channels-AllWoken m [] = tt
resync_channels-AllWoken m (c ∷ cs) =
    (ground (arith, size-snoc c.messages m), resync_channels-AllWoken m cs)

-- Whatever happened before, also if puts overtook each other and commands were lost: once a new
-- connection has started, every topic with a subscriber is listened to, and every subscriber has a
-- message to read.
pub reconnect-recovers :
    (message : ℕ) (s : Listener)
    → ((topic : String)
        → 0 < topic_size topic (reconnect message s).hub.subscribers
        → is_listening topic (reconnect message s).connection ≡ true)
      × AllWoken (reconnect message s).hub.subscribers
unfolding reconnect resync_all drain_commands connect
reconnect-recovers message s =
    (reconnect-hears message s, resync_channels-AllWoken message s.hub.subscribers)

-- The last subscriber of a topic leaves and another comes, and the second thread puts first.
unfoldable pub overtake : String → ℕ → Listener → Listener
overtake topic id s =
    put_pending 0 (put_pending 1 (lock_subscribe topic (lock_unsubscribe topic id s)))

overtake-end :
    (topic : String) (id : ℕ) (s : Listener)
    → s.pending ≡ []
    → has_channel topic id s.hub.subscribers ≡ true
    → topic_size topic (unsubscribe topic id s.hub).subscribers ≡ 0
    → is_full topic (unsubscribe topic id s.hub) ≡ false
    → overtake topic id s ≡ record s {
      hub = (subscribe topic (unsubscribe topic id s.hub)).1;
      pending = [];
      commands = (s.commands ++ listen topic ∷ []) ++ unlisten topic ∷ [];
    }
unfolding overtake put_pending
overtake-end topic id s quiet last gone room =
    rw
      (
        lock_unsubscribe-last topic id s (ground (arith, last, gone)),
        lock_subscribe-first topic
            (record s {
              hub = unsubscribe topic id s.hub;
              pending = s.pending ++ unlisten topic ∷ [];
            })
            room (ground (arith, gone)),
        quiet,
      )
      refl

drain-last :
    (c : Command) (cs : List Command) (connection : Option (List String))
    → drain (cs ++ c ∷ []) connection ≡ execute? c (drain cs connection)
unfolding drain
drain-last c [] connection = refl
drain-last c (d ∷ cs) connection = drain-last c cs (execute? d connection)

unlisten-Deaf :
    (topic : String) (connection : Option (List String))
    → is_listening topic (execute? (unlisten topic) connection) ≡ false
unlisten-Deaf topic none = refl
unlisten-Deaf topic (some ts) = ground (arith, eq_iff topic topic, is_in-without topic topic ts)

-- In every state in which no thread has a put to make: if the last subscriber of a topic leaves
-- and another, for which there is room, comes, and the LISTEN of the second is put on the queue
-- before the UNLISTEN of the first, then, once the commands are executed, the topic has a
-- subscriber and is not listened to, and no command or put is left that would repair it.
pub overtake-Deaf :
    (topic : String) (id : ℕ) (s : Listener)
    → s.pending ≡ []
    → has_channel topic id s.hub.subscribers ≡ true
    → topic_size topic (unsubscribe topic id s.hub).subscribers ≡ 0
    → is_full topic (unsubscribe topic id s.hub) ≡ false
    → let end = drain_commands (overtake topic id s) in
      topic_size topic end.hub.subscribers ≡ 1
      × is_listening topic end.connection ≡ false
      × end.commands ≡ []
      × end.pending ≡ []
unfolding drain_commands
overtake-Deaf topic id s quiet last gone room = rw (overtake-end topic id s quiet last gone room) (
  ground (
    arith,
    eq_iff topic topic,
    topic_size-subscribe topic topic (unsubscribe topic id s.hub) room,
    gone,
  ),
  rw (drain-last (unlisten topic) (s.commands ++ listen topic ∷ []) s.connection)
      (unlisten-Deaf topic (drain (s.commands ++ listen topic ∷ []) s.connection)),
  refl,
  refl,
)
