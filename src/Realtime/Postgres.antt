-- ===== src/Realtime/Postgres.antt =====
-- `PostgresBroadcaster` of backend/app/realtime.py: the subscribers of this process, the queue of
-- commands for the listener thread, and the topics that its connection listens to. What a thread does
-- under the lock is one step, and its put on the queue, which follows outside the lock, another.
pub mod Commands
pub mod Listening
pub mod Races
use stranger_club.Base.{
  ℕ, zero, suc, String, Bool, true, false, not, ◌&&◌, ◌||◌, Option, none, some, List, [], ◌∷◌, ◌++◌,
  ◌==◌, leb, ltb, str_eq, if◌then◌else◌,
}
use stranger_club.Realtime.{
  Channel, Broadcaster, new_broadcaster, max_subscribers_per_event, max_total_subscribers,
  queue_size, size, topic_size, subscribe, has_channel, unsubscribe, deliver, publish,
}

pub data Command : Type 0 where
  listen : String → Command
  unlisten : String → Command

-- `connection` has the topics of a connection that works; `pending` the commands that threads have
-- decided on under the lock and not yet put on the queue.
pub record Listener : Type 0 where
  pub hub : Broadcaster
  pub pending : List Command
  pub commands : List Command
  pub connection : Option (List String)

abbrev pub new_listener : Listener
new_listener = record { hub = new_broadcaster; pending = []; commands = []; connection = none }

-- A thread that asks for a LISTEN waits to put it; `is_new` is its `is_new_topic`.
abbrev pub ask_listen : Bool → Option ℕ → String → Listener → Listener
ask_listen is_new none topic s = s
ask_listen true (some id) topic s = record s { pending = s.pending ++ listen topic ∷ [] }
ask_listen false (some id) topic s = s

-- `subscribe` up to the end of the locked section.
unfoldable pub lock_subscribe : String → Listener → Listener
lock_subscribe topic s =
    let (id, hub) = subscribe topic s.hub in
    ask_listen (topic_size topic s.hub.subscribers == 0) id topic (record s { hub = hub })

-- `unsubscribe` up to the end of the locked section; `is_now_empty` asks for an UNLISTEN.
unfoldable pub lock_unsubscribe : String → ℕ → Listener → Listener
lock_unsubscribe topic id s =
    let hub = unsubscribe topic id s.hub in
    if has_channel topic id s.hub.subscribers && topic_size topic hub.subscribers == 0
    then record s { hub = hub; pending = s.pending ++ unlisten topic ∷ [] }
    else record s { hub = hub }

abbrev pub take_at {ℓ} : {A : Type ℓ} → ℕ → List A → List A × List A
take_at n [] = ([], [])
take_at zero (x ∷ xs) = (x ∷ [], xs)
take_at (suc n) (x ∷ xs) = let (taken, rest) = take_at n xs in (taken, x ∷ rest)

-- `self._commands.put(...)` of one of the threads that wait to do it.
unfoldable pub put_pending : ℕ → Listener → Listener
put_pending n s =
    let (taken, rest) = take_at n s.pending in
    record s { pending = rest; commands = s.commands ++ taken }

-- LISTEN and UNLISTEN
unfoldable pub without : String → List String → List String
without topic [] = []
without topic (t ∷ ts) = let rest = without topic ts in if str_eq t topic then rest else t ∷ rest

abbrev pub execute : Command → List String → List String
execute (listen topic) topics = topic ∷ topics
execute (unlisten topic) topics = without topic topics

abbrev pub execute? : Command → Option (List String) → Option (List String)
execute? c none = none
execute? c (some topics) = some (execute c topics)

-- `_drain_commands`; on a broken connection the commands fail and are gone.
unfoldable pub drain : List Command → Option (List String) → Option (List String)
drain [] connection = connection
drain (c ∷ cs) connection = drain cs (execute? c connection)

unfoldable pub drain_commands : Listener → Listener
drain_commands s = record s { commands = []; connection = drain s.commands s.connection }

-- `list(self._subscribers.keys())`, each topic as often as it has subscribers, and the LISTENs.
unfoldable pub listens : List Channel → List Command
listens [] = []
listens (c ∷ cs) = listen c.topic ∷ listens cs

-- The head of `_run`: a new connection, and a LISTEN for every topic that is subscribed to.
unfoldable pub connect : Listener → Listener
connect s = record s { commands = s.commands ++ listens s.hub.subscribers; connection = some [] }

abbrev pub disconnect : Listener → Listener
disconnect s = record s { connection = none }

unfoldable pub is_in : String → List String → Bool
is_in topic [] = false
is_in topic (t ∷ ts) = str_eq t topic || is_in topic ts

abbrev pub is_listening : String → Option (List String) → Bool
is_listening topic none = false
is_listening topic (some topics) = is_in topic topics

-- A NOTIFY of the database for a topic, which `_handle_notify` hands to the subscribers; the database
-- sends it only to connections that listen.
unfoldable pub notify : String → ℕ → Listener → Listener
notify topic message s =
    if is_listening topic s.connection then record s { hub = publish topic message s.hub } else s

-- `_resync_all`; a queue that is full is left alone. The message stands for RESYNC.
unfoldable pub resync_channels : ℕ → List Channel → List Channel
resync_channels message [] = []
resync_channels message (c ∷ cs) =
    (if ltb (size c.messages) queue_size
      then record c { messages = c.messages ++ message ∷ [] }
      else c)
    ∷ resync_channels message cs

unfoldable pub resync_all : ℕ → Listener → Listener
resync_all message s = record s {
  hub = record s.hub { subscribers = resync_channels message s.hub.subscribers };
}

-- One connection of `_run` up to its inner loop.
unfoldable pub reconnect : ℕ → Listener → Listener
reconnect message s = resync_all message (drain_commands (connect s))
