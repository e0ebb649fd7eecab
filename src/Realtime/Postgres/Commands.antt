-- ===== src/Realtime/Postgres/Commands.antt =====
-- The commands of the listener: which topics are listened to once they have been executed, and what
-- the locked sections ask for.
use stranger_club.Base.{
  leb, ℕ, ◌+◌, ◌<◌, ◌≤◌, ◌≡◌, refl, String, Bool, true, false, not, ◌&&◌, ◌||◌, Option, none, some,
  List, [], ◌∷◌, ◌++◌, ◌==◌, str_eq, eq_iff, indicator, arith, inl, inr, Bool-cases,
}
use stranger_club.Realtime.{Channel, Broadcaster, topic_size, subscribe, has_channel, unsubscribe}
use stranger_club.Realtime.Limits.{topic_size-discard}
use stranger_club.Realtime.Postgres.{
  max_subscribers_per_event, max_total_subscribers, Command, listen, unlisten, Listener,
  lock_subscribe, lock_unsubscribe, put_pending, without, drain, listens, is_in, is_listening,
  resync_channels,
}

-- Whether a topic is listened to once the commands have been executed.
unfoldable pub after : List Command → String → Bool → Bool
after [] topic b = b
after (listen t ∷ cs) topic b = after cs topic (str_eq t topic || b)
after (unlisten t ∷ cs) topic b = after cs topic (not (str_eq t topic) && b)

pub is_in-without :
    (topic t : String) (ts : List String)
    → is_in topic (without t ts) ≡ (not (str_eq t topic) && is_in topic ts)
unfolding is_in without
is_in-without topic t [] = ground arith
is_in-without topic t (u ∷ ts) =
    ground (arith, eq_iff u t, eq_iff u topic, eq_iff t topic, is_in-without topic t ts)

pub is_in-drain :
    (cs : List Command) (topic : String) (ts : List String)
    → is_listening topic (drain cs (some ts)) ≡ after cs topic (is_in topic ts)
unfolding drain after is_in
is_in-drain [] topic ts = refl
is_in-drain (listen t ∷ cs) topic ts = is_in-drain cs topic (t ∷ ts)
is_in-drain (unlisten t ∷ cs) topic ts =
    rw (← is_in-without topic t ts) (is_in-drain cs topic (without t ts))

pub after-append :
    (cs ds : List Command) (topic : String) (b : Bool)
    → after (cs ++ ds) topic b ≡ after ds topic (after cs topic b)
unfolding after
after-append [] ds topic b = refl
after-append (listen t ∷ cs) ds topic b = after-append cs ds topic (str_eq t topic || b)
after-append (unlisten t ∷ cs) ds topic b = after-append cs ds topic (not (str_eq t topic) && b)

pub after-listens-true :
    (channels : List Channel) (topic : String) → after (listens channels) topic true ≡ true
unfolding after listens
after-listens-true [] topic = refl
after-listens-true (c ∷ cs) topic = ground (arith, after-listens-true cs topic)

pub after-listens :
    (channels : List Channel) (topic : String) (b : Bool)
    → 0 < topic_size topic channels
    → after (listens channels) topic b ≡ true
unfolding after listens topic_size
after-listens [] topic b h = absurd (omega (arith, h))
after-listens (c ∷ cs) topic b h = elim (Bool-cases (str_eq c.topic topic)) [
  | inl same ↦ ground (arith, same, after-listens-true cs topic)
  | inr other ↦ ground (arith, other, after-listens cs topic b (ground (arith, h, other)))
]

pub drain-none : (cs : List Command) → drain cs none ≡ none
unfolding drain
drain-none [] = refl
drain-none (c ∷ cs) = drain-none cs

pub drained :
    (cs : List Command) (connection : Option (List String)) (topic : String) (ts : List String)
    → ((us : List String) → connection ≡ some us → after cs topic (is_in topic us) ≡ true)
    → drain cs connection ≡ some ts
    → is_in topic ts ≡ true
drained cs none topic ts h up = absurd (cc (up, drain-none cs))
drained cs (some us) topic ts h up = cc (up, is_in-drain cs topic us, h us refl)

pub put-once :
    (s : Listener) (c : Command)
    → s.pending ≡ []
    → put_pending 0 (record s { pending = s.pending ++ c ∷ [] })
      ≡ record s { pending = []; commands = s.commands ++ c ∷ [] }
unfolding put_pending
put-once s c quiet = rw quiet refl

pub append-nothing : (cs : List Command) → cs ++ [] ≡ cs
append-nothing [] = refl
append-nothing (c ∷ cs) = rw (append-nothing cs) refl

pub put-nothing :
    (s : Listener)
    → s.pending ≡ []
    → put_pending 0 s ≡ record s { pending = []; commands = s.commands }
unfolding put_pending
put-nothing s quiet = rw (quiet, append-nothing s.commands) refl

-- What `lock_subscribe` does by case.
abbrev pub is_full : String → Broadcaster → Bool
is_full topic b =
    leb max_total_subscribers b.total
    || leb max_subscribers_per_event (topic_size topic b.subscribers)

pub lock_subscribe-full :
    (topic : String) (s : Listener) → is_full topic s.hub ≡ true → lock_subscribe topic s ≡ s
unfolding lock_subscribe subscribe
lock_subscribe-full topic s full = rw (full, lock_subscribe, subscribe) refl

pub lock_subscribe-first :
    (topic : String) (s : Listener)
    → is_full topic s.hub ≡ false
    → (topic_size topic s.hub.subscribers == 0) ≡ true
    → lock_subscribe topic s
      ≡ record s { hub = (subscribe topic s.hub).1; pending = s.pending ++ listen topic ∷ [] }
unfolding lock_subscribe subscribe
lock_subscribe-first topic s room first = rw (room, lock_subscribe, subscribe, first) refl

pub lock_subscribe-later :
    (topic : String) (s : Listener)
    → is_full topic s.hub ≡ false
    → (topic_size topic s.hub.subscribers == 0) ≡ false
    → lock_subscribe topic s ≡ record s { hub = (subscribe topic s.hub).1 }
unfolding lock_subscribe subscribe
lock_subscribe-later topic s room later = rw (room, lock_subscribe, subscribe, later) refl

pub topic_size-subscribe :
    (x topic : String) (b : Broadcaster)
    → is_full topic b ≡ false
    → topic_size x (subscribe topic b).1.subscribers
      ≡ indicator (str_eq topic x) + topic_size x b.subscribers
unfolding subscribe topic_size
topic_size-subscribe x topic b room = rw room refl

pub lock_unsubscribe-last :
    (topic : String) (id : ℕ) (s : Listener)
    → (has_channel topic id s.hub.subscribers
        && topic_size topic (unsubscribe topic id s.hub).subscribers == 0)
      ≡ true
    → lock_unsubscribe topic id s
      ≡ record s { hub = unsubscribe topic id s.hub; pending = s.pending ++ unlisten topic ∷ [] }
unfolding lock_unsubscribe
lock_unsubscribe-last topic id s last = rw (last, lock_unsubscribe) refl

pub lock_unsubscribe-other :
    (topic : String) (id : ℕ) (s : Listener)
    → (has_channel topic id s.hub.subscribers
        && topic_size topic (unsubscribe topic id s.hub).subscribers == 0)
      ≡ false
    → lock_unsubscribe topic id s ≡ record s { hub = unsubscribe topic id s.hub }
unfolding lock_unsubscribe
lock_unsubscribe-other topic id s other = rw (other, lock_unsubscribe) refl

pub topic_size-unsubscribe :
    (x topic : String) (id : ℕ) (b : Broadcaster)
    → topic_size x (unsubscribe topic id b).subscribers ≤ topic_size x b.subscribers
unfolding unsubscribe
topic_size-unsubscribe x topic id b = ground (arith, topic_size-discard x topic id b.subscribers)

pub topic_size-resync :
    (x : String) (m : ℕ) (cs : List Channel) → topic_size x (resync_channels m cs) ≡ topic_size x cs
unfolding resync_channels topic_size
topic_size-resync x m [] = refl
topic_size-resync x m (c ∷ cs) = ground (arith, topic_size-resync x m cs)
