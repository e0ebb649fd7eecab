-- ===== src/Realtime/Postgres/Listening.antt =====
-- Which topics are listened to, where every put follows its locked section at once.
use stranger_club.Base.{
  ℕ, ◌<◌, ◌≡◌, refl, String, true, ◌&&◌, some, List, [], ◌∷◌, ◌++◌, ◌==◌, eq_iff, arith, inl, inr,
  Bool-cases,
}
use stranger_club.Realtime.{topic_size, subscribe, has_channel, unsubscribe, publish}
use stranger_club.Realtime.Limits.{topic_size-deliver}
use stranger_club.Realtime.Postgres.{
  listen, unlisten, Listener, new_listener, lock_subscribe, lock_unsubscribe, put_pending,
  drain_commands, listens, connect, disconnect, is_in, is_listening, notify, resync_all, reconnect,
}
use stranger_club.Realtime.Postgres.Commands.{
  after, is_in-drain, after-append, after-listens, drained, put-once, put-nothing, is_full,
  lock_subscribe-full, lock_subscribe-first, lock_subscribe-later, topic_size-subscribe,
  lock_unsubscribe-last, lock_unsubscribe-other, topic_size-unsubscribe, topic_size-resync,
}

-- The listener thread and the clients, with nothing between a locked section and its put.
pub data Event : Type 0 where
  subscribes : String → Event
  unsubscribes : String → ℕ → Event
  drains : Event
  notifies : String → ℕ → Event
  breaks : Event
  reconnects : ℕ → Event

unfoldable pub happen : Event → Listener → Listener
happen (subscribes topic) s = put_pending 0 (lock_subscribe topic s)
happen (unsubscribes topic id) s = put_pending 0 (lock_unsubscribe topic id s)
happen drains s = drain_commands s
happen (notifies topic message) s = notify topic message s
happen breaks s = disconnect s
happen (reconnects message) s = reconnect message s

unfoldable pub happen_all : List Event → Listener → Listener
happen_all [] s = s
happen_all (e ∷ es) s = happen_all es (happen e s)

-- With a connection that works, every topic with a subscriber is listened to once the commands have
-- been executed, and no thread has still to put one.
record Listening (s : Listener) : Type 0 where
  pub quiet : s.pending ≡ []
  pub heard :
      (ts : List String)
      → s.connection ≡ some ts
      → (topic : String) → 0 < topic_size topic s.hub.subscribers
      → after s.commands topic (is_in topic ts) ≡ true

settled : (s : Listener) → Listening s → Listening (put_pending 0 s)
settled s h = rw (put-nothing s h.quiet) (record { quiet = refl; heard = h.heard })

subscribes-Listening :
    (topic : String) (s : Listener)
    → Listening s
    → Listening (put_pending 0 (lock_subscribe topic s))
unfolding after
subscribes-Listening topic s h = elim (Bool-cases (is_full topic s.hub)) [
  | inl full ↦ rw (lock_subscribe-full topic s full) (settled s h)
  | inr room ↦ elim (Bool-cases (topic_size topic s.hub.subscribers == 0)) [
    | inl first ↦
        rw
          (
            lock_subscribe-first topic s room first,
            put-once (record s { hub = (subscribe topic s.hub).1 }) (listen topic) h.quiet,
          )
          (record {
            quiet = refl;
            heard = λ ts up x some_one. ground (
              arith,
              after-append s.commands (listen topic ∷ []) x (is_in x ts),
              topic_size-subscribe x topic s.hub room,
              h.heard ts up x,
            );
          })
    | inr later ↦ rw (lock_subscribe-later topic s room later) (
        settled (record s { hub = (subscribe topic s.hub).1 })
          (record {
            quiet = h.quiet;
            heard = λ ts up x some_one.
                ground
                  (arith, eq_iff topic x, topic_size-subscribe x topic s.hub room, h.heard ts up x);
          }))
  ]
]

unsubscribes-Listening :
    (topic : String) (id : ℕ) (s : Listener)
    → Listening s
    → Listening (put_pending 0 (lock_unsubscribe topic id s))
unfolding after
unsubscribes-Listening topic id s h =
    elim (Bool-cases (
      has_channel topic id s.hub.subscribers
      && topic_size topic (unsubscribe topic id s.hub).subscribers == 0)) [
        | inl last ↦
            rw
              (
                lock_unsubscribe-last topic id s last,
                put-once (record s { hub = unsubscribe topic id s.hub }) (unlisten topic) h.quiet,
              )
              (record {
                quiet = refl;
                heard = λ ts up x some_one. ground (
                  arith,
                  last,
                  eq_iff topic x,
                  after-append s.commands (unlisten topic ∷ []) x (is_in x ts),
                  topic_size-unsubscribe x topic id s.hub,
                  h.heard ts up x,
                );
              })
        | inr other ↦ rw (lock_unsubscribe-other topic id s other) (
            settled (record s { hub = unsubscribe topic id s.hub })
              (record {
                quiet = h.quiet;
                heard = λ ts up x some_one.
                    h.heard ts up x
                      (omega (arith, some_one, topic_size-unsubscribe x topic id s.hub));
              }))
      ]

drains-Listening : (s : Listener) → Listening s → Listening (drain_commands s)
unfolding drain_commands after
drains-Listening s h = record {
  quiet = h.quiet;
  heard =
      λ ts up x some_one. drained s.commands s.connection x ts (λ us e. h.heard us e x some_one) up;
}

notifies-Listening :
    (topic : String) (m : ℕ) (s : Listener) → Listening s → Listening (notify topic m s)
unfolding notify publish
notifies-Listening topic m s h = elim (Bool-cases (is_listening topic s.connection)) [
  | inl hears ↦
      rw (hears, notify)
        (record {
          quiet = h.quiet;
          heard = λ ts up x some_one.
              h.heard ts up x
                (omega (arith, some_one, topic_size-deliver x topic m s.hub.subscribers));
        })
  | inr deaf ↦ rw (deaf, notify) h
]

-- The topics of a new connection are those with a subscriber, whatever was on the queue.
pub reconnect-hears :
    (m : ℕ) (s : Listener) (topic : String)
    → 0 < topic_size topic (reconnect m s).hub.subscribers
    → is_listening topic (reconnect m s).connection ≡ true
unfolding reconnect resync_all drain_commands connect
reconnect-hears m s topic some_one = cc (
  is_in-drain (s.commands ++ listens s.hub.subscribers) topic [],
  after-append s.commands (listens s.hub.subscribers) topic (is_in topic []),
  after-listens s.hub.subscribers topic (after s.commands topic (is_in topic []))
      (omega (arith, some_one, topic_size-resync topic m s.hub.subscribers)),
)

happen-Listening : (e : Event) (s : Listener) → Listening s → Listening (happen e s)
unfolding happen reconnect resync_all drain_commands connect after
happen-Listening (subscribes topic) s h = subscribes-Listening topic s h
happen-Listening (unsubscribes topic id) s h = unsubscribes-Listening topic id s h
happen-Listening drains s h = drains-Listening s h
happen-Listening (notifies topic message) s h = notifies-Listening topic message s h
happen-Listening breaks s h = record { quiet = h.quiet; heard = λ ts up. absurd (cc up) }
happen-Listening (reconnects message) s h = record {
  quiet = h.quiet;
  heard = λ ts up x some_one. cc (up, reconnect-hears message s x some_one);
}

happen_all-Listening : (es : List Event) (s : Listener) → Listening s → Listening (happen_all es s)
unfolding happen_all
happen_all-Listening [] s h = h
happen_all-Listening (e ∷ es) s h = happen_all-Listening es (happen e s) (happen-Listening e s h)

-- However clients subscribe and unsubscribe, commands are executed and the connection is lost and
-- opened again, where every put follows its locked section at once: with the connection open, a
-- notification for a topic that has a subscriber, sent after the waiting commands were executed, is
-- delivered to the subscribers.
pub happen_all-delivers :
    (es : List Event) (topic : String) (message : ℕ) (ts : List String)
    → (drain_commands (happen_all es new_listener)).connection ≡ some ts
    → 0 < topic_size topic (happen_all es new_listener).hub.subscribers
    → (notify topic message (drain_commands (happen_all es new_listener))).hub
      ≡ publish topic message (happen_all es new_listener).hub
unfolding drain_commands notify topic_size after
happen_all-delivers es topic message ts up some_one =
    let h = drains-Listening (happen_all es new_listener) (
      happen_all-Listening es new_listener
        (record { quiet = refl; heard = λ us e x none_yet. absurd (omega (arith, none_yet)) })) in
    rw (up, h.heard ts up topic some_one, notify) refl
