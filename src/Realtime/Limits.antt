-- ===== src/Realtime/Limits.antt =====
-- The limits of the fanout over sequences of its operations.
use stranger_club.Base.{
  ℕ, suc, ◌+◌, ◌≤◌, ◌≡◌, refl, String, true, ◌||◌, List, [], ◌∷◌, ◌++◌, leb, str_eq, eq_iff, sym,
  subst, ◌∙◌, indicator, arith, inl, inr, Bool-cases,
}
use stranger_club.Realtime.{
  Channel, Broadcaster, new_broadcaster, max_subscribers_per_event, max_total_subscribers,
  queue_size, size, topic_size, subscribe, is_channel, has_channel, discard, unsubscribe, put,
  deliver, publish,
}

pub data Action : Type 0 where
  subscribes : String → Action
  unsubscribes : String → ℕ → Action
  publishes : String → ℕ → Action

unfoldable pub act : Action → Broadcaster → Broadcaster
act (subscribes topic) b = (subscribe topic b).1
act (unsubscribes topic id) b = unsubscribe topic id b
act (publishes topic message) b = publish topic message b

unfoldable pub act_all : List Action → Broadcaster → Broadcaster
act_all [] b = b
act_all (a ∷ actions) b = act_all actions (act a b)

-- Every queue holds at most 20 messages.
abbrev pub AllShort : List Channel → Type 0
AllShort [] = Unit
AllShort (c ∷ cs) = (size c.messages ≤ queue_size) × AllShort cs

pub record WithinLimits (b : Broadcaster) : Type 0 where
  pub counted : b.total ≡ size b.subscribers
  pub total : b.total ≤ max_total_subscribers
  pub topics : (topic : String) → topic_size topic b.subscribers ≤ max_subscribers_per_event
  pub queues : AllShort b.subscribers

pub size-snoc : (ms : List ℕ) (m : ℕ) → size (ms ++ m ∷ []) ≡ suc (size ms)
unfolding size
size-snoc [] m = refl
size-snoc (x ∷ ms) m = ground (arith, size-snoc ms m)

put-size : (m : ℕ) (ms : List ℕ) → size ms ≤ queue_size → size (put m ms) ≤ queue_size
unfolding put size
put-size m [] h = ground arith
put-size m (x ∷ ms) h = ground (arith, size-snoc ms m)

size-deliver : (t : String) (m : ℕ) (cs : List Channel) → size (deliver t m cs) ≡ size cs
unfolding deliver size
size-deliver t m [] = refl
size-deliver t m (c ∷ cs) = ground (arith, size-deliver t m cs)

pub topic_size-deliver :
    (topic t : String) (m : ℕ) (cs : List Channel)
    → topic_size topic (deliver t m cs) ≡ topic_size topic cs
unfolding deliver topic_size
topic_size-deliver topic t m [] = refl
topic_size-deliver topic t m (c ∷ cs) = ground (arith, topic_size-deliver topic t m cs)

deliver-AllShort :
    (t : String) (m : ℕ) (cs : List Channel) → AllShort cs → AllShort (deliver t m cs)
unfolding deliver
deliver-AllShort t m [] h = h
deliver-AllShort t m (c ∷ cs) h =
    (ground (arith, put-size m c.messages, h.0), deliver-AllShort t m cs h.1)

pub size-discard :
    (t : String) (i : ℕ) (cs : List Channel)
    → has_channel t i cs ≡ true
    → suc (size (discard t i cs)) ≡ size cs
unfolding has_channel discard size
size-discard t i [] h = cc
size-discard t i (c ∷ cs) h = ground (arith, size-discard t i cs)

pub topic_size-discard :
    (topic t : String) (i : ℕ) (cs : List Channel)
    → topic_size topic (discard t i cs) ≤ topic_size topic cs
unfolding discard topic_size
topic_size-discard topic t i [] = omega arith
topic_size-discard topic t i (c ∷ cs) = ground (arith, topic_size-discard topic t i cs)

discard-AllShort :
    (t : String) (i : ℕ) (cs : List Channel) → AllShort cs → AllShort (discard t i cs)
unfolding discard
discard-AllShort t i [] h = h
discard-AllShort t i (c ∷ cs) h = elim (Bool-cases (is_channel t i c)) [
  | inl e ↦ rw e h.1
  | inr e ↦ rw e (h.0, discard-AllShort t i cs h.1)
]

subscribe-WithinLimits :
    (t : String) (b : Broadcaster) → WithinLimits b → WithinLimits (subscribe t b).1
unfolding subscribe size topic_size
subscribe-WithinLimits t b h =
    elim (Bool-cases (
      leb max_total_subscribers b.total
      || leb max_subscribers_per_event (topic_size t b.subscribers))) [
        | inl e ↦ rw e h
        | inr e ↦ rw e (record {
          counted = ground (arith, h.counted);
          total = ground arith;
          topics = λ topic. elim (Bool-cases (str_eq t topic)) [
            | inl same ↦
                subst
                  (λ x.
                    indicator (str_eq t x) + topic_size x b.subscribers ≤ max_subscribers_per_event)
                  ((eq_iff t topic).0 same) (ground arith)
            | inr other ↦ ground (arith, h.topics topic)
          ];
          queues = (omega arith, h.queues);
        })
      ]

unsubscribe-WithinLimits :
    (t : String) (i : ℕ) (b : Broadcaster) → WithinLimits b → WithinLimits (unsubscribe t i b)
unfolding unsubscribe
unsubscribe-WithinLimits t i b h = elim (Bool-cases (has_channel t i b.subscribers)) [
  | inl e ↦ rw e (record {
    counted = omega (arith, h.counted, size-discard t i b.subscribers e);
    total = omega (arith, h.total);
    topics = λ topic. omega (arith, h.topics topic, topic_size-discard topic t i b.subscribers);
    queues = discard-AllShort t i b.subscribers h.queues;
  })
  | inr e ↦ rw e h
]

act-WithinLimits : (a : Action) (b : Broadcaster) → WithinLimits b → WithinLimits (act a b)
unfolding act publish
act-WithinLimits (subscribes t) b h = subscribe-WithinLimits t b h
act-WithinLimits (unsubscribes t i) b h = unsubscribe-WithinLimits t i b h
act-WithinLimits (publishes t m) b h = record {
  counted = h.counted ∙ sym (size-deliver t m b.subscribers);
  total = h.total;
  topics = λ topic. rw (topic_size-deliver topic t m b.subscribers) (h.topics topic);
  queues = deliver-AllShort t m b.subscribers h.queues;
}

acts-WithinLimits :
    (actions : List Action) (b : Broadcaster) → WithinLimits b → WithinLimits (act_all actions b)
unfolding act_all
acts-WithinLimits [] b h = h
acts-WithinLimits (a ∷ actions) b h = acts-WithinLimits actions (act a b) (act-WithinLimits a b h)

-- However clients subscribe and unsubscribe and messages are published, the counter of subscribers
-- is their number, there are at most 2000 of them and 500 of one event, and no queue holds more
-- than 20 messages.
pub act_all-WithinLimits : (actions : List Action) → WithinLimits (act_all actions new_broadcaster)
unfolding size topic_size
act_all-WithinLimits actions =
    acts-WithinLimits actions new_broadcaster
      (record { counted = refl; total = omega arith; topics = λ topic. omega arith; queues = tt })
