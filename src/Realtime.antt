-- ===== src/Realtime.antt =====
-- The in-process fanout of event updates, `InProcessBroadcaster` of backend/app/realtime.py: the
-- subscribers of each event, each with a queue of 20 messages, and the limits on their number.
pub mod Limits
pub mod Postgres
use stranger_club.Base.{
  ℕ, suc, ◌+◌, ◌-◌, String, Bool, true, false, ◌&&◌, ◌||◌, Option, none, some, List, [], ◌∷◌, ◌++◌,
  ◌==◌, leb, ltb, str_eq, indicator, if◌then◌else◌,
}

abbrev pub max_subscribers_per_event : ℕ
max_subscribers_per_event = 500

abbrev pub max_total_subscribers : ℕ
max_total_subscribers = 2000

abbrev pub queue_size : ℕ
queue_size = 20

-- A `queue.Queue(maxsize=20)` in the set of one event; `id` is its identity, and a message is the
-- number of its publication.
pub record Channel : Type 0 where
  pub topic : String
  pub id : ℕ
  pub messages : List ℕ

pub record Broadcaster : Type 0 where
  pub subscribers : List Channel
  pub total : ℕ
  pub next_id : ℕ

abbrev pub new_broadcaster : Broadcaster
new_broadcaster = record { subscribers = []; total = 0; next_id = 0 }

unfoldable pub size {ℓ} : {A : Type ℓ} → List A → ℕ
size [] = 0
size (x ∷ xs) = suc (size xs)

-- `len(self.subscribers[public_id])`
unfoldable pub topic_size : String → List Channel → ℕ
topic_size topic [] = 0
topic_size topic (c ∷ cs) = indicator (str_eq c.topic topic) + topic_size topic cs

unfoldable pub subscribe : String → Broadcaster → Option ℕ × Broadcaster
subscribe topic b =
    if leb max_total_subscribers b.total
      || leb max_subscribers_per_event (topic_size topic b.subscribers)
    then (none, b)
    else (
      some b.next_id,
      record {
        subscribers = record { topic = topic; id = b.next_id; messages = [] } ∷ b.subscribers;
        total = suc b.total;
        next_id = suc b.next_id;
      },
    )

abbrev pub is_channel : String → ℕ → Channel → Bool
is_channel topic id c = str_eq c.topic topic && c.id == id

unfoldable pub has_channel : String → ℕ → List Channel → Bool
has_channel topic id [] = false
has_channel topic id (c ∷ cs) = is_channel topic id c || has_channel topic id cs

unfoldable pub discard : String → ℕ → List Channel → List Channel
discard topic id [] = []
discard topic id (c ∷ cs) =
    let rest = discard topic id cs in if is_channel topic id c then cs else c ∷ rest

unfoldable pub unsubscribe : String → ℕ → Broadcaster → Broadcaster
unsubscribe topic id b =
    if has_channel topic id b.subscribers
    then record b { subscribers = discard topic id b.subscribers; total = b.total - 1 }
    else b

abbrev pub drop_oldest : List ℕ → List ℕ
drop_oldest [] = []
drop_oldest (m ∷ ms) = ms

-- `put_nowait`; on a full queue the oldest message makes room
unfoldable pub put : ℕ → List ℕ → List ℕ
put message messages =
    if ltb (size messages) queue_size
    then messages ++ message ∷ []
    else drop_oldest messages ++ message ∷ []

unfoldable pub deliver : String → ℕ → List Channel → List Channel
deliver topic message [] = []
deliver topic message (c ∷ cs) =
    (if str_eq c.topic topic then record c { messages = put message c.messages } else c)
    ∷ deliver topic message cs

unfoldable pub publish : String → ℕ → Broadcaster → Broadcaster
publish topic message b = record b { subscribers = deliver topic message b.subscribers }
