-- ===== src/ServiceBus.antt =====
-- edlink_rostering/infrastructure/azure_mocks/service_bus.py: a queue whose messages stand in
-- sessions, one per LEA, each with a lock. A method that holds `lock` is one step. `dict` keeps the
-- order in which its keys came, which `_claim` walks, so the sessions are an association list; the
-- two other maps are read by key only. Bodies and properties are texts here: nothing looks inside.
pub mod Sessions
pub mod System
pub mod Exclusion
pub mod Conservation
pub mod Progress
pub mod Fifo
mod Examples
use edlink_rostering.Base.{
  ℕ, zero, suc, String, Bool, true, false, not, ◌&&◌, Option, none, some, List, [], ◌∷◌, ◌++◌, take,
  length, any, eqb, ◌==◌, if◌then◌else◌, Result, ok, err,
}

pub record ServiceBusMessage : Type 0 where
  pub body : String
  pub session_id : String
  pub message_id : ℕ
  pub enqueued_at : ℕ
  pub properties : String

-- `==` of the dataclass, by which `list.remove` finds a message.
abbrev pub same_message : ServiceBusMessage → ServiceBusMessage → Bool
same_message m n =
    m.body == n.body
    && (m.session_id == n.session_id
        && (eqb m.message_id n.message_id
            && (eqb m.enqueued_at n.enqueued_at && m.properties == n.properties)))

pub data BusError : Type 0 where
  session_locked no_session_available : BusError

-- A `defaultdict` from session ids to messages.
abbrev pub Sessions : Type 0
Sessions = List (String × List ServiceBusMessage)

pub record SessionQueue : Type 0 where
  pub sessions : Sessions
  pub in_flight : String → List ServiceBusMessage
  pub locks : String → Bool

abbrev pub new_queue : SessionQueue
new_queue = record { sessions = []; in_flight = λ s. []; locks = λ s. false }

-- `sessions[session_id]`
abbrev pub pending : String → Sessions → List ServiceBusMessage
pending s [] = []
pending s ((t, messages) ∷ rest) = if t == s then messages else pending s rest

-- `sessions[session_id] = messages`: a new key goes to the end.
abbrev pub set_pending : String → List ServiceBusMessage → Sessions → Sessions
set_pending s messages [] = (s, messages) ∷ []
set_pending s messages ((t, old) ∷ rest) =
    if t == s then (t, messages) ∷ rest else (t, old) ∷ set_pending s messages rest

abbrev pub put {ℓ} : {A : Type ℓ} → String → A → (String → A) → String → A
put s a f t = if t == s then a else f t

abbrev pub drop {ℓ} : {A : Type ℓ} → ℕ → List A → List A
drop zero xs = xs
drop (suc n) [] = []
drop (suc n) (x ∷ xs) = drop n xs

-- `list.remove`, where the message is in the list.
abbrev pub remove : ServiceBusMessage → List ServiceBusMessage → List ServiceBusMessage
remove m [] = []
remove m (n ∷ ns) = if same_message n m then ns else n ∷ remove m ns

abbrev pub is_in : ServiceBusMessage → List ServiceBusMessage → Bool
is_in m ns = any (λ n. same_message n m) ns

unfoldable pub send_message : ServiceBusMessage → SessionQueue → SessionQueue
send_message m q = record q {
  sessions = set_pending m.session_id (pending m.session_id q.sessions ++ m ∷ []) q.sessions;
}

-- `receive_messages`: the loop pops up to `max_count` messages, which are marked as in flight. Only
-- the holder of the session calls it, and the reading of a `defaultdict` makes the key. The code
-- takes the queue's lock once for the pops and once for the marks; here both are one step.
unfoldable pub receive_messages : String → ℕ → SessionQueue → List ServiceBusMessage × SessionQueue
receive_messages s max_count q =
    let messages = pending s q.sessions in
    (
      take max_count messages,
      record q {
        sessions = set_pending s (drop max_count messages) q.sessions;
        in_flight = put s (q.in_flight s ++ take max_count messages) q.in_flight;
      },
    )

unfoldable pub complete : String → ServiceBusMessage → SessionQueue → SessionQueue
complete s m q = record q { in_flight = put s (remove m (q.in_flight s)) q.in_flight }

-- `sessions[session_id].appendleft(message)`
abbrev pub push_left : String → ServiceBusMessage → Sessions → Sessions
push_left s m xs = set_pending s (m ∷ pending s xs) xs

-- The loop of `_release` over the reversed list.
abbrev pub give_back : String → List ServiceBusMessage → Sessions → Sessions
give_back s [] xs = xs
give_back s (m ∷ ms) xs = push_left s m (give_back s ms xs)

unfoldable pub abandon : String → ServiceBusMessage → SessionQueue → SessionQueue
abandon s m q =
    if is_in m (q.in_flight s)
    then record q {
      sessions = push_left s m q.sessions;
      in_flight = put s (remove m (q.in_flight s)) q.in_flight;
    }
    else q

-- The first session in the order of the keys that has messages and is not locked.
abbrev pub next_session : (String → Bool) → Sessions → Option String
next_session locks [] = none
next_session locks ((s, []) ∷ rest) = next_session locks rest
next_session locks ((s, m ∷ messages) ∷ rest) = if locks s then next_session locks rest else some s

abbrev pub lock_session : String → SessionQueue → SessionQueue
lock_session s q = record q { locks = put s true q.locks }

abbrev pub claim_next : SessionQueue → Option String → Result BusError (String × SessionQueue)
claim_next q none = err no_session_available
claim_next q (some s) = ok (s, lock_session s q)

unfoldable pub claim : Option String → SessionQueue → Result BusError (String × SessionQueue)
claim (some s) q = if q.locks s then err session_locked else ok (s, lock_session s q)
claim none q = claim_next q (next_session q.locks q.sessions)

-- The exit of the context manager, on success and on an exception.
unfoldable pub release : String → SessionQueue → SessionQueue
release s q = record {
  sessions = give_back s (q.in_flight s) q.sessions;
  in_flight = put s [] q.in_flight;
  locks = put s false q.locks;
}

unfoldable pub peek_session : String → SessionQueue → ℕ
peek_session s q = length (pending s q.sessions)
