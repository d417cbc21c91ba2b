-- ===== src/ServiceBus/System.antt =====
-- Any number of receivers over one queue, interleaved in any order. A receiver is a number; it holds
-- at most one session at a time and acts on that session only, as inside the context manager.
use edlink_rostering.Base.{
  ℕ, String, ◌≡◌, Option, none, some, List, [], ◌∷◌, ◌++◌, eqb, if◌then◌else◌, ok,
}
use edlink_rostering.ServiceBus.{
  ServiceBusMessage, SessionQueue, new_queue, put, is_in, send_message, receive_messages, complete,
  abandon, claim, release,
}

-- The queue, the session that each receiver holds, and the messages that were ever sent to a
-- session and ever completed in it.
pub record System : Type 0 where
  pub queue : SessionQueue
  pub held : ℕ → Option String
  pub sent : String → List ServiceBusMessage
  pub completed : String → List ServiceBusMessage

abbrev pub hold : ℕ → Option String → (ℕ → Option String) → ℕ → Option String
hold r s held i = if eqb i r then s else held i

abbrev pub log :
    String → ServiceBusMessage → (String → List ServiceBusMessage) → String → List ServiceBusMessage
log s m logs = put s (logs s ++ m ∷ []) logs

pub data Step (s t : System) : Type 0 where
  sends :
      (m : ServiceBusMessage)
      → t ≡ record s { queue = send_message m s.queue; sent = log m.session_id m s.sent }
      → Step s t
  claims :
      (r : ℕ) (wanted : Option String) (got : String) (q : SessionQueue)
      → s.held r ≡ none
      → claim wanted s.queue ≡ ok (got, q)
      → t ≡ record s { queue = q; held = hold r (some got) s.held }
      → Step s t
  receives :
      (r : ℕ) (session : String) (max_count : ℕ)
      → s.held r ≡ some session
      → t ≡ record s { queue = (receive_messages session max_count s.queue).1 }
      → Step s t
  completes :
      (r : ℕ) (session : String) (m : ServiceBusMessage)
      → s.held r ≡ some session
      → t ≡ record s {
        queue = complete session m s.queue;
        completed =
            if is_in m (s.queue.in_flight session) then log session m s.completed else s.completed;
      }
      → Step s t
  abandons :
      (r : ℕ) (session : String) (m : ServiceBusMessage)
      → s.held r ≡ some session
      → t ≡ record s { queue = abandon session m s.queue }
      → Step s t
  exits :
      (r : ℕ) (session : String)
      → s.held r ≡ some session
      → t ≡ record s { queue = release session s.queue; held = hold r none s.held }
      → Step s t

abbrev pub init : System
init = record { queue = new_queue; held = λ r. none; sent = λ s. []; completed = λ s. [] }

pub data Reach : System → Type 0 where
  start : Reach init
  later : {s t : System} → Reach s → Step s t → Reach t
