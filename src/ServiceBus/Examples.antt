-- ===== src/ServiceBus/Examples.antt =====
-- The theorems about the Service Bus mock on a run of two messages and one receiver.
use edlink_rostering.Base.{◌+◌, ℕ, ◌≡◌, refl, none, some, [], ◌∷◌, count, err}
use edlink_rostering.ServiceBus.{
  ServiceBusMessage, same_message, session_locked, pending, send_message, receive_messages,
  complete, abandon, claim, lock_session, release,
}
use edlink_rostering.ServiceBus.System.{System, Step, Reach, init, log, hold}
use edlink_rostering.ServiceBus.Exclusion.{session_has_one_holder}
use edlink_rostering.ServiceBus.Conservation.{messages_are_conserved}
use edlink_rostering.ServiceBus.Fifo.{FifoStep, view, queue_refines_fifo}

abbrev message : ℕ → ServiceBusMessage
message n = record {
  body = "page";
  session_id = "lea-1";
  message_id = n;
  enqueued_at = n;
  properties = "";
}

abbrev after_send : ℕ → System → System
after_send n s = record s {
  queue = send_message (message n) s.queue;
  sent = log "lea-1" (message n) s.sent;
}

abbrev two_sent : System
two_sent = after_send 2 (after_send 1 init)

-- Receiver 0 holds the session and has both messages in flight; then the first is done.
abbrev claimed : System
claimed = record two_sent {
  queue = lock_session "lea-1" two_sent.queue;
  held = hold 0 (some "lea-1") two_sent.held;
}

abbrev received : System
received = record claimed { queue = (receive_messages "lea-1" 2 claimed.queue).1 }

abbrev first_done : System
first_done = record received {
  queue = complete "lea-1" (message 1) received.queue;
  completed = log "lea-1" (message 1) received.completed;
}

abbrev left : System
left = record first_done {
  queue = release "lea-1" first_done.queue;
  held = hold 0 none first_done.held;
}

received_reached : Reach received
unfolding send_message receive_messages claim
received_reached =
    let two =
      Reach.later (Reach.later Reach.start (Step.sends (message 1) refl))
        (Step.sends (message 2) refl) in
    let got = Reach.later two (Step.claims 0 none "lea-1" claimed.queue refl refl refl) in
    Reach.later got (Step.receives 0 "lea-1" 2 refl refl)

left_reached : Reach left
unfolding send_message receive_messages claim
left_reached =
    let one = Reach.later received_reached (Step.completes 0 "lea-1" (message 1) refl refl) in
    Reach.later one (Step.exits 0 "lea-1" refl refl)

session_has_one_holder_example :
    (◌≡◌ {A = ℕ} 0 0) × (claim (some "lea-1") received.queue ≡ err session_locked)
session_has_one_holder_example = session_has_one_holder received_reached 0 0 "lea-1" refl refl

messages_are_conserved_example :
    count (same_message (message 2)) (pending "lea-1" left.queue.sessions)
      + count (same_message (message 2)) (left.queue.in_flight "lea-1")
      + count (same_message (message 2)) (left.completed "lea-1")
    ≡ count (same_message (message 2)) (left.sent "lea-1")
messages_are_conserved_example = messages_are_conserved (message 2) "lea-1" left_reached

queue_refines_fifo_example : FifoStep (view received) (view first_done)
unfolding send_message receive_messages
queue_refines_fifo_example =
    queue_refines_fifo {a = received} (Step.completes 0 "lea-1" (message 1) refl refl)
      (message 2 ∷ [], refl)

-- Two messages that are abandoned in the order in which they came are turned round in their session.
abandoned_turn_round :
    pending "lea-1"
      (abandon "lea-1" (message 2) (abandon "lea-1" (message 1) received.queue)).sessions
    ≡ message 2 ∷ message 1 ∷ []
unfolding send_message receive_messages abandon
abandoned_turn_round = refl
