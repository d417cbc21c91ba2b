-- ===== src/ServiceBus/Fifo.antt =====
-- The contract of a session queue: first in, first out within a session.
use Prim.{Unit}
use mathlib.Core.List.{append_assoc}
use edlink_rostering.Base.{String, ◌≡◌, refl, List, [], ◌∷◌, ◌++◌, arith, take, eq_iff}
use edlink_rostering.ServiceBus.{
  ServiceBusMessage, pending, put, drop, send_message, receive_messages, complete, abandon, release,
}
use edlink_rostering.ServiceBus.Sessions.{
  pending-set_pending, pending-give_back, take-drop, same_message_refl,
}
use edlink_rostering.ServiceBus.System.{System, Step, init, log}
use edlink_rostering.ServiceBus.Exclusion.{claim_locks}

-- What a client sees: per session, the messages that were sent, those that wait, in the order in
-- which they will be delivered, and those that are done.
pub record Fifo : Type 0 where
  pub sent : String → List ServiceBusMessage
  pub waiting : String → List ServiceBusMessage
  pub done : String → List ServiceBusMessage

abbrev pub view : System → Fifo
view a = record {
  sent = a.sent;
  waiting = λ s. a.queue.in_flight s ++ pending s a.queue.sessions;
  done = a.completed;
}

-- Two views that agree in every session.
abbrev pub SameView : Fifo → Fifo → Type 0
SameView f g =
    (s : String) → (f.sent s ≡ g.sent s) × (f.waiting s ≡ g.waiting s) × (f.done s ≡ g.done s)

-- The steps of the contract: nothing, a message to the end of its session, or the first message of
-- a session is done.
pub data FifoStep (f g : Fifo) : Type 0 where
  stays : SameView g f → FifoStep f g
  enqueues :
      (m : ServiceBusMessage)
      → SameView g
          (record f { sent = log m.session_id m f.sent; waiting = log m.session_id m f.waiting })
      → FifoStep f g
  dequeues :
      (t : String) (m : ServiceBusMessage) (rest : List ServiceBusMessage)
      → f.waiting t ≡ m ∷ rest
      → SameView g (record f { waiting = put t rest f.waiting; done = log t m f.done })
      → FifoStep f g

-- The discipline of the worker: it completes the oldest message that it has in flight, and abandons
-- one only when it has no other.
abbrev pub InOrder : {a b : System} → Step a b → Type 0
InOrder {a} (Step.completes r t m c e) =
    (rest : List ServiceBusMessage) × (a.queue.in_flight t ≡ m ∷ rest)
InOrder {a} (Step.abandons r t m c e) = a.queue.in_flight t ≡ m ∷ []
InOrder step = Unit

-- A step of the queue, by receivers that complete the oldest message in flight and abandon a message
-- only when it is the only one, is a step of the first in, first out contract on what a client sees.
pub queue_refines_fifo :
    {a b : System} (step : Step a b) → InOrder step → FifoStep (view a) (view b)
unfolding send_message receive_messages complete abandon release
queue_refines_fifo {a} (Step.sends m e) order =
    let old = pending m.session_id a.queue.sessions in
    rw e (
      FifoStep.enqueues m (λ s.
        rw (pending-set_pending m.session_id s (old ++ m ∷ []) a.queue.sessions) (
          refl,
          ground (arith, eq_iff s m.session_id, append_assoc (a.queue.in_flight s) old (m ∷ [])),
          refl,
        )))
queue_refines_fifo {a} (Step.claims r wanted got q free c e) order =
    let l = claim_locks wanted a.queue c in rw (e, l.1) (FifoStep.stays (λ s. (refl, refl, refl)))
queue_refines_fifo {a} (Step.receives r t n c e) order =
    let old = pending t a.queue.sessions in
    rw e (
      FifoStep.stays (λ s. rw (pending-set_pending t s (drop n old) a.queue.sessions) (
        refl,
        ground (
          arith,
          eq_iff s t,
          append_assoc (a.queue.in_flight t) (take n old) (drop n old),
          take-drop n old,
        ),
        refl,
      )))
queue_refines_fifo {a} (Step.completes r t m c e) (rest, first) =
    rw (e, first, same_message_refl m)
      (FifoStep.dequeues t m (rest ++ pending t a.queue.sessions) (rw first refl)
        (λ s. (refl, ground (arith, eq_iff s t), refl)))
queue_refines_fifo {a} (Step.abandons r t m c e) order =
    rw (e, order, same_message_refl m)
      (FifoStep.stays (λ s.
        rw (pending-set_pending t s (m ∷ pending t a.queue.sessions) a.queue.sessions)
          (refl, ground (arith, order, eq_iff s t), refl)))
queue_refines_fifo {a} (Step.exits r t c e) order = rw e (
    FifoStep.stays (λ s.
      rw (pending-give_back t s (a.queue.in_flight t) a.queue.sessions)
        (refl, ground (arith, eq_iff s t), refl)))

-- The runs in which every step keeps the discipline.
pub data OrderedReach : System → Type 0 where
  start : OrderedReach init
  later : {a b : System} → OrderedReach a → (step : Step a b) → InOrder step → OrderedReach b

-- In a run of the contract what is done, followed by what waits, is what was sent.
FifoStep-split :
    {f g : Fifo} (s : String)
    → FifoStep f g
    → f.done s ++ f.waiting s ≡ f.sent s
    → g.done s ++ g.waiting s ≡ g.sent s
FifoStep-split {f} s (FifoStep.stays same) h = ground (arith, same s)
FifoStep-split {f} s (FifoStep.enqueues m same) h =
    ground (arith, same s, eq_iff s m.session_id, append_assoc (f.done s) (f.waiting s) (m ∷ []))
FifoStep-split {f} s (FifoStep.dequeues t m rest first same) h =
    ground (arith, same s, first, eq_iff s t, append_assoc (f.done s) (m ∷ []) rest)

-- In a run of such receivers the messages completed in a session, followed by those in flight and
-- those that wait, are the messages sent to it, in the order in which they were sent.
pub sessions_deliver_in_order :
    {a : System} (s : String)
    → OrderedReach a
    → a.completed s ++ (a.queue.in_flight s ++ pending s a.queue.sessions) ≡ a.sent s
sessions_deliver_in_order s OrderedReach.start = refl
sessions_deliver_in_order s (OrderedReach.later r step order) =
    FifoStep-split s (queue_refines_fifo step order) (sessions_deliver_in_order s r)
