-- ===== src/ServiceBus/Conservation.antt =====
-- No message is lost and none is delivered twice at the same time, whatever the receivers do.
use edlink_rostering.Base.{
  ℕ, ◌+◌, ◌-◌, String, ◌≡◌, refl, ap, false, [], ◌∷◌, ◌++◌, arith, take, count, count-append, inl,
  inr, Bool-cases, eq_iff,
}
use edlink_rostering.ServiceBus.{
  ServiceBusMessage, same_message, pending, drop, is_in, send_message, receive_messages, complete,
  abandon, release,
}
use edlink_rostering.ServiceBus.Sessions.{
  pending-set_pending, pending-give_back, take-drop, count-remove, remove_none,
}
use edlink_rostering.ServiceBus.System.{System, Step, Reach}
use edlink_rostering.ServiceBus.Exclusion.{Reach-Inv, claim_locks}

-- How often a message waits in a session, is in flight or is done there.
abbrev pub accounted : ServiceBusMessage → String → System → ℕ
accounted k s system =
    count (same_message k) (pending s system.queue.sessions)
    + count (same_message k) (system.queue.in_flight s)
    + count (same_message k) (system.completed s)

abbrev pub copies_sent : ServiceBusMessage → String → System → ℕ
copies_sent k s system = count (same_message k) (system.sent s)

module _ (k : ServiceBusMessage) (s : String) where
  Step-accounted :
      {a b : System}
      → Step a b
      → accounted k s a ≡ copies_sent k s a
      → accounted k s b ≡ copies_sent k s b
  unfolding send_message receive_messages complete abandon release
  Step-accounted {a} (Step.sends m e) h =
      rw
        (
          e,
          pending-set_pending m.session_id s (pending m.session_id a.queue.sessions ++ m ∷ [])
              a.queue.sessions,
        )
        (ground (
          arith,
          eq_iff s m.session_id,
          count-append (same_message k) (pending s a.queue.sessions) (m ∷ []),
          count-append (same_message k) (a.sent s) (m ∷ []),
        ))
  Step-accounted {a} (Step.claims r wanted got q free c e) h =
      let l = claim_locks wanted a.queue c in rw (e, l.1) h
  Step-accounted {a} (Step.receives r t n c e) h =
      let waiting = pending t a.queue.sessions in
      rw (e, pending-set_pending t s (drop n waiting) a.queue.sessions)
        (ground (
          arith,
          eq_iff s t,
          count-append (same_message k) (take n waiting) (drop n waiting),
          count-append (same_message k) (a.queue.in_flight s) (take n waiting),
          ap (count (same_message k)) (take-drop n waiting),
        ))
  Step-accounted {a} (Step.completes r t m c e) h =
      elim (Bool-cases (is_in m (a.queue.in_flight t))) [
        | inl here ↦
            rw (e, here)
              (ground (
                arith,
                eq_iff s t,
                count-remove k m (a.queue.in_flight t) here,
                count-append (same_message k) (a.completed s) (m ∷ []),
              ))
        | inr absent ↦
            rw (e, absent, remove_none m (a.queue.in_flight t) absent) (ground (arith, eq_iff s t))
      ]
  Step-accounted {a} (Step.abandons r t m c e) h =
      elim (Bool-cases (is_in m (a.queue.in_flight t))) [
        | inl here ↦
            rw (e, here, pending-set_pending t s (m ∷ pending t a.queue.sessions) a.queue.sessions)
              (ground (arith, eq_iff s t, count-remove k m (a.queue.in_flight t) here))
        | inr absent ↦ rw (e, absent) h
      ]
  Step-accounted {a} (Step.exits r t c e) h =
      rw (e, pending-give_back t s (a.queue.in_flight t) a.queue.sessions)
        (ground (
          arith,
          eq_iff s t,
          count-append (same_message k) (a.queue.in_flight t) (pending t a.queue.sessions),
        ))

pub Reach-accounted :
    {a : System} (k : ServiceBusMessage) (s : String)
    → Reach a
    → accounted k s a ≡ copies_sent k s a
Reach-accounted k s Reach.start = refl
Reach-accounted k s (Reach.later r step) = Step-accounted k s step (Reach-accounted k s r)

-- In every state that the queue can reach, however the calls of the receivers interleave, each
-- message of a session is as often waiting, in flight or completed, together, as it was sent.
pub messages_are_conserved :
    {a : System} (k : ServiceBusMessage) (s : String)
    → Reach a
    → count (same_message k) (pending s a.queue.sessions)
        + count (same_message k) (a.queue.in_flight s)
        + count (same_message k) (a.completed s)
      ≡ count (same_message k) (a.sent s)
messages_are_conserved k s reached = Reach-accounted k s reached

-- In a session that nobody holds every message that is not completed waits.
pub rest_waits :
    {a : System} (k : ServiceBusMessage) (s : String)
    → Reach a
    → a.queue.locks s ≡ false
    → count (same_message k) (pending s a.queue.sessions)
      ≡ copies_sent k s a - count (same_message k) (a.completed s)
rest_waits {a} k s reached unlocked =
    let total = Reach-accounted k s reached in
    let idle = (Reach-Inv reached).idle s unlocked in
    let e : count (same_message k) (a.queue.in_flight s) ≡ 0 = rw idle in ground (arith, e, total)
