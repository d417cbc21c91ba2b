-- ===== src/ServiceBus/Exclusion.antt =====
-- A session has one holder, and messages are in flight only while there is one.
use edlink_rostering.Base.{
  err, ℕ, String, ◌≡◌, refl, true, false, Option, none, some, [], arith, eqb_iff, ok, inl, inr,
  Bool-cases, Option-cases, eq_iff,
}
use edlink_rostering.ServiceBus.{
  session_locked, SessionQueue, lock_session, next_session, claim, send_message, receive_messages,
  complete, abandon, release, is_in,
}
use edlink_rostering.ServiceBus.Sessions.{next_session_free}
use edlink_rostering.ServiceBus.System.{System, Step, Reach, init, hold}

-- What a successful claim did.
pub claim_locks :
    (wanted : Option String) (q : SessionQueue) {s : String} {q' : SessionQueue}
    → claim wanted q ≡ ok (s, q')
    → (q.locks s ≡ false) × (q' ≡ lock_session s q)
unfolding claim
claim_locks (some w) q {s} {q'} h = elim (Bool-cases (q.locks w)) [
  | inl taken ↦ cc (rw taken at h)
  | inr free ↦ let e : w ≡ s = cc (rw free at h) in (rw (← e) free, cc (rw free at h))
]
claim_locks none q {s} {q'} h = elim (Option-cases (next_session q.locks q.sessions)) [
  | inl missing ↦ cc (rw missing at h)
  | inr (w, found) ↦
      let e : w ≡ s = cc (rw found at h) in
      (rw (← e) (next_session_free q.locks q.sessions found), cc (rw found at h))
]

pub record Inv (s : System) : Type 0 where
  pub locked : (r : ℕ) (session : String) → s.held r ≡ some session → s.queue.locks session ≡ true
  pub unique :
      (i j : ℕ) (session : String) → s.held i ≡ some session → s.held j ≡ some session → i ≡ j
  pub idle : (session : String) → s.queue.locks session ≡ false → s.queue.in_flight session ≡ []

Inv-init : Inv init
Inv-init = record {
  locked = λ r session h. cc;
  unique = λ i j session h k. cc;
  idle = λ session h. refl;
}

module _ (s : System) (inv : Inv s) where
  claims-Inv :
      (r : ℕ) (got : String)
      → s.held r ≡ none
      → s.queue.locks got ≡ false
      → Inv (record s { queue = lock_session got s.queue; held = hold r (some got) s.held })
  claims-Inv r got free unlocked = record {
    locked = λ i session h. ground (arith, inv.locked i session, eqb_iff i r, eq_iff session got);
    unique = λ i j session h k. ground (
      arith,
      inv.unique i j session,
      inv.locked i session,
      inv.locked j session,
      eqb_iff i r,
      eqb_iff j r,
      eq_iff session got,
    );
    idle = λ session h. ground (arith, inv.idle session, eq_iff session got);
  }

  exits-Inv :
      (r : ℕ) (session : String)
      → s.held r ≡ some session
      → Inv (record s { queue = release session s.queue; held = hold r none s.held })
  unfolding release
  exits-Inv r session h = record {
    locked = λ i t k.
        ground (arith, inv.locked i t, inv.unique i r session, eqb_iff i r, eq_iff t session);
    unique = λ i j t k l. ground (arith, inv.unique i j t, eqb_iff i r, eqb_iff j r);
    idle = λ t k. ground (arith, inv.idle t, eq_iff t session);
  }

pub Step-Inv : {s t : System} → Step s t → Inv s → Inv t
unfolding send_message receive_messages complete abandon
Step-Inv {s} (Step.sends m e) inv =
    rw e (record { locked = inv.locked; unique = inv.unique; idle = inv.idle })
Step-Inv {s} (Step.claims r wanted got q free h e) inv =
    let c = claim_locks wanted s.queue h in rw (e, c.1) (claims-Inv s inv r got free c.0)
Step-Inv {s} (Step.receives r session n h e) inv = rw e (record {
  locked = inv.locked;
  unique = inv.unique;
  idle = λ t k. ground (arith, inv.idle t, inv.locked r session, eq_iff t session);
})
Step-Inv {s} (Step.completes r session m h e) inv = rw e (record {
  locked = inv.locked;
  unique = inv.unique;
  idle = λ t k. ground (arith, inv.idle t, inv.locked r session, eq_iff t session);
})
Step-Inv {s} (Step.abandons r session m h e) inv =
    elim (Bool-cases (is_in m (s.queue.in_flight session))) [
      | inl here ↦
          rw (e, here)
            (record {
              locked = inv.locked;
              unique = inv.unique;
              idle = λ t k. ground (arith, inv.idle t, inv.locked r session, eq_iff t session);
            })
      | inr absent ↦
          rw (e, absent) (record { locked = inv.locked; unique = inv.unique; idle = inv.idle })
    ]
Step-Inv {s} (Step.exits r session h e) inv = rw e (exits-Inv s inv r session h)

pub Reach-Inv : {s : System} → Reach s → Inv s
Reach-Inv Reach.start = Inv-init
Reach-Inv (Reach.later r step) = Step-Inv step (Reach-Inv r)

-- In every state that the queue can reach, two receivers that hold the same session are the same
-- receiver, and the session is locked, so that a further claim of it fails.
pub session_has_one_holder :
    {s : System}
    → Reach s
    → (i j : ℕ) (session : String) → s.held i ≡ some session
    → s.held j ≡ some session
    → (i ≡ j) × (claim (some session) s.queue ≡ err session_locked)
unfolding claim
session_has_one_holder reached i j session holds also =
    let inv = Reach-Inv reached in
    (inv.unique i j session holds also, rw (inv.locked i session holds) refl)
