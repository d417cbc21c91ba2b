-- ===== src/ServiceBus/Sessions.antt =====
-- Lookups in the sessions of a queue, and the removal of a message.
use edlink_rostering.Base.{
  ℕ, zero, suc, ◌+◌, String, ◌≡◌, refl, Bool, true, false, List, [], ◌∷◌, ◌++◌, arith, take, count,
  inl, inr, Bool-cases, ◌==◌, eq_iff, eq_refl, eqb_iff, eqb_refl, if◌then◌else◌, some,
}
use edlink_rostering.ServiceBus.{
  ServiceBusMessage, same_message, Sessions, pending, set_pending, drop, remove, is_in,
  next_session, give_back,
}

pub pending-set_pending :
    (s t : String) (messages : List ServiceBusMessage) (xs : Sessions)
    → pending t (set_pending s messages xs) ≡ (if t == s then messages else pending t xs)
pending-set_pending s t messages [] = ground (arith, eq_iff s t, eq_iff t s)
pending-set_pending s t messages ((u, old) ∷ rest) =
    ground (arith, pending-set_pending s t messages rest, eq_iff u s, eq_iff u t, eq_iff t s)

pub pending-give_back :
    (s t : String) (messages : List ServiceBusMessage) (xs : Sessions)
    → pending t (give_back s messages xs)
      ≡ (if t == s then messages ++ pending s xs else pending t xs)
pending-give_back s t [] xs = ground (arith, eq_iff t s)
pending-give_back s t (m ∷ messages) xs = ground (
  arith,
  pending-set_pending s t (m ∷ pending s (give_back s messages xs)) (give_back s messages xs),
  pending-give_back s s messages xs,
  pending-give_back s t messages xs,
  eq_refl s,
)

pub take-drop {ℓ} : {A : Type ℓ} (n : ℕ) (xs : List A) → take n xs ++ drop n xs ≡ xs
take-drop zero xs = refl
take-drop (suc n) [] = refl
take-drop (suc n) (x ∷ xs) = rw (take-drop n xs)

pub same_message_eq : (m n : ServiceBusMessage) → same_message m n ≡ true → m ≡ n
same_message_eq m n h =
    let body : m.body ≡ n.body = ground (arith, eq_iff m.body n.body) in
    let session : m.session_id ≡ n.session_id = ground (arith, eq_iff m.session_id n.session_id) in
    let id : m.message_id ≡ n.message_id = ground (arith, eqb_iff m.message_id n.message_id) in
    let at : m.enqueued_at ≡ n.enqueued_at = ground (arith, eqb_iff m.enqueued_at n.enqueued_at) in
    let properties : m.properties ≡ n.properties =
      ground (arith, eq_iff m.properties n.properties) in
    λ i. record {
      body = body i;
      session_id = session i;
      message_id = id i;
      enqueued_at = at i;
      properties = properties i;
    }

pub same_message_refl : (m : ServiceBusMessage) → same_message m m ≡ true
same_message_refl m = ground (
  arith,
  eq_refl m.body,
  eq_refl m.session_id,
  eqb_refl m.message_id,
  eqb_refl m.enqueued_at,
  eq_refl m.properties,
)

-- A message that is in a list is there once more than in the list without it.
pub count-remove :
    (k m : ServiceBusMessage) (ns : List ServiceBusMessage)
    → is_in m ns ≡ true
    → count (same_message k) ns
      ≡ (if same_message k m then 1 else 0) + count (same_message k) (remove m ns)
count-remove k m [] h = cc
count-remove k m (n ∷ ns) h = elim (Bool-cases (same_message n m)) [
  | inl here ↦ rw (here, same_message_eq n m here) (ground arith)
  | inr there ↦
      let below : is_in m ns ≡ true = ground arith in
      rw there (ground (arith, count-remove k m ns below))
]

pub remove_none :
    (m : ServiceBusMessage) (ns : List ServiceBusMessage) → is_in m ns ≡ false → remove m ns ≡ ns
remove_none m [] h = refl
remove_none m (n ∷ ns) h = ground (arith, remove_none m ns)

-- A session that is found is not locked.
pub next_session_free :
    (locks : String → Bool) (xs : Sessions) {s : String}
    → next_session locks xs ≡ some s
    → locks s ≡ false
next_session_free locks [] h = cc
next_session_free locks ((t, []) ∷ rest) h = next_session_free locks rest h
next_session_free locks ((t, m ∷ ms) ∷ rest) {s} h = elim (Bool-cases (locks t)) [
  | inl taken ↦ next_session_free locks rest (rw taken at h)
  | inr free ↦ let e : t ≡ s = cc (rw free at h) in rw (← e) free
]
