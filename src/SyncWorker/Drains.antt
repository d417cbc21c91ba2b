-- ===== src/SyncWorker/Drains.antt =====
-- The drain of an LEA: how many pages it processes, when it stops, and how the cursors chain.
use edlink_rostering.Base.{
  ℕ, zero, suc, ◌≤◌, String, ◌≡◌, refl, ◌⊎◌, inl, inr, Bool, true, false, not, ◌||◌, ◌&&◌, Option,
  none, some, List, [], ◌∷◌, arith, length, Bool-cases, Result, ok, err, Memᴰ,
}
use edlink_rostering.Entities.{Failure, Cursor, NormalizedEvent}
use edlink_rostering.Database.{Db}
use edlink_rostering.SyncWorker.Reads.{read_cursor}
use edlink_rostering.SyncWorker.Pages.{
  PageOutcome, Committed, Connector, process_one_page, Drained, succeeded, drain_pages, drain_lea,
}
use edlink_rostering.SyncWorker.Live.{SingleLive, OwnLea}
use edlink_rostering.SyncWorker.Commits.{cursors-process_one_page, process_one_page-SingleLive}

-- The pages of a drain, one after the other: each is processed on the database that the one before
-- committed, every page but the last succeeded and has more after it, and a page that raises
-- commits nothing.
pub data Drains (connector : Connector) (lea_id : String)
    : Db → List PageOutcome → Db → Option Failure → Type 0 where
  spent : (db : Db) → Drains connector lea_id db [] db none
  raised :
      (db : Db) (now : ℕ) (e : Failure)
      → process_one_page connector lea_id now db ≡ err e
      → Drains connector lea_id db [] db (some e)
  stopped :
      (db : Db) (now : ℕ) (c : Committed)
      → process_one_page connector lea_id now db ≡ ok c
      → (c.outcome.has_more && succeeded c.outcome) ≡ false
      → Drains connector lea_id db (c.outcome ∷ []) c.db none
  continued :
      (db db' : Db) (now : ℕ) (c : Committed) (rest : List PageOutcome) (failure : Option Failure)
      → process_one_page connector lea_id now db ≡ ok c
      → (c.outcome.has_more && succeeded c.outcome) ≡ true
      → Drains connector lea_id c.db rest db' failure
      → Drains connector lea_id db (c.outcome ∷ rest) db' failure

abbrev Result-cases :
    {E A : Type 0} (r : Result E A) → ((e : E) × (r ≡ err e)) ⊎ ((a : A) × (r ≡ ok a))
Result-cases (err e) = inl (e, refl)
Result-cases (ok a) = inr (a, refl)

pub drain_pages-Drains :
    (connector : Connector) (lea_id : String) (clock : ℕ → ℕ) (n : ℕ) (db : Db)
    → let d = drain_pages connector lea_id clock n db in
      Drains connector lea_id db d.outcomes d.db d.failure
unfolding drain_pages
drain_pages-Drains connector lea_id clock zero db = spent db
drain_pages-Drains connector lea_id clock (suc n) db =
    elim (Result-cases (process_one_page connector lea_id (clock n) db)) [
      | inl (e, h) ↦ rw (drain_pages, h) (raised db (clock n) e h)
      | inr (c, h) ↦ elim (Bool-cases (c.outcome.has_more && succeeded c.outcome)) [
        | inl more ↦
            let m : (not c.outcome.has_more || not (succeeded c.outcome)) ≡ false = ground arith in
            rw (drain_pages, h, m)
              (continued db _ (clock n) c _ _ h more
                (drain_pages-Drains connector lea_id clock n c.db))
        | inr last ↦
            let m : (not c.outcome.has_more || not (succeeded c.outcome)) ≡ true = ground arith in
            rw (drain_pages, h, m) (stopped db (clock n) c h last)
      ]
    ]

pub length-drain_pages-le :
    (connector : Connector) (lea_id : String) (clock : ℕ → ℕ) (n : ℕ) (db : Db)
    → length (drain_pages connector lea_id clock n db).outcomes ≤ n
unfolding drain_pages
length-drain_pages-le connector lea_id clock zero db = omega arith
length-drain_pages-le connector lea_id clock (suc n) db =
    elim (Result-cases (process_one_page connector lea_id (clock n) db)) [
      | inl (e, h) ↦ rw (drain_pages, h) (omega arith)
      | inr (c, h) ↦ elim (Bool-cases (not c.outcome.has_more || not (succeeded c.outcome))) [
        | inl last ↦ rw (drain_pages, h, last) (omega arith)
        | inr more ↦
            rw (drain_pages, h, more)
              (omega (arith, length-drain_pages-le connector lea_id clock n c.db))
      ]
    ]

-- Each outcome starts at the cursor at which the one before ended.
abbrev pub Chained : String → List PageOutcome → String → Type 0
Chained start [] end = start ≡ end
Chained start (o ∷ outcomes) end = (o.cursor_before ≡ start) × Chained o.cursor_after outcomes end

chain_of :
    {connector : Connector} {lea_id : String} {db db' : Db} {outcomes : List PageOutcome}
    {failure : Option Failure}
    → Drains connector lea_id db outcomes db' failure
    → Chained
        (read_cursor db lea_id connector.name).value
        outcomes
        (read_cursor db' lea_id connector.name).value
chain_of (Drains.spent db) = refl
chain_of (Drains.raised db now e h) = refl
chain_of {connector} {lea_id} (Drains.stopped db now c h last) =
    cursors-process_one_page connector lea_id now db h
chain_of {connector} {lea_id} (Drains.continued db db' now c rest failure h more later) =
    let cursors = cursors-process_one_page connector lea_id now db h in
    (cursors.0, rw (cursors.1) (chain_of later))

single_of :
    {connector : Connector} {lea_id : String} {db db' : Db} {outcomes : List PageOutcome}
    {failure : Option Failure}
    → ((now : ℕ) (cursor : Cursor) (e : NormalizedEvent)
        → Memᴰ e (connector.fetch_changes now lea_id cursor).events
        → OwnLea lea_id e)
    → Drains connector lea_id db outcomes db' failure
    → SingleLive db
    → SingleLive db'
single_of own (Drains.spent db) single = single
single_of own (Drains.raised db now e h) single = single
single_of {connector} {lea_id} own (Drains.stopped db now c h last) single =
    process_one_page-SingleLive connector lea_id now db h (own now _) single
single_of {connector} {lea_id} own (Drains.continued db db' now c rest failure h more later)
      single =
    single_of own later (process_one_page-SingleLive connector lea_id now db h (own now _) single)

-- Every outcome but the last is of a page that succeeded and has more after it.
abbrev pub GoesOn : List PageOutcome → Type 0
GoesOn [] = Unit
GoesOn (o ∷ []) = Unit
GoesOn (o ∷ next ∷ rest) = ((o.has_more && succeeded o) ≡ true) × GoesOn (next ∷ rest)

GoesOn-cons :
    (o : PageOutcome) (rest : List PageOutcome)
    → (o.has_more && succeeded o) ≡ true
    → GoesOn rest
    → GoesOn (o ∷ rest)
GoesOn-cons o [] more on = tt
GoesOn-cons o (next ∷ rest) more on = (more, on)

GoesOn-of :
    {connector : Connector} {lea_id : String} {db db' : Db} {outcomes : List PageOutcome}
    {failure : Option Failure}
    → Drains connector lea_id db outcomes db' failure
    → GoesOn outcomes
GoesOn-of (Drains.spent db) = tt
GoesOn-of (Drains.raised db now e h) = tt
GoesOn-of (Drains.stopped db now c h last) = tt
GoesOn-of (Drains.continued db db' now c rest failure h more later) =
    GoesOn-cons c.outcome rest more (GoesOn-of later)

pub drain_lea-Drains :
    (connector : Connector) (degraded : Option Bool) (clock : ℕ → ℕ) (max_pages : ℕ)
    (lea_id : String) (db : Db)
    → let d = drain_lea connector degraded clock max_pages lea_id db in
      Drains connector lea_id db d.outcomes d.db d.failure
unfolding drain_lea
drain_lea-Drains connector (some true) clock max_pages lea_id db = spent db
drain_lea-Drains connector (some false) clock max_pages lea_id db =
    drain_pages-Drains connector lea_id clock max_pages db
drain_lea-Drains connector none clock max_pages lea_id db =
    drain_pages-Drains connector lea_id clock max_pages db

length-drain_lea-le :
    (connector : Connector) (degraded : Option Bool) (clock : ℕ → ℕ) (max_pages : ℕ)
    (lea_id : String) (db : Db)
    → length (drain_lea connector degraded clock max_pages lea_id db).outcomes ≤ max_pages
unfolding drain_lea
length-drain_lea-le connector (some true) clock max_pages lea_id db = omega arith
length-drain_lea-le connector (some false) clock max_pages lea_id db =
    length-drain_pages-le connector lea_id clock max_pages db
length-drain_lea-le connector none clock max_pages lea_id db =
    length-drain_pages-le connector lea_id clock max_pages db

module _ (connector : Connector) (degraded : Option Bool) (clock : ℕ → ℕ) (max_pages : ℕ)
    (lea_id : String) (db : Db) where
  abbrev pub drained : Drained
  drained = drain_lea connector degraded clock max_pages lea_id db

  abbrev pages_of : Drains connector lea_id db drained.outcomes drained.db drained.failure
  pages_of = drain_lea-Drains connector degraded clock max_pages lea_id db

  -- A drain processes at most `max_pages` pages, and every page but the last of them succeeded and
  -- has more after it.
  pub drain_lea-stops : (length drained.outcomes ≤ max_pages) × GoesOn drained.outcomes
  drain_lea-stops =
      (length-drain_lea-le connector degraded clock max_pages lea_id db, GoesOn-of pages_of)

  -- The pages of a drain chain by their cursors, however the drain ends: the first starts at the
  -- cursor that was stored before, each of the others where the one before it ended, and the cursor
  -- that is stored afterwards is where the last of them ended.
  pub drain_lea-Chained :
      Chained
        (read_cursor db lea_id connector.name).value
        drained.outcomes
        (read_cursor drained.db lea_id connector.name).value
  drain_lea-Chained = chain_of pages_of

  -- If every event about an LEA itself that the connector can return is about the polled one, a
  -- drain keeps at most one snapshot of a natural key live.
  pub drain_lea-SingleLive :
      ((now : ℕ) (cursor : Cursor) (e : NormalizedEvent)
        → Memᴰ e (connector.fetch_changes now lea_id cursor).events
        → OwnLea lea_id e)
      → SingleLive db
      → SingleLive drained.db
  drain_lea-SingleLive own single = single_of own pages_of single
