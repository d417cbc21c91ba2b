-- ===== src/Database/History.antt =====
-- A database and a later one: what may happen to the rows of the snapshot tables. The trigger of
-- alembic/versions/2026_05_21_0003_snapshot_immutability_and_retry.py asks of every UPDATE that it
-- keeps all columns but the two that close a row.
use edlink_rostering.Base.{◌≡◌, refl, ap, ◌∙◌, false, List, [], ◌∷◌, ◌++◌}
use edlink_rostering.Entities.{EntityType}
use edlink_rostering.Database.{Db, Snapshot, is_live}

-- The later state of a row: its content stays, and a row that is superseded stays as it is.
pub record LaterRow (s t : Snapshot) : Type 0 where
  pub snapshot_id : t.snapshot_id ≡ s.snapshot_id
  pub natural_key : t.natural_key ≡ s.natural_key
  pub lea_id : t.lea_id ≡ s.lea_id
  pub generation_id : t.generation_id ≡ s.generation_id
  pub deleted_upstream : t.deleted_upstream ≡ s.deleted_upstream
  pub source_event_id : t.source_event_id ≡ s.source_event_id
  pub source_event_at : t.source_event_at ≡ s.source_event_at
  pub created_at : t.created_at ≡ s.created_at
  pub payload : t.payload ≡ s.payload
  pub closed : is_live s ≡ false → t ≡ s

pub LaterRow-refl : (s : Snapshot) → LaterRow s s
LaterRow-refl s = record {
  snapshot_id = refl;
  natural_key = refl;
  lea_id = refl;
  generation_id = refl;
  deleted_upstream = refl;
  source_event_id = refl;
  source_event_at = refl;
  created_at = refl;
  payload = refl;
  closed = λ h. refl;
}

LaterRow-trans : (s t u : Snapshot) → LaterRow s t → LaterRow t u → LaterRow s u
LaterRow-trans s t u a b = record {
  snapshot_id = b.snapshot_id ∙ a.snapshot_id;
  natural_key = b.natural_key ∙ a.natural_key;
  lea_id = b.lea_id ∙ a.lea_id;
  generation_id = b.generation_id ∙ a.generation_id;
  deleted_upstream = b.deleted_upstream ∙ a.deleted_upstream;
  source_event_id = b.source_event_id ∙ a.source_event_id;
  source_event_at = b.source_event_at ∙ a.source_event_at;
  created_at = b.created_at ∙ a.created_at;
  payload = b.payload ∙ a.payload;
  closed = λ h. b.closed (ap is_live (a.closed h) ∙ h) ∙ a.closed h;
}

-- The later state of a table: its rows in their order, and rows after them.
abbrev pub LaterTable : List Snapshot → List Snapshot → Type 0
LaterTable [] new = Unit
LaterTable (s ∷ old) [] = ⊥
LaterTable (s ∷ old) (t ∷ new) = LaterRow s t × LaterTable old new

pub LaterTable-refl : (old : List Snapshot) → LaterTable old old
LaterTable-refl [] = tt
LaterTable-refl (s ∷ old) = (LaterRow-refl s, LaterTable-refl old)

LaterTable-trans : (a b c : List Snapshot) → LaterTable a b → LaterTable b c → LaterTable a c
LaterTable-trans [] b c h k = tt
LaterTable-trans (s ∷ a) [] c h k = elim h [ ]
LaterTable-trans (s ∷ a) (t ∷ b) [] h k = elim k [ ]
LaterTable-trans (s ∷ a) (t ∷ b) (u ∷ c) h k =
    (LaterRow-trans s t u h.0 k.0, LaterTable-trans a b c h.1 k.1)

pub LaterTable-append :
    (old new added : List Snapshot) → LaterTable old new → LaterTable old (new ++ added)
LaterTable-append [] new added h = tt
LaterTable-append (s ∷ old) [] added h = elim h [ ]
LaterTable-append (s ∷ old) (t ∷ new) added h = (h.0, LaterTable-append old new added h.1)

-- The later state of a database, as to its snapshots.
abbrev pub Later : Db → Db → Type 0
Later db db' = (t : EntityType) → LaterTable (db.snapshots t) (db'.snapshots t)

pub Later-same : (db db' : Db) → db'.snapshots ≡ db.snapshots → Later db db'
Later-same db db' e t = rw e (LaterTable-refl (db.snapshots t))

pub Later-trans : (a b c : Db) → Later a b → Later b c → Later a c
Later-trans a b c h k t =
    LaterTable-trans (a.snapshots t) (b.snapshots t) (c.snapshots t) (h t) (k t)
