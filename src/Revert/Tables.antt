-- ===== src/Revert/Tables.antt =====
-- The three tables: a revert begins with every live snapshot of the job, and leaves none.
use edlink_rostering.Base.{
  ℕ, ◌≤◌, ◌≡◌, refl, ◌∙◌, Bool, true, false, not, ◌&&◌, ◌||◌, some, List, [], ◌∷◌, ◌++◌, arith, any,
  any-append, count, keep, find, eqb, eqb_refl, Memᴰ, ok, Result-cases, inl, inr, Bool-cases,
  Option-cases,
}
use edlink_rostering.Entities.{EntityType, lea, student, enrollment}
use edlink_rostering.Database.{Db, Snapshot, SyncJob}
use edlink_rostering.Retry.{is_revert}
use edlink_rostering.Revert.{
  Tally, is_sync, is_overtaken, is_live_of_job, live_of_job, by_event, insert_by_event,
  has_snapshot_id, opened, revert_job, insert_revert_sync_job_row, revert_table, revert_tables,
}
use edlink_rostering.Revert.Rows.{Pending, Round, is_ahead, is_missed, any_fails, revert_rows-Round}

pub any_nowhere {ℓ} :
    {A : Type ℓ} (p : A → Bool) (xs : List A)
    → ((x : A) → Memᴰ x xs → p x ≡ false)
    → any p xs ≡ false
any_nowhere p [] h = refl
any_nowhere p (x ∷ xs) h = rw (h x (Memᴰ.head refl)) (any_nowhere p xs (λ y m. h y (Memᴰ.tail m)))

kept_ahead :
    (p : Snapshot → Bool) (rows : List Snapshot) (s : Snapshot)
    → Memᴰ s rows
    → p s ≡ true
    → is_ahead (keep p rows) s ≡ true
kept_ahead p [] s m k = elim m [ ]
kept_ahead p (r ∷ rows) s (Memᴰ.head here) k =
    let same : p r ≡ true = rw (← here) k in rw (same, ← here, eqb_refl s.snapshot_id) refl
kept_ahead p (r ∷ rows) s (Memᴰ.tail there) k = ground (arith, kept_ahead p rows s there k)

any-insert_by_event :
    (p : Snapshot → Bool) (s : Snapshot) (rows : List Snapshot)
    → any p (insert_by_event s rows) ≡ (p s || any p rows)
any-insert_by_event p s [] = refl
any-insert_by_event p s (t ∷ rows) = ground (arith, any-insert_by_event p s rows)

any-by_event : (p : Snapshot → Bool) (rows : List Snapshot) → any p (by_event rows) ≡ any p rows
any-by_event p [] = refl
any-by_event p (s ∷ rows) = rw (any-insert_by_event p s (by_event rows), any-by_event p rows) refl

keep_nothing {ℓ} : {A : Type ℓ} (p : A → Bool) (xs : List A) → any p xs ≡ false → keep p xs ≡ []
keep_nothing p [] h = refl
keep_nothing p (x ∷ xs) h = ground (arith, keep_nothing p xs)

pub find_before {ℓ} :
    {A : Type ℓ} (p : A → Bool) (xs ys : List A) {x : A}
    → find p xs ≡ some x
    → find p (xs ++ ys) ≡ some x
find_before p [] ys h = cc
find_before p (x ∷ xs) ys h = elim (Bool-cases (p x)) [
  | inl here ↦ rw here (rw here at h)
  | inr there ↦ rw there (find_before p xs ys (rw there at h))
]

-- The job of a revert counts as no sync.
pub is_sync-opened :
    (sync_job_id : ℕ) (target : SyncJob) (now : ℕ) (db : Db) (id : ℕ)
    → is_sync (opened sync_job_id target now db) id ≡ is_sync db id
unfolding insert_revert_sync_job_row
is_sync-opened sync_job_id target now db id =
    rw
      (any-append (λ j. eqb j.id id && not (is_revert j)) db.sync_jobs
        (revert_job db.fresh sync_job_id target now ∷ []))
      (ground arith)

pub overtaken_same :
    (db o : Db) (job : ℕ) (rows : List Snapshot)
    → ((id : ℕ) → is_sync o id ≡ is_sync db id)
    → any (is_overtaken db job) rows ≡ false
    → any (is_overtaken o job) rows ≡ false
overtaken_same db o job [] same h = refl
overtaken_same db o job (s ∷ rows) same h =
    let below = overtaken_same db o job rows same (ground (arith, h)) in
    elim (Option-cases s.superseded_by_generation_id) [
      | inl live ↦ rw live (ground (arith, below))
      | inr (g, superseded) ↦ rw (superseded, same g) (ground (arith, below, rw superseded at h))
    ]

-- The loop begins with every live snapshot of the job before it.
Pending-start :
    (o : Db) (job : ℕ) (rows : List Snapshot)
    → any (is_overtaken o job) rows ≡ false
    → ((i : ℕ) → count (has_snapshot_id i) rows ≤ 1)
    → Pending o job (live_of_job job rows) rows
Pending-start o job rows h ids = record {
  ahead = any_nowhere (is_missed job (live_of_job job rows)) rows (λ s m.
      elim (Bool-cases (is_live_of_job job s)) [
        | inl live ↦
            rw
              (
                live,
                any-by_event (has_snapshot_id s.snapshot_id) (keep (is_live_of_job job) rows),
                kept_ahead (is_live_of_job job) rows s m live,
              )
              refl
        | inr gone ↦ rw gone refl
      ]);
  not_overtaken = h;
  one_id = ids;
}

-- After the loop there is nothing left to revert.
pub Pending-done :
    (o : Db) (job : ℕ) (rows : List Snapshot) → Pending o job [] rows → live_of_job job rows ≡ []
Pending-done o job rows p =
    let nothing : any (is_live_of_job job) rows ≡ false =
      any_nowhere (is_live_of_job job) rows
        (λ s m. ground (arith, any_fails (is_missed job []) rows p.ahead m)) in
    rw (keep_nothing (is_live_of_job job) rows nothing) refl

all_types : (F : EntityType → Type 0) → F student → F enrollment → F lea → (t : EntityType) → F t
all_types F a b c student = a
all_types F a b c enrollment = b
all_types F a b c lea = c

module _ (o : Db) (job revert_id now : ℕ) (sync : is_sync o job ≡ true)
    (no_sync : is_sync o revert_id ≡ false)
    (fine : (t : EntityType) → any (is_overtaken o job) (o.snapshots t) ≡ false)
    (ids : (t : EntityType) (i : ℕ) → count (has_snapshot_id i) (o.snapshots t) ≤ 1) where
  table-Round :
      (t : EntityType) (tally : Tally) (db : Db) {result : Tally × Db}
      → db.snapshots t ≡ o.snapshots t
      → revert_table t job revert_id now (tally, db) ≡ ok result
      → Round o t job [] db result.1
  unfolding revert_table
  table-Round t tally db same h =
      revert_rows-Round o t job revert_id now sync no_sync (live_of_job job (db.snapshots t))
        (tally, db) h (Pending-start o job (db.snapshots t) (rw same (fine t)) (rw same (ids t)))

  -- What the three rounds leave.
  pub record Reverted (after : Db) : Type 0 where
    pub tables : (t : EntityType) → Pending o job [] (after.snapshots t)
    pub sync_jobs : after.sync_jobs ≡ o.sync_jobs

  pub revert_tables-Reverted :
      (tally : Tally) {result : Tally × Db}
      → revert_tables job revert_id now (tally, o) ≡ ok result
      → Reverted result.1
  unfolding revert_tables
  revert_tables-Reverted tally {result} h =
      elim (Result-cases (revert_table student job revert_id now (tally, o))) [
        | inl (s, run₁) ↦
            let r₁ = table-Round student tally o refl run₁ in
            elim (Result-cases (revert_table enrollment job revert_id now s)) [
              | inl (e, run₂) ↦
                  let r₂ = table-Round enrollment s.0 s.1 (r₁.one.others enrollment refl) run₂ in
                  let run₃ : revert_table lea job revert_id now e ≡ ok result =
                    cc (rw (run₁, run₂) at h) in
                  let r₃ =
                    table-Round lea e.0 e.1 (r₂.one.others lea refl ∙ r₁.one.others lea refl)
                      run₃ in
                  record {
                    tables =
                        all_types (λ t. Pending o job [] (result.1.snapshots t))
                          (rw (r₃.one.others student refl, r₂.one.others student refl) r₁.table)
                          (rw (r₃.one.others enrollment refl) r₂.table) r₃.table;
                    sync_jobs = r₃.one.sync_jobs ∙ r₂.one.sync_jobs ∙ r₁.one.sync_jobs;
                  }
              | inr (e, failed) ↦ cc (rw (run₁, failed) at h)
            ]
        | inr (e, failed) ↦ cc (rw failed at h)
      ]
