-- ===== src/Revert/Superseding.antt =====
-- What superseding a row and clearing it again does to a table of snapshots.
use edlink_rostering.Base.{
  ℕ, String, ◌≡◌, refl, sym, Bool, true, false, not, ◌&&◌, ◌||◌, none, some, List, [], ◌∷◌, ◌++◌,
  map, arith, any, count, keep, eqb, eqb_refl, Memᴰ, inl, inr, Bool-cases, Option-cases,
}
use edlink_rostering.Database.{Snapshot, update_where, is_live}
use edlink_rostering.SyncWorker.Reads.{is_live_at}
use edlink_rostering.SyncWorker.Writes.{Job}
use edlink_rostering.SyncWorker.Live.{supersede}
use edlink_rostering.Revert.{is_live_of_job, is_superseded_by, is_prior, has_snapshot_id, clear}

-- Was the snapshot written or superseded by the job?
abbrev pub is_touched : ℕ → Snapshot → Bool
is_touched job s = eqb s.generation_id job || is_superseded_by job s.superseded_by_generation_id

abbrev pub is_dated : Snapshot → Bool
is_dated s = elim s.superseded_at [ none ↦ false | some _ ↦ true ]

module _ (job : Job) (k : String) where
  -- The snapshots that the job superseded are those that were live at the key.
  pub priors :
      (rows : List Snapshot)
      → any (is_touched job.sync_job_id) rows ≡ false
      → keep
          (is_prior job.lea_id k job.sync_job_id)
          (update_where (is_live_at job.lea_id k) (supersede job) rows)
        ≡ map (supersede job) (keep (is_live_at job.lea_id k) rows)
  priors [] h = refl
  priors (r ∷ rows) h = elim (Bool-cases (is_live_at job.lea_id k r)) [
    | inl live ↦
        let is : is_prior job.lea_id k job.sync_job_id (supersede job r) ≡ true =
          ground (arith, live, eqb_refl job.sync_job_id) in
        rw (live, is, priors rows (ground (arith, h))) refl
    | inr other ↦
        let is_not : is_prior job.lea_id k job.sync_job_id r ≡ false = ground (arith, h) in
        rw (other, is_not, priors rows (ground (arith, h))) refl
  ]

  pub none_written :
      (rows : List Snapshot)
      → any (is_touched job.sync_job_id) rows ≡ false
      → keep
          (is_live_of_job job.sync_job_id)
          (update_where (is_live_at job.lea_id k) (supersede job) rows)
        ≡ []
  none_written [] h = refl
  none_written (r ∷ rows) h = ground (arith, none_written rows)

  -- Nothing was live at the key: the UPDATE changes no row.
  pub supersede_nothing :
      (rows : List Snapshot)
      → keep (is_live_at job.lea_id k) rows ≡ []
      → update_where (is_live_at job.lea_id k) (supersede job) rows ≡ rows
  supersede_nothing [] h = refl
  supersede_nothing (r ∷ rows) h = elim (Bool-cases (is_live_at job.lea_id k r)) [
    | inl live ↦ cc (rw live at h)
    | inr other ↦ rw (other, supersede_nothing rows (rw other at h)) refl
  ]

  unsupersede : (r : Snapshot) → is_live r ≡ true → is_dated r ≡ false → clear (supersede job r) ≡ r
  unsupersede r live undated =
      let superseded : none ≡ r.superseded_by_generation_id =
        elim (Option-cases r.superseded_by_generation_id) [
          | inl null ↦ sym null
          | inr (g, e) ↦ cc (rw e at live)
        ] in
      let at : none ≡ r.superseded_at = elim (Option-cases r.superseded_at) [
        | inl null ↦ sym null
        | inr (n, e) ↦ cc (rw e at undated)
      ] in
      λ i. record r { superseded_by_generation_id = superseded i; superseded_at = at i }

  -- Clearing the one row that was live gives the table back.
  pub clear_superseded :
      (id : ℕ) (rows : List Snapshot)
      → any (λ r. is_live_at job.lea_id k r && not (has_snapshot_id id r)) rows ≡ false
      → any (λ r. has_snapshot_id id r && not (is_live_at job.lea_id k r)) rows ≡ false
      → any (λ r. is_live r && is_dated r) rows ≡ false
      → update_where
          (has_snapshot_id id)
          clear
          (update_where (is_live_at job.lea_id k) (supersede job) rows)
        ≡ rows
  clear_superseded id [] h g d = refl
  clear_superseded id (r ∷ rows) h g d = elim (Bool-cases (is_live_at job.lea_id k r)) [
    | inl live ↦
        let here : has_snapshot_id id r ≡ true = ground (arith, h, live) in
        let is : is_live r ≡ true = ground (arith, live) in
        let undated : is_dated r ≡ false = ground (arith, d, is) in
        rw
          (
            live,
            here,
            unsupersede r is undated,
            clear_superseded id rows (ground (arith, h)) (ground (arith, g)) (ground (arith, d)),
          )
          refl
    | inr other ↦
        let there : has_snapshot_id id r ≡ false = ground (arith, g, other) in
        rw
          (
            other,
            there,
            clear_superseded id rows (ground (arith, h)) (ground (arith, g)) (ground (arith, d)),
          )
          refl
  ]

-- A marked row is not live, and a table without the id is not changed.
pub mark_absent :
    (id : ℕ) (f : Snapshot → Snapshot) (rows : List Snapshot)
    → count (has_snapshot_id id) rows ≡ 0
    → update_where (has_snapshot_id id) f rows ≡ rows
mark_absent id f [] h = refl
mark_absent id f (r ∷ rows) h = elim (Bool-cases (has_snapshot_id id r)) [
  | inl here ↦ ground (arith, h)
  | inr other ↦ rw (other, mark_absent id f rows (ground (arith, h))) refl
]

pub update_where-append {ℓ} :
    {A : Type ℓ} (p : A → Bool) (f : A → A) (xs ys : List A)
    → update_where p f (xs ++ ys) ≡ update_where p f xs ++ update_where p f ys
update_where-append p f [] ys = refl
update_where-append p f (x ∷ xs) ys = rw (update_where-append p f xs ys) refl

pub kept_mem :
    (p : Snapshot → Bool) (rows : List Snapshot) {r : Snapshot}
    → Memᴰ r rows
    → p r ≡ true
    → Memᴰ r (keep p rows)
kept_mem p [] m h = elim m [ ]
kept_mem p (s ∷ rows) (Memᴰ.head here) h =
    let e : p s ≡ true = rw (← here) h in rw e (Memᴰ.head here)
kept_mem p (s ∷ rows) {r} (Memᴰ.tail there) h = elim (Bool-cases (p s)) [
  | inl is ↦ rw is (Memᴰ.tail (kept_mem p rows there h))
  | inr is_not ↦ rw is_not (kept_mem p rows there h)
]

pub only_mem : {r s : Snapshot} → Memᴰ r (s ∷ []) → r ≡ s
only_mem (Memᴰ.head here) = here
only_mem (Memᴰ.tail there) = elim there [ ]

pub kept_count :
    (p : Snapshot → Bool) (rows : List Snapshot) → count p rows ≡ count (λ r. true) (keep p rows)
kept_count p [] = refl
kept_count p (r ∷ rows) = ground (arith, kept_count p rows)
