-- ===== src/Validation/Orders.antt =====
-- Layer 5 counts and takes medians: the order of the events in a page, and of the history, do not
-- matter to it.
use edlink_rostering.Base.{
  ℕ, suc, ◌≡◌, refl, ap, ◌∙◌, Bool, ◌&&◌, List, [], ◌∷◌, arith, length, count,
}
use mathlib.Core.List.{Permᴰ}
use edlink_rostering.Entities.{NormalizedEvent}
use edlink_rostering.Validation.Thresholds.{
  LeaState, ThresholdConfig, insert_number, sort_numbers, twice_median, twice_baseline,
  deletions_baseline2, check_thresholds, threshold_trips, is_student, is_enrollment, is_deletion,
  is_creation,
}

length-Perm {ℓ} : {A : Type ℓ} {xs ys : List A} → Permᴰ xs ys → length xs ≡ length ys
length-Perm Permᴰ.nil = refl
length-Perm (Permᴰ.cons e p) = ap suc (length-Perm p)
length-Perm (Permᴰ.swap e d) = refl
length-Perm (Permᴰ.trans p q) = length-Perm p ∙ length-Perm q

count-Perm {ℓ} :
    {A : Type ℓ} (f : A → Bool) {xs ys : List A} → Permᴰ xs ys → count f xs ≡ count f ys
count-Perm f Permᴰ.nil = refl
count-Perm f (Permᴰ.cons e p) = rw e (ground (arith, count-Perm f p))
count-Perm f (Permᴰ.swap e d) = rw (e, d) (ground arith)
count-Perm f (Permᴰ.trans p q) = count-Perm f p ∙ count-Perm f q

insert_number_comm :
    (a b : ℕ) (ns : List ℕ)
    → insert_number a (insert_number b ns) ≡ insert_number b (insert_number a ns)
unfolding insert_number
insert_number_comm a b [] = ground arith
insert_number_comm a b (n ∷ ns) = ground (arith, insert_number_comm a b ns)

sort_numbers-Perm : {ms ns : List ℕ} → Permᴰ ms ns → sort_numbers ms ≡ sort_numbers ns
unfolding sort_numbers
sort_numbers-Perm Permᴰ.nil = refl
sort_numbers-Perm (Permᴰ.cons {a = a} {b = b} {l₁ = l} {l₂ = k} e p) = rw (e, sort_numbers-Perm p)
sort_numbers-Perm (Permᴰ.swap {a = a} {b = b} {a' = c} {b' = d} {l = l} e f) =
    rw (e, f) (insert_number_comm d c (sort_numbers l))
sort_numbers-Perm (Permᴰ.trans p q) = sort_numbers-Perm p ∙ sort_numbers-Perm q

twice_baseline-Perm : {ms ns : List ℕ} → Permᴰ ms ns → twice_baseline ms ≡ twice_baseline ns
unfolding twice_baseline twice_median
twice_baseline-Perm p = rw (sort_numbers-Perm p, length-Perm p)

deletions_baseline2-Perm :
    (ms ns : List ℕ) → Permᴰ ms ns → deletions_baseline2 ms ≡ deletions_baseline2 ns
deletions_baseline2-Perm [] [] p = refl
deletions_baseline2-Perm [] (n ∷ ns) p = let e = length-Perm p in ground (arith, e)
deletions_baseline2-Perm (m ∷ ms) [] p = let e = length-Perm p in ground (arith, e)
deletions_baseline2-Perm (m ∷ ms) (n ∷ ns) p = twice_baseline-Perm p

-- The issues of Layer 5 are the same if the events of the page come in another order, and the
-- counts of the history in other orders.
pub check_thresholds-Perm :
    (events events' : List NormalizedEvent) (s s' : LeaState) (config : ThresholdConfig)
    → Permᴰ events events'
    → Permᴰ s.recent_event_counts s'.recent_event_counts
    → Permᴰ s.recent_deletion_counts s'.recent_deletion_counts
    → s'.lea_id ≡ s.lea_id
    → s'.known_student_ids ≡ s.known_student_ids
    → s'.live_student_count ≡ s.live_student_count
    → check_thresholds events s config ≡ check_thresholds events' s' config
unfolding check_thresholds threshold_trips
check_thresholds-Perm events events' s s' config p q r lea known live = rw (
  lea,
  known,
  live,
  length-Perm p,
  length-Perm q,
  twice_baseline-Perm q,
  deletions_baseline2-Perm s.recent_deletion_counts s'.recent_deletion_counts r,
  count-Perm is_student p,
  count-Perm is_enrollment p,
  count-Perm is_deletion p,
  count-Perm (λ e. is_student e && is_creation e) p,
  count-Perm (λ e. is_student e && is_deletion e) p,
)
