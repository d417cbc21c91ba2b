-- ===== src/Validation/Thresholds.antt =====
-- edlink_rostering/services/validation/layer_5_thresholds.py, and the `LEAState` of pipeline.py.
-- The floats are quotients: a median of whole numbers is a number of halves, the four thresholds
-- are decimal fractions, and the tests compare products in place of quotients. Below 2^50 events
-- these comparisons come out as those of correctly rounded floats.
use edlink_rostering.Base.{
  ℕ, zero, suc, ◌+◌, ◌-◌, ◌*◌, ◌/◌, ◌%◌, String, Bool, true, false, ◌&&◌, none, List, [], ◌∷◌, ◌++◌,
  length, count, ltb, leb, eqb, if◌then◌else◌,
}
use edlink_rostering.Entities.{student, enrollment, same_type, created, deleted, NormalizedEvent}
use edlink_rostering.Validation.Issues.{
  text, number, quotient, difference, warning, ValidationIssue, issue, yield_if,
}

pub record LeaState : Type 0 where
  pub lea_id : String
  pub known_student_ids : List String
  pub live_student_count : ℕ
  pub recent_event_counts : List ℕ
  pub recent_deletion_counts : List ℕ

-- A fraction `num / den`.
pub record Fraction : Type 0 where
  pub num : ℕ
  pub den : ℕ

pub record ThresholdConfig : Type 0 where
  pub volume_spike_multiplier : Fraction
  pub deletion_share_threshold : Fraction
  pub deletion_burst_multiplier : Fraction
  pub population_shift_threshold : Fraction
  pub min_history_for_thresholds : ℕ

abbrev pub default_config : ThresholdConfig
default_config = record {
  volume_spike_multiplier = record { num = 3; den = 1 };
  deletion_share_threshold = record { num = 30; den = 100 };
  deletion_burst_multiplier = record { num = 2; den = 1 };
  population_shift_threshold = record { num = 25; den = 100 };
  min_history_for_thresholds = 3;
}

abbrev pub is_deletion : NormalizedEvent → Bool
is_deletion e = elim e.operation [ deleted ↦ true | _ ↦ false ]

abbrev pub is_creation : NormalizedEvent → Bool
is_creation e = elim e.operation [ created ↦ true | _ ↦ false ]

abbrev pub is_student : NormalizedEvent → Bool
is_student e = same_type e.entity_type student

abbrev pub is_enrollment : NormalizedEvent → Bool
is_enrollment e = same_type e.entity_type enrollment

unfoldable pub insert_number : ℕ → List ℕ → List ℕ
insert_number n [] = n ∷ []
insert_number n (m ∷ ms) = if leb n m then n ∷ m ∷ ms else m ∷ insert_number n ms

unfoldable pub sort_numbers : List ℕ → List ℕ
unfolding insert_number
sort_numbers [] = []
sort_numbers (n ∷ ns) = insert_number n (sort_numbers ns)

nth : List ℕ → ℕ → ℕ
nth [] i = 0
nth (n ∷ ns) zero = n
nth (n ∷ ns) (suc i) = nth ns i

-- Twice `statistics.median`, of a list that is not empty.
unfoldable pub twice_median : List ℕ → ℕ
unfolding sort_numbers nth
twice_median ns =
    let sorted = sort_numbers ns in
    let half = length ns / 2 in
    if eqb (length ns % 2) 1 then 2 * nth sorted half else nth sorted (half - 1) + nth sorted half

-- Twice `max(1.0, float(median(ns)))`.
unfoldable pub twice_baseline : List ℕ → ℕ
twice_baseline ns = let m = twice_median ns in if ltb m 2 then 2 else m

observation_issue : List NormalizedEvent → LeaState → ValidationIssue
observation_issue events s =
    issue 5 "THRESHOLD_PAGE_OBSERVATION" warning
      (("lea_id", text s.lea_id)
        ∷ ("page_event_count", number (length events))
        ∷ ("student_events", number (count is_student events))
        ∷ ("enrollment_events", number (count is_enrollment events))
        ∷ ("deletion_events", number (count is_deletion events))
        ∷ ("known_students_in_lea", number (length s.known_student_ids))
        ∷ ("live_student_count", number s.live_student_count)
        ∷ ("history_size", number (length s.recent_event_counts))
        ∷ [])
      none

insufficient_issue : LeaState → ThresholdConfig → ValidationIssue
insufficient_issue s config =
    issue 5 "THRESHOLD_BASELINE_INSUFFICIENT" warning
      (("lea_id", text s.lea_id)
        ∷ ("history_size", number (length s.recent_event_counts))
        ∷ ("min_required", number config.min_history_for_thresholds)
        ∷ ("note", text "Spike thresholds suppressed until enough history is available.")
        ∷ [])
      none

-- `page_size > baseline_events * config.volume_spike_multiplier`
unfoldable pub volume_spikes : ℕ → ℕ → Fraction → Bool
volume_spikes page_size baseline2 m = ltb (baseline2 * m.num) (2 * (page_size * m.den))

-- `deletion_share >= threshold and deletion_events > baseline * multiplier`
unfoldable pub deletions_burst : ℕ → ℕ → ℕ → Fraction → Fraction → Bool
deletions_burst deletions page_size baseline2 share m =
    (if ltb 0 page_size
      then leb (share.num * page_size) (deletions * share.den)
      else leb share.num 0)
    && ltb (baseline2 * m.num) (2 * (deletions * m.den))

-- `drop_fraction >= threshold`, where the drop is `deletions - creations` and may be negative.
unfoldable pub population_drops : ℕ → ℕ → ℕ → Fraction → Bool
population_drops live creations deletions threshold =
    leb (threshold.num * live + creations * threshold.den) (deletions * threshold.den)

-- Twice the baseline of deletions, which is 1 where there is no history.
abbrev pub deletions_baseline2 : List ℕ → ℕ
deletions_baseline2 [] = 2
deletions_baseline2 (n ∷ ns) = twice_baseline (n ∷ ns)

baseline_deletions2 : LeaState → ℕ
baseline_deletions2 s = deletions_baseline2 s.recent_deletion_counts

volume_issue : ℕ → LeaState → ThresholdConfig → ValidationIssue
volume_issue page_size s config =
    let baseline2 = twice_baseline s.recent_event_counts in
    let m = config.volume_spike_multiplier in
    issue 5 "THRESHOLD_EVENT_VOLUME_SPIKE" warning
      (("lea_id", text s.lea_id)
        ∷ ("page_event_count", number page_size)
        ∷ ("baseline_median", quotient baseline2 2)
        ∷ ("multiplier_applied", quotient m.num m.den)
        ∷ ("spike_limit", quotient (baseline2 * m.num) (2 * m.den))
        ∷ [])
      none

deletion_issue : ℕ → ℕ → LeaState → ThresholdConfig → ValidationIssue
unfolding baseline_deletions2
deletion_issue deletions page_size s config =
    let baseline2 = baseline_deletions2 s in
    let share = config.deletion_share_threshold in
    let m = config.deletion_burst_multiplier in
    issue 5 "THRESHOLD_DELETION_BURST" warning
      (("lea_id", text s.lea_id)
        ∷ ("deletion_events", number deletions)
        ∷ ("deletion_share", quotient deletions page_size)
        ∷ ("deletion_share_threshold", quotient share.num share.den)
        ∷ ("baseline_median_deletions", quotient baseline2 2)
        ∷ ("multiplier_applied", quotient m.num m.den)
        ∷ ("deletion_spike_limit", quotient (baseline2 * m.num) (2 * m.den))
        ∷ [])
      none

population_issue : ℕ → ℕ → LeaState → ThresholdConfig → ValidationIssue
population_issue creations deletions s config =
    let live = s.live_student_count in
    let threshold = config.population_shift_threshold in
    issue 5 "THRESHOLD_POPULATION_SHIFT" warning
      (("lea_id", text s.lea_id)
        ∷ ("live_student_count", number live)
        ∷ ("projected_live_student_count", difference (live + creations) deletions)
        ∷ ("drop_fraction", quotient (deletions - creations) live)
        ∷ ("population_shift_threshold", quotient threshold.num threshold.den)
        ∷ [])
      none

-- The three threshold tests, once there is history enough.
unfoldable pub threshold_trips :
    List NormalizedEvent → LeaState → ThresholdConfig → List ValidationIssue
unfolding baseline_deletions2 volume_issue deletion_issue population_issue
threshold_trips events s config =
    let page_size = length events in
    let deletions = count is_deletion events in
    let creations = count (λ e. is_student e && is_creation e) events in
    let student_deletions = count (λ e. is_student e && is_deletion e) events in
    yield_if
      (volume_spikes page_size (twice_baseline s.recent_event_counts)
        config.volume_spike_multiplier)
      (volume_issue page_size s config)
    ++ yield_if
        (deletions_burst deletions page_size (baseline_deletions2 s) config.deletion_share_threshold
          config.deletion_burst_multiplier)
        (deletion_issue deletions page_size s config)
    ++ yield_if
        (ltb 0 s.live_student_count
          && population_drops s.live_student_count creations student_deletions
              config.population_shift_threshold)
        (population_issue creations student_deletions s config)

unfoldable pub check_thresholds :
    List NormalizedEvent → LeaState → ThresholdConfig → List ValidationIssue
unfolding observation_issue insufficient_issue
check_thresholds events s config =
    observation_issue events s
    ∷ (if ltb (length s.recent_event_counts) config.min_history_for_thresholds
        then insufficient_issue s config ∷ []
        else threshold_trips events s config)
