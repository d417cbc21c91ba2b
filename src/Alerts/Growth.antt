-- ===== src/Alerts/Growth.antt =====
-- The alert on the growth of the quarantine.
use edlink_rostering.Base.{
  ℕ, ◌≤◌, String, ◌≡◌, refl, sym, ◌∙◌, Bool, true, false, ◌&&◌, List, [], ◌∷◌, map, arith, any,
  count, keep, ltb, mem, ◌==◌, eq_iff, eq_refl, if◌then◌else◌, inl, inr, Bool-cases,
}
use edlink_rostering.Database.{Db, Quarantined}
use edlink_rostering.Alerts.{
  AlertRecord, Printer, AlertLimits, is_recent, is_of_lea, leas_of, is_over, growth_alert,
  evaluate_quarantine_growth,
}

-- Is the alert about the LEA, by its properties?
abbrev pub names_lea : String → AlertRecord → Bool
names_lea lea_id a = any (λ e. e.0 == "lea_id" && e.1 == lea_id) a.properties

count_absent : (s : String) (xs : List String) → mem s xs ≡ false → count (λ x. x == s) xs ≡ 0
count_absent s [] h = refl
count_absent s (x ∷ xs) h = elim (Bool-cases (x == s)) [
  | inl same ↦
      let e : x ≡ s = (eq_iff x s).0 same in
      let here : (s == x) ≡ true = rw e (eq_refl s) in ground (arith, h, here)
  | inr other ↦ rw other (count_absent s xs (ground (arith, h)))
]

count_present : (s : String) (xs : List String) → mem s xs ≡ true → 1 ≤ count (λ x. x == s) xs
count_present s [] h = cc
count_present s (x ∷ xs) h = elim (Bool-cases (x == s)) [
  | inl same ↦ rw same (omega arith)
  | inr other ↦
      let there : (s == x) ≡ false = elim (Bool-cases (s == x)) [
        | inl same ↦ cc (rw (sym ((eq_iff s x).0 same), eq_refl s) at other)
        | inr differs ↦ differs
      ] in
      rw other (count_present s xs (ground (arith, h, there)))
]

-- A group is named once, if one of the rows is in it.
count-leas_of :
    (lea_id : String) (rows : List Quarantined)
    → count (λ x. x == lea_id) (leas_of rows) ≡ (if any (is_of_lea lea_id) rows then 1 else 0)
count-leas_of lea_id [] = refl
count-leas_of lea_id (r ∷ rows) =
    let group = count-leas_of lea_id rows in
    elim (Bool-cases (r.lea_id == lea_id)) [
      | inl same ↦
          let e : r.lea_id ≡ lea_id = (eq_iff r.lea_id lea_id).0 same in
          elim (Bool-cases (mem lea_id (leas_of rows))) [
            | inl known ↦
                rw (e, known, eq_refl lea_id)
                  (ground (arith, group, count_present lea_id (leas_of rows) known))
            | inr fresh ↦
                rw (e, fresh, eq_refl lea_id)
                  (ground (arith, count_absent lea_id (leas_of rows) fresh))
          ]
      | inr other ↦ elim (Bool-cases (mem r.lea_id (leas_of rows))) [
        | inl known ↦ rw (known, other) group
        | inr fresh ↦ rw (fresh, other) group
      ]
    ]

count-keep :
    (p : String → Bool) (s : String) (xs : List String)
    → count (λ x. x == s) (keep p xs) ≡ (if p s then count (λ x. x == s) xs else 0)
count-keep p s [] = ground arith
count-keep p s (x ∷ xs) = elim (Bool-cases (x == s)) [
  | inl same ↦ let e : x ≡ s = (eq_iff x s).0 same in rw e (ground (arith, count-keep p s xs))
  | inr other ↦ elim (Bool-cases (p x)) [
    | inl kept ↦ rw (kept, other) (count-keep p s xs)
    | inr dropped ↦ rw (dropped, other) (count-keep p s xs)
  ]
]

count_none {ℓ} : {A : Type ℓ} (p : A → Bool) (xs : List A) → any p xs ≡ false → count p xs ≡ 0
count_none p [] h = refl
count_none p (x ∷ xs) h = ground (arith, count_none p xs)

count-map {ℓ κ} :
    {A : Type ℓ} {B : Type κ} (f : A → B) (p : B → Bool) (xs : List A)
    → count p (map f xs) ≡ count (λ x. p (f x)) xs
count-map f p [] = refl
count-map f p (x ∷ xs) = rw (count-map f p xs) refl

count-eq {ℓ} :
    {A : Type ℓ} (p q : A → Bool) (xs : List A) → ((x : A) → p x ≡ q x) → count p xs ≡ count q xs
count-eq p q [] same = refl
count-eq p q (x ∷ xs) same = rw (same x, count-eq p q xs same) refl

count-both :
    (p q : Quarantined → Bool) (rows : List Quarantined)
    → count p (keep q rows) ≡ count (λ r. q r && p r) rows
count-both p q [] = refl
count-both p q (r ∷ rows) = ground (arith, count-both p q rows)

-- An alert names its LEA and no other.
names_lea-growth_alert :
    (p : Printer) (limits : AlertLimits) (hours : ℕ) (rows : List Quarantined) (lea_id s : String)
    → names_lea lea_id (growth_alert p limits hours rows s) ≡ (s == lea_id)
names_lea-growth_alert p limits hours rows lea_id s = ground arith

-- An LEA is named by one alert if more than the threshold of its quarantined rows are unresolved and
-- were made in the window, and by no alert otherwise.
pub growth_alert_per_lea :
    (p : Printer) (limits : AlertLimits) (hours now : ℕ) (db : Db) (lea_id : String)
    → count (names_lea lea_id) (evaluate_quarantine_growth p limits hours now db) ≡ (
        if ltb limits.quarantine
          (count (λ r. is_recent hours now r && is_of_lea lea_id r) db.quarantine)
        then 1
        else 0)
unfolding evaluate_quarantine_growth
growth_alert_per_lea p limits hours now db lea_id =
    let rows = keep (is_recent hours now) db.quarantine in
    let over = is_over limits.quarantine rows in
    let groups = leas_of rows in
    count-map (growth_alert p limits hours rows) (names_lea lea_id) (keep over groups)
    ∙ count-eq (λ s. names_lea lea_id (growth_alert p limits hours rows s)) (λ s. s == lea_id)
        (keep over groups) (names_lea-growth_alert p limits hours rows lea_id)
    ∙ count-keep over lea_id groups
    ∙ rw
        (
          count-leas_of lea_id rows,
          ← count-both (is_of_lea lea_id) (is_recent hours now) db.quarantine,
        )
        (ground (arith, count_none (is_of_lea lea_id) rows))
