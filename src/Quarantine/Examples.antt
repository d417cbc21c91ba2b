-- ===== src/Quarantine/Examples.antt =====
-- The theorems about quarantine on a row whose student has arrived.
use edlink_rostering.Base.{ℕ, ◌≤◌, String, ◌≡◌, refl, true, none, some, [], ◌∷◌, Memᴰ, length, ok}
use edlink_rostering.Entities.{traditional_district, enrollment}
use edlink_rostering.Database.{Db, text, iso_date, null, Quarantined, released, has_student}
use edlink_rostering.Database.History.{Later}
use edlink_rostering.Quarantine.Release.{
  is_unresolved, in_lea, in_leas, get_text, list_unresolved, release,
}
use edlink_rostering.Quarantine.Runs.{row_at}
use edlink_rostering.Quarantine.Resolving.{ResolvedAs, Closed, release_checks, release_resolves}
use edlink_rostering.Quarantine.Listing.{OldestFirst, list_unresolved_scope}
use edlink_rostering.Scenario.{ada, empty_db}

abbrev waiting : Quarantined
waiting = record {
  id = 7;
  sync_job_id = 3;
  lea_id = "l1";
  entity_type = enrollment;
  entity_id = "n1";
  reason = "Layer 4: referential dependency unresolved";
  raw_payload =
      ("id", text "n1")
      ∷ ("lea_id", text "l1")
      ∷ ("student_id", text "s1")
      ∷ ("class_id", text "c1")
      ∷ ("begin_date", iso_date 20000)
      ∷ ("end_date", null)
      ∷ ("source_event_id", text "0002")
      ∷ [];
  created_at = 50;
  resolved_at = none;
  resolution_status = none;
  resolution_operator = none;
}

abbrev ready_db : Db
ready_db = record empty_db {
  leas =
      (record {
        lea = record {
          id = "l1";
          name = "LEA l1";
          lea_type = traditional_district;
          state = "XX";
          nces_lea_id = none;
        };
        deleted_at = none;
      })
      ∷ [];
  students = (record { student = ada; deleted_at = none }) ∷ [];
  quarantine = waiting ∷ [];
  fresh = 10;
}

abbrev released_db : ℕ × Db
released_db = elim (release 7 "op" 90 ready_db) [ ok done ↦ done | _ ↦ (0, ready_db) ]

releases : release 7 "op" 90 ready_db ≡ ok released_db
unfolding release
releases = refl

release_checks_example :
    (row : Quarantined) × (student_id : String) × (row_at 7 ready_db ≡ some row)
    × (is_unresolved row ≡ true)
    × (row.entity_type ≡ enrollment)
    × (get_text row.raw_payload "student_id" ≡ some student_id)
    × (has_student ready_db row.lea_id student_id ≡ true)
release_checks_example = release_checks 7 "op" 90 ready_db releases

release_resolves_example :
    ResolvedAs 7 released "op" 90 released_db.1
    × Closed 7 released_db.1
    × Later ready_db released_db.1
release_resolves_example = release_resolves 7 "op" 90 ready_db releases

list_unresolved_scope_example :
    (length (list_unresolved ready_db none (some ("l1" ∷ [])) 50) ≤ 50)
    × OldestFirst (list_unresolved ready_db none (some ("l1" ∷ [])) 50)
    × ((r : Quarantined)
        → Memᴰ r (list_unresolved ready_db none (some ("l1" ∷ [])) 50)
        → Memᴰ r (waiting ∷ [])
          × (is_unresolved r ≡ true)
          × (in_lea none r ≡ true)
          × (in_leas (some ("l1" ∷ [])) r ≡ true))
list_unresolved_scope_example = list_unresolved_scope ready_db none (some ("l1" ∷ [])) 50
