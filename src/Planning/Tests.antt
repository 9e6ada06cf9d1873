-- ===== src/Planning/Tests.antt =====
-- The theorem on planning drafts at a concrete draft.
use travel_latest.Base.{◌≡◌, refl, none, some, List, [], ◌∷◌}
use travel_latest.Planning.{
  RetrievedSource, approved, PlanningDraft, preview, contains, is_unique, all_known, events_known,
  days_known, dates_valid, citation_ids_of, is_valid_draft, source_by_id, check_citation,
  check_citations, check_draft, validate_planning_output,
}
use travel_latest.Planning.Grounded.{IsGrounded, validate_planning_output-IsGrounded}

abbrev one_source : List RetrievedSource
one_source = record { source_id = 1; city_code = "SHA"; status = approved } ∷ []

abbrev short_draft : PlanningDraft
short_draft = record {
  city_code = "SHA";
  title = "One day";
  confidence = 8000;
  citations = record { citation_id = 5; source_id = 1 } ∷ [];
  days =
      record { date = none; events = record { title = "Walk"; citation_ids = 5 ∷ [] } ∷ [] } ∷ [];
}

accepted : validate_planning_output "SHA" (some short_draft) one_source 7000 ≡ preview short_draft
unfolding validate_planning_output is_valid_draft is_unique contains days_known events_known
    all_known dates_valid citation_ids_of check_draft check_citations check_citation source_by_id
accepted = refl

validate_planning_output_example :
    (some short_draft ≡ some short_draft) × IsGrounded "SHA" one_source 7000 short_draft
validate_planning_output_example =
    validate_planning_output-IsGrounded "SHA" (some short_draft) one_source 7000 short_draft
      accepted
