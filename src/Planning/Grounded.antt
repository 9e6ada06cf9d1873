-- ===== src/Planning/Grounded.antt =====
-- What a preview rests on.
use travel_latest.Base.{
  ℕ, ◌≤◌, String, ◌≡◌, true, Option, none, some, List, [], ◌∷◌, arith, Option-cases, inl, inr,
  str_eq,
}
use travel_latest.Base.Tables.{All}
use travel_latest.Planning.{
  RetrievedSource, Citation, DraftEvent, DraftDay, PlanningDraft, contains, all_known, events_known,
  days_known, citation_ids_of, is_valid_draft, preview, source_by_id, is_trusted, check_citation,
  check_citations, check_draft, validate_planning_output,
}

-- A citation of a source that was retrieved, is trusted and belongs to the city.
pub record IsBacked (city : String) (sources : List RetrievedSource) (c : Citation) : Type 0 where
  pub source : RetrievedSource
  pub found : source_by_id c.source_id sources ≡ some source
  pub trusted : is_trusted source.status ≡ true
  pub same_city : str_eq source.city_code city ≡ true

check_citation-IsBacked :
    (city : String) (sources : List RetrievedSource) (c : Citation)
    → check_citation city sources c ≡ none
    → IsBacked city sources c
unfolding check_citation
check_citation-IsBacked city sources c h = elim (Option-cases (source_by_id c.source_id sources)) [
  | inl absent ↦ absurd (ground arith)
  | inr (s, found) ↦ record {
    source = s;
    found = found;
    trusted = ground arith;
    same_city = ground arith;
  }
]

check_citations-All :
    (city : String) (sources : List RetrievedSource) (cs : List Citation)
    → check_citations city sources cs ≡ none
    → All (IsBacked city sources) cs
unfolding check_citations
check_citations-All city sources [] h = tt
check_citations-All city sources (c ∷ cs) h = (
  check_citation-IsBacked city sources c (ground arith),
  check_citations-All city sources cs (ground arith),
)

all_known-All :
    (known is : List ℕ) → all_known known is ≡ true → All (λ i. contains i known ≡ true) is
unfolding all_known
all_known-All known [] h = tt
all_known-All known (i ∷ is) h = (ground arith, all_known-All known is (ground arith))

-- An event whose citations are all in the draft.
abbrev pub IsCited : List ℕ → DraftEvent → Type 0
IsCited known e = All (λ i. contains i known ≡ true) e.citation_ids

events_known-All :
    (known : List ℕ) (es : List DraftEvent) → events_known known es ≡ true → All (IsCited known) es
unfolding events_known
events_known-All known [] h = tt
events_known-All known (e ∷ es) h =
    (all_known-All known e.citation_ids (ground arith), events_known-All known es (ground arith))

days_known-All :
    (known : List ℕ) (ds : List DraftDay)
    → days_known known ds ≡ true
    → All (λ d. All (IsCited known) d.events) ds
unfolding days_known
days_known-All known [] h = tt
days_known-All known (d ∷ ds) h =
    (events_known-All known d.events (ground arith), days_known-All known ds (ground arith))

pub record IsGrounded (city : String) (sources : List RetrievedSource) (minimum : ℕ)
    (draft : PlanningDraft) : Type 0 where
  pub same_city : str_eq draft.city_code city ≡ true
  pub confident : minimum ≤ draft.confidence
  pub backed : All (IsBacked city sources) draft.citations
  pub cited : All (λ d. All (IsCited (citation_ids_of draft.citations)) d.events) draft.days

-- A draft that becomes a preview is for the requested city and at least as confident as demanded;
-- each of its citations names a retrieved, trusted source of that city, and each event cites only
-- citations of the draft.
pub validate_planning_output-IsGrounded :
    (city : String) (output : Option PlanningDraft) (sources : List RetrievedSource) (minimum : ℕ)
    (draft : PlanningDraft)
    → validate_planning_output city output sources minimum ≡ preview draft
    → (output ≡ some draft) × IsGrounded city sources minimum draft
unfolding validate_planning_output check_draft is_valid_draft
validate_planning_output-IsGrounded city none sources minimum draft h = absurd (ground arith)
validate_planning_output-IsGrounded city (some d) sources minimum draft h = (
  ground arith,
  record {
    same_city = ground arith;
    confident = ground arith;
    backed = check_citations-All city sources draft.citations (ground arith);
    cited = days_known-All (citation_ids_of draft.citations) draft.days (ground arith);
  },
)
