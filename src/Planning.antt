-- ===== src/Planning.antt =====
-- The safety checks on a plan that a model drafts: backend/app/modules/ai_safety/contracts.py
-- (PlanningDraft) and validation.py. Source and citation identifiers are numbers, dates are days
-- counted from a fixed one, confidences are counted in ten-thousandths.
pub mod Grounded
mod Tests
use travel_latest.Base.{
  ℕ, String, Bool, true, false, not, ◌&&◌, ◌||◌, Option, none, some, List, [], ◌∷◌, map, ◌++◌, ◌==◌,
  ltb, leb, if◌then◌else◌, str_eq,
}
use travel_latest.Base.Lists.{length}

-- Every status that a source may have; the contract allows the first two.
pub data SourceStatus : Type 0 where
  approved verified untrusted : SourceStatus

pub record RetrievedSource : Type 0 where
  pub source_id : ℕ
  pub city_code : String
  pub status : SourceStatus

pub record Citation : Type 0 where
  pub citation_id : ℕ
  pub source_id : ℕ

pub record DraftEvent : Type 0 where
  pub title : String
  pub citation_ids : List ℕ

pub record DraftDay : Type 0 where
  pub date : Option ℕ
  pub events : List DraftEvent

pub record PlanningDraft : Type 0 where
  pub city_code : String
  pub title : String
  pub confidence : ℕ
  pub citations : List Citation
  pub days : List DraftDay

unfoldable pub contains : ℕ → List ℕ → Bool
contains i [] = false
contains i (j ∷ js) = i == j || contains i js

-- `len(xs) == len(set(xs))`
unfoldable pub is_unique : List ℕ → Bool
is_unique [] = true
is_unique (i ∷ is) = not (contains i is) && is_unique is

-- `not (set(xs) - known)`
unfoldable pub all_known : List ℕ → List ℕ → Bool
all_known known [] = true
all_known known (i ∷ is) = contains i known && all_known known is

unfoldable pub events_known : List ℕ → List DraftEvent → Bool
events_known known [] = true
events_known known (e ∷ es) =
    is_unique e.citation_ids && all_known known e.citation_ids && events_known known es

unfoldable pub days_known : List ℕ → List DraftDay → Bool
days_known known [] = true
days_known known (d ∷ ds) = events_known known d.events && days_known known ds

abbrev pub dates_of : List DraftDay → List ℕ
dates_of [] = []
dates_of (d ∷ ds) = elim d.date [ none ↦ dates_of ds | some t ↦ t ∷ dates_of ds ]

-- All days are dated or none is, and no date comes twice.
unfoldable pub dates_valid : List DraftDay → Bool
dates_valid days =
    (length (dates_of days) == 0 || length (dates_of days) == length days)
    && is_unique (dates_of days)

unfoldable pub citation_ids_of : List Citation → List ℕ
citation_ids_of = map (λ c. c.citation_id)

-- `validate_citation_references_and_dates`
unfoldable pub is_valid_draft : PlanningDraft → Bool
is_valid_draft draft =
    is_unique (citation_ids_of draft.citations)
    && days_known (citation_ids_of draft.citations) draft.days
    && dates_valid draft.days

pub data PlanningSafetyCode : Type 0 where
  invalid_structured_output low_confidence missing_citation : PlanningSafetyCode
  untrusted_citation city_mismatch : PlanningSafetyCode

-- `minimum_confidence` out of its range is a `ValueError`.
pub data PlanningValidationResult : Type 0 where
  preview : PlanningDraft → PlanningValidationResult
  clarification : PlanningSafetyCode → PlanningValidationResult
  value_error : PlanningValidationResult

abbrev pub later_source : RetrievedSource → Option RetrievedSource → RetrievedSource
later_source s none = s
later_source s (some t) = t

-- `{source.source_id: source for source in retrieved_sources}.get(source_id)`: the last one counts.
unfoldable pub source_by_id : ℕ → List RetrievedSource → Option RetrievedSource
source_by_id i [] = none
source_by_id i (s ∷ sources) =
    let rest = source_by_id i sources in
    if s.source_id == i then some (later_source s rest) else rest

abbrev pub is_trusted : SourceStatus → Bool
is_trusted approved = true
is_trusted verified = true
is_trusted untrusted = false

-- What the loop says of one citation.
unfoldable pub check_citation : String → List RetrievedSource → Citation → Option PlanningSafetyCode
check_citation city sources c = elim (source_by_id c.source_id sources) [
  | none ↦ some missing_citation
  | some s ↦
      if not (is_trusted s.status)
      then some untrusted_citation
      else if not (str_eq s.city_code city)
      then some city_mismatch
      else none
]

unfoldable pub check_citations :
    String → List RetrievedSource → List Citation → Option PlanningSafetyCode
check_citations city sources [] = none
check_citations city sources (c ∷ cs) =
    let rest = check_citations city sources cs in
    elim (check_citation city sources c) [ none ↦ rest | some code ↦ some code ]

-- The checks after the parsing.
unfoldable pub check_draft :
    String → List RetrievedSource → ℕ → PlanningDraft → PlanningValidationResult
check_draft city sources minimum_confidence draft =
    if not (str_eq draft.city_code city)
    then clarification city_mismatch
    else if ltb draft.confidence minimum_confidence
    then clarification low_confidence
    else elim (check_citations city sources draft.citations) [
      | none ↦ preview draft
      | some code ↦ clarification code
    ]

-- `none` is an output whose fields do not fit the contract.
unfoldable pub validate_planning_output :
    String → Option PlanningDraft → List RetrievedSource → ℕ → PlanningValidationResult
validate_planning_output city none sources minimum_confidence =
    if ltb 10000 minimum_confidence then value_error else clarification invalid_structured_output
validate_planning_output city (some draft) sources minimum_confidence =
    if ltb 10000 minimum_confidence
    then value_error
    else if not (is_valid_draft draft)
    then clarification invalid_structured_output
    else check_draft city sources minimum_confidence draft
