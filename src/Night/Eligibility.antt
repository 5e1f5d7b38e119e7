-- ===== src/Night/Eligibility.antt =====
-- apps/server/src/domain/eligibility.ts: may a task be started without a person? The checks keep
-- their codes and results; details and the summary are left out. `normalise` stands for trimming
-- and lower-casing a label. A confidence is in billionths; a priority rank is in units of which
-- one priority band has `band`.
pub mod Verdict
use mac_bennet.Prelude.{
  ℕ, ◌+◌, ◌*◌, ◌-◌, ◌++◌, String, Bool, true, false, ◌&&◌, ◌||◌, not, List, [], ◌∷◌, Option, none,
  some, leb, any, keep, map, length, is_some, or_else, str_eq, ◌==◌, if◌then◌else◌,
}
use mac_bennet.Protocol.Enums.{TaskPriority, priority_rank}
use mac_bennet.Runs.Confidence.{Confidence, ConfidencePolicy, to_scaled}

pub data TaskKind : Type 0 where
  coding research analysis investigation scoping documentation administrative : TaskKind

-- The position in `TASK_KINDS`. `includes` compares it.
abbrev pub kind_index : TaskKind → ℕ
kind_index TaskKind.coding = 0
kind_index TaskKind.research = 1
kind_index TaskKind.analysis = 2
kind_index TaskKind.investigation = 3
kind_index TaskKind.scoping = 4
kind_index TaskKind.documentation = 5
kind_index TaskKind.administrative = 6

abbrev pub requires_repository : TaskKind → Bool
requires_repository TaskKind.coding = true
requires_repository k = false

abbrev pub requires_reasoning_model : TaskKind → Bool
requires_reasoning_model TaskKind.coding = false
requires_reasoning_model k = true

pub data ExecutionRequirement : Type 0 where
  repository worktree coding_agent build_and_tests pull_request : ExecutionRequirement
  monday_item reasoning_model company_context project_context : ExecutionRequirement
  research_tools artefact_output : ExecutionRequirement

pub data EligibilityCode : Type 0 where
  project_approved board_approved board_night_eligible item_flagged : EligibilityCode
  status_startable not_assigned_elsewhere dependencies_clear brief_exists : EligibilityCode
  confidence_above_floor confidence_permits_autonomy repository_approved : EligibilityCode
  no_active_run not_previously_blocked task_type_allowed task_kind_permitted : EligibilityCode
  worker_capability_available reasoning_model_available : EligibilityCode
  project_capabilities_sufficient : EligibilityCode

pub record BoardFacts : Type 0 where
  pub is_approved : Bool
  pub night_shift_eligible : Bool
  pub require_item_flag : Bool
  pub startable_statuses : List String
  pub completed_statuses : List String
  pub allowed_item_types : List String
  pub mac_user_id : Option String

pub record ItemFacts : Type 0 where
  pub status : Option String
  pub priority : Option String
  pub assignee_ids : List String
  pub night_shift_flag : Bool
  pub depends_on : List String
  pub item_type : Option String
  pub due_date : Option ℕ  -- Date.parse of it, none where that is NaN

pub record Capability : Type 0 where
  pub worker_available : Bool
  pub reasoning_model_available : Bool
  pub unmet_requirements : List ExecutionRequirement

-- The fields of `work` are those that `resolveWork` gives: coding, where none is said.
pub record EligibilityInput : Type 0 where
  pub night_shift_approved : Bool
  pub project_active : Bool
  pub allowed_task_kinds : Option (List TaskKind)
  pub task_kind : TaskKind
  pub priority : TaskPriority
  pub board : Option BoardFacts
  pub item : Option ItemFacts
  pub dependency_status : String → Option String
  pub brief_confidence : Option Confidence
  pub has_approved_limited_scope : Bool
  pub repository_approved : Bool
  pub has_active_run : Bool
  pub attempted_this_shift : Bool
  pub blocked_earlier_tonight : Bool
  pub capability : Option Capability
  pub policy : ConfidencePolicy
  pub board_order : ℕ

pub record Check : Type 0 where
  pub code : EligibilityCode
  pub ok : Bool

abbrev pub check : EligibilityCode → Bool → Check
check code ok = record { code = code; ok = ok }

abbrev pub has : List String → String → Bool
has l s = any (λ t. str_eq t s) l

-- Assigned to a person, not to Mac.
unfoldable pub assigned_elsewhere : Option String → List String → Bool
assigned_elsewhere none ids = not (length ids == 0)
assigned_elsewhere (some mac) ids = not (length ids == 0) && not (has ids mac)

-- A dependency without a known status is unfinished.
unfoldable pub is_unfinished : (String → String) → List String → Option String → Bool
is_unfinished normalise completed none = true
is_unfinished normalise completed (some s) =
    str_eq s "" || not (has (map normalise completed) (normalise s))

unfoldable pub type_allowed : (String → String) → BoardFacts → ItemFacts → Bool
type_allowed normalise board item =
    length board.allowed_item_types == 0
    || has (map normalise board.allowed_item_types) (normalise (or_else item.item_type ""))

unfoldable pub board_checks :
    (String → String) → (String → Option String) → BoardFacts → ItemFacts → List Check
board_checks normalise dependency_status board item =
    check EligibilityCode.board_approved board.is_approved
    ∷ check EligibilityCode.board_night_eligible board.night_shift_eligible
    ∷ check EligibilityCode.item_flagged (not board.require_item_flag || item.night_shift_flag)
    ∷ check EligibilityCode.status_startable
        (has (map normalise board.startable_statuses) (normalise (or_else item.status "")))
    ∷ check EligibilityCode.not_assigned_elsewhere
        (not (assigned_elsewhere board.mac_user_id item.assignee_ids))
    ∷ check EligibilityCode.dependencies_clear (
        not (
          any (λ id. is_unfinished normalise board.completed_statuses (dependency_status id))
            item.depends_on))
    ∷ check EligibilityCode.task_type_allowed (type_allowed normalise board item)
    ∷ []

-- `if (board && item)`
unfoldable pub all_board_checks : (String → String) → EligibilityInput → List Check
all_board_checks normalise i = elim i.board [
  | none ↦ []
  | some board ↦ elim i.item [
    | none ↦ []
    | some item ↦ board_checks normalise i.dependency_status board item
  ]
]

-- An empty allowlist permits coding only.
unfoldable pub kind_permitted : List TaskKind → TaskKind → Bool
kind_permitted [] kind = kind_index TaskKind.coding == kind_index kind
kind_permitted (k ∷ ks) kind = any (λ x. kind_index x == kind_index kind) (k ∷ ks)

unfoldable pub kind_checks : Option (List TaskKind) → TaskKind → List Check
kind_checks none kind = []
kind_checks (some kinds) kind =
    check EligibilityCode.task_kind_permitted (kind_permitted kinds kind) ∷ []

unfoldable pub above_floor : ConfidencePolicy → Option Confidence → Bool
above_floor policy none = false
above_floor policy (some c) = leb (to_scaled policy.min_execution_confidence) (to_scaled c)

unfoldable pub permits_autonomy : ConfidencePolicy → Option Confidence → Bool → Bool
permits_autonomy policy confidence limited =
    (above_floor policy confidence
      && leb (to_scaled policy.default_confidence_threshold) (to_scaled (or_else confidence 0)))
    || (above_floor policy confidence && limited)

-- Those that have no check of their own.
abbrev pub is_other_requirement : ExecutionRequirement → Bool
is_other_requirement ExecutionRequirement.repository = false
is_other_requirement ExecutionRequirement.reasoning_model = false
is_other_requirement r = true

unfoldable pub capability_checks : Option Capability → TaskKind → List Check
capability_checks none kind = []
capability_checks (some c) kind =
    check EligibilityCode.worker_capability_available c.worker_available
      ∷ (if requires_reasoning_model kind
          then check EligibilityCode.reasoning_model_available c.reasoning_model_available ∷ []
          else [])
    ++ (check EligibilityCode.project_capabilities_sufficient
          (length (keep is_other_requirement c.unmet_requirements) == 0)
        ∷ [])

unfoldable pub repository_checks : EligibilityInput → List Check
repository_checks i =
    if requires_repository i.task_kind
    then check EligibilityCode.repository_approved i.repository_approved ∷ []
    else []

unfoldable pub evaluate_checks : (String → String) → EligibilityInput → List Check
evaluate_checks normalise i =
    check EligibilityCode.project_approved (i.night_shift_approved && i.project_active)
    ∷ (all_board_checks normalise i
        ++ (kind_checks i.allowed_task_kinds i.task_kind
            ++ (check EligibilityCode.brief_exists (is_some i.brief_confidence)
                ∷ check EligibilityCode.confidence_above_floor
                    (above_floor i.policy i.brief_confidence)
                ∷ check EligibilityCode.confidence_permits_autonomy
                    (permits_autonomy i.policy i.brief_confidence i.has_approved_limited_scope)
                ∷ (repository_checks i
                    ++ (capability_checks i.capability i.task_kind
                        ++ (check EligibilityCode.no_active_run
                              (not i.has_active_run && not i.attempted_this_shift)
                            ∷ check EligibilityCode.not_previously_blocked
                                (not i.blocked_earlier_tonight)
                            ∷ []))))))

unfoldable pub blocking_codes : List Check → List EligibilityCode
blocking_codes [] = []
blocking_codes (c ∷ cs) = if c.ok then blocking_codes cs else c.code ∷ blocking_codes cs

unfoldable pub is_eligible : (String → String) → EligibilityInput → Bool
is_eligible normalise i = length (blocking_codes (evaluate_checks normalise i)) == 0

unfoldable pub monday_rank_of : String → ℕ
monday_rank_of key =
    if has ("critical" ∷ "urgent" ∷ "highest" ∷ []) key
    then 0
    else if str_eq "high" key
    then 1
    else if has ("medium" ∷ "normal" ∷ []) key
    then 2
    else if str_eq "low" key
    then 3
    else if str_eq "lowest" key
    then 4
    else 5

unfoldable pub monday_priority_rank : (String → String) → Option String → ℕ
monday_priority_rank normalise none = 5
monday_priority_rank normalise (some label) = monday_rank_of (normalise label)

-- Thirty days.
abbrev pub horizon_ms : ℕ
horizon_ms = 2592000000

abbrev at_most : ℕ → ℕ → ℕ
at_most limit n = if leb n limit then n else limit

-- The urgency, in milliseconds up to the horizon: 0 if overdue, half of it without a date.
unfoldable pub urgency_ms : ℕ → Option ℕ → ℕ
urgency_ms now none = 1296000000
urgency_ms now (some due) = at_most horizon_ms (due - now)

abbrev pub band : ℕ
band = 259200000000000

-- `priority + urgency * 0.9 + order * 0.09`
unfoldable pub rank_from : ℕ → ℕ → ℕ → ℕ
rank_from priority urgency board_order =
    priority * band + urgency * 90000 + at_most 999 board_order * 23328000000

unfoldable pub compute_priority_rank : (String → String) → ℕ → EligibilityInput → ℕ
compute_priority_rank normalise now i = elim i.item [
  | none ↦ rank_from (priority_rank i.priority) (urgency_ms now none) i.board_order
  | some item ↦
      rank_from (monday_priority_rank normalise item.priority) (urgency_ms now item.due_date)
        i.board_order
]
