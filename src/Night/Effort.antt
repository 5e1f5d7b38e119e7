-- ===== src/Night/Effort.antt =====
-- apps/server/src/domain/effort.ts: the size class of a task and whether the rest of the night is
-- enough for it. Scores are hundredths, the safety factor is in hundredths, instants are
-- milliseconds. The tests of the brief's text by regular expression are inputs, a size label is
-- given trimmed and in lower case, and the signals and reasons as text are left out.
pub mod Fit
use mac_bennet.Prelude.{
  ℕ, ◌+◌, ◌*◌, ◌/◌, ◌-◌, round_double, String, Bool, true, false, ◌&&◌, ◌||◌, not, List, [], ◌∷◌,
  Option, none, some, ltb, leb, any, str_eq, or_else, if◌then◌else◌,
}

pub data EffortSizeClass : Type 0 where
  small medium large : EffortSizeClass

pub record EffortEstimate : Type 0 where
  pub size_class : EffortSizeClass
  pub minutes : ℕ
  pub partial_useful : Bool
  pub preservable : Bool

unfoldable pub size_minutes : EffortSizeClass → ℕ
size_minutes EffortSizeClass.small = 20
size_minutes EffortSizeClass.medium = 60
size_minutes EffortSizeClass.large = 150

-- What the estimate reads of a handoff brief.
pub record BriefFacts : Type 0 where
  pub criteria : ℕ
  pub components : ℕ
  pub considerations : ℕ
  pub risks : ℕ
  pub mentions_migration : Bool
  pub mentions_architecture : Bool

pub data ScopeKind : Type 0 where
  full limited : ScopeKind

pub record EffortInput : Type 0 where
  pub brief : Option BriefFacts
  pub size_label : Option String
  pub scope_kind : ScopeKind

abbrev listed : List String → String → Bool
listed l s = any (λ t. str_eq t s) l

unfoldable pub from_key : String → Option EffortSizeClass
from_key key =
    if listed ("xs" ∷ "s" ∷ "small" ∷ "tiny" ∷ "quick" ∷ "1" ∷ "2" ∷ []) key
    then some EffortSizeClass.small
    else if listed ("m" ∷ "medium" ∷ "normal" ∷ "3" ∷ "5" ∷ []) key
    then some EffortSizeClass.medium
    else if listed ("l" ∷ "xl" ∷ "large" ∷ "big" ∷ "epic" ∷ "8" ∷ "13" ∷ "21" ∷ []) key
    then some EffortSizeClass.large
    else none

unfoldable pub from_label : Option String → Option EffortSizeClass
from_label none = none
from_label (some key) = from_key key

-- A brief that is missing counts as large.
unfoldable pub brief_score : Option BriefFacts → ℕ
brief_score none = 1200
brief_score (some b) =
    b.criteria * 100
    + b.components * 150
    + b.considerations * 50
    + (if b.mentions_migration then 400 else 0)
    + (if b.mentions_architecture then 300 else 0)
    + (if ltb 2 b.risks then 200 else 0)

unfoldable pub scoped : ScopeKind → ℕ → ℕ
scoped ScopeKind.full score = score
scoped ScopeKind.limited score = score * 6 / 10

unfoldable pub derived_class : ℕ → EffortSizeClass
derived_class score =
    if leb score 400
    then EffortSizeClass.small
    else if leb score 1000
    then EffortSizeClass.medium
    else EffortSizeClass.large

abbrev pub is_large : EffortSizeClass → Bool
is_large EffortSizeClass.large = true
is_large c = false

abbrev pub is_limited : ScopeKind → Bool
is_limited ScopeKind.limited = true
is_limited ScopeKind.full = false

unfoldable pub touches_migration : Option BriefFacts → Bool
touches_migration none = false
touches_migration (some b) = b.mentions_migration

unfoldable pub size_class_of : EffortInput → EffortSizeClass
size_class_of input =
    or_else (from_label input.size_label)
      (derived_class (scoped input.scope_kind (brief_score input.brief)))

unfoldable pub estimate_effort : EffortInput → EffortEstimate
estimate_effort input = record {
  size_class = size_class_of input;
  minutes = size_minutes (size_class_of input);
  partial_useful = not (is_large (size_class_of input)) || is_limited input.scope_kind;
  preservable = not (touches_migration input.brief);
}

pub record SafeStartPolicy : Type 0 where
  pub safety_factor : ℕ
  pub wrap_up_minutes : ℕ
  pub min_start_minutes : ℕ
  pub large_task_min_minutes : ℕ

-- `Math.floor((cutoffAt - now) / 60_000)`, and 0 where that is negative: it is only compared after
-- the test that it is positive.
unfoldable pub remaining_minutes : ℕ → ℕ → ℕ
remaining_minutes now cutoff = (cutoff - now) / 60000

-- Doubles as numbers of 2^-60: the factor is at least a hundredth, and from there on every double is
-- such a number.
abbrev pub double_unit : ℕ
double_unit = 1152921504606846976

-- `Math.ceil(minutes * safetyFactor + wrapUpMinutes)` in doubles, where the factor is the double of
-- its hundredths.
unfoldable pub required_minutes : ℕ → SafeStartPolicy → ℕ
required_minutes minutes p =
    let factor = round_double (p.safety_factor * double_unit) 100 in
    let product = round_double (minutes * factor) 1 in
    let sum = round_double (product + p.wrap_up_minutes * double_unit) 1 in
    (sum + double_unit - 1) / double_unit

pub data SafeStart : Type 0 where
  enough partial : SafeStart
  cutoff_passed below_floor too_large too_short : SafeStart

unfoldable pub safe_to_start : ℕ → ℕ → EffortEstimate → SafeStartPolicy → SafeStart
safe_to_start now cutoff e p =
    let remaining = remaining_minutes now cutoff in
    if leb remaining 0
    then SafeStart.cutoff_passed
    else if ltb remaining p.min_start_minutes
    then SafeStart.below_floor
    else if is_large e.size_class && ltb remaining p.large_task_min_minutes
    then SafeStart.too_large
    else if leb (required_minutes e.minutes p) remaining
    then SafeStart.enough
    else if e.partial_useful && e.preservable
    then SafeStart.partial
    else SafeStart.too_short

-- The verdict's `safe`.
abbrev pub is_safe : SafeStart → Bool
is_safe SafeStart.enough = true
is_safe SafeStart.partial = true
is_safe v = false
