-- ===== src/Protocol/Jobs.antt =====
-- packages/protocol/src/jobs.ts: the allowlist of job kinds and the parse of a job request.
-- The parameter schemas are checked by zod's `safeParse`, which is an argument here: given a kind
-- of the allowlist and a JSON value it answers with the parsed value, or with none.
use mac_bennet.Prelude.{
  ℕ, String, Bool, List, [], ◌∷◌, Option, none, some, any, str_eq, if◌then◌else◌,
}

-- What `unknown` parameters can be.
mutual
  pub data Json : Type 0 where
    null : Json
    bool : Bool → Json
    number : ℕ → Json
    text : String → Json
    array : JsonItems → Json
    object : JsonFields → Json

  pub data JsonItems : Type 0 where
    nil : JsonItems
    cons : Json → JsonItems → JsonItems

  pub data JsonFields : Type 0 where
    end : JsonFields
    field : String → Json → JsonFields → JsonFields

-- The keys of `jobParamSchemas`.
abbrev pub job_kinds : List String
job_kinds =
    "noop" ∷ "echo" ∷ "sleep" ∷ "system_info" ∷ "workspace_check" ∷ "fail" ∷ "claude_code"
    ∷ "repo_inspect" ∷ "general_task" ∷ []

-- `list.includes(s)` on strings.
unfoldable pub includes : List String → String → Bool
includes l s = any (λ t. str_eq t s) l

unfoldable pub requires_approved_repository : String → Bool
unfolding includes
requires_approved_repository kind = includes ("claude_code" ∷ "repo_inspect" ∷ []) kind

unfoldable pub is_general_job_kind : String → Bool
unfolding includes
is_general_job_kind kind = includes ("general_task" ∷ []) kind

unfoldable pub is_allowed_job_kind : String → Bool
unfolding includes
is_allowed_job_kind kind = includes job_kinds kind

pub record JobSpec : Type 0 where
  pub kind : String
  pub params : Json

abbrev pub SafeParse : Type 0
SafeParse = String → Json → Option Json

-- `params ?? {}`
params_or_empty : Json → Json
params_or_empty null = object end
params_or_empty p = p

parsed_spec : String → Option Json → Option JobSpec
parsed_spec kind none = none
parsed_spec kind (some p) = some (record { kind = kind; params = p })

-- `none` is the `{ ok: false }` answer, whose message is left out.
unfoldable pub parse_job_spec : SafeParse → String → Json → Option JobSpec
unfolding params_or_empty parsed_spec
parse_job_spec safe_parse kind params =
    if is_allowed_job_kind kind
    then parsed_spec kind (safe_parse kind (params_or_empty params))
    else none
