-- ===== src/Runs/Moves/Fields.antt =====
-- What every move keeps.
use mac_bennet.Prelude.{◌≡◌, refl}
use mac_bennet.Runs.Db.{Run}
use mac_bennet.Runs.Moves.{Move}
use mac_bennet.Runs.Service.Approval.{submit_patch, approve_patch, queue_patch, reject_patch}
use mac_bennet.Runs.Service.Dispatch.{dispatch_patch, refuse_patch}
use mac_bennet.Runs.Service.Acceptance.{assess_patch}
use mac_bennet.Runs.Service.Progress.{progress_patch, complete_patch}
use mac_bennet.Runs.Service.Cancel.{cancel_now_patch, cancel_flag_patch, force_patch}

-- All the writes to a row, to be unfolded together.
unfoldable pub patches : Unit {0}
unfolding assess_patch submit_patch approve_patch queue_patch reject_patch dispatch_patch
    refuse_patch progress_patch complete_patch cancel_now_patch cancel_flag_patch force_patch
patches = tt

-- No move changes the key, the task, the job or the company context of a run.
pub Move-fields :
    {r s : Run}
    → Move r s
    → (s.id ≡ r.id)
      × (s.task_id ≡ r.task_id)
      × (s.job_kind ≡ r.job_kind)
      × (s.job_params ≡ r.job_params)
      × (s.company_context_revision_id ≡ r.company_context_revision_id)
unfolding patches
Move-fields (Move.submit t c) = (refl, refl, refl, refl, refl)
Move-fields m = (refl, refl, refl, refl, refl)
