-- ===== src/Runs/Behaviour/Cutoff.antt =====
-- The cutoff sweep leaves no run past its cutoff that has not been asked to stop.
use mac_bennet.Prelude.{
  ℕ, ◌≡◌, ◌<◌, suc, refl, sym, subst, true, false, Bool, Bool-cases, inl, inr, List, [], ◌∷◌, some,
  keep, any, All, arith, ◌==◌,
}
use mac_bennet.Protocol.Enums.{StopReason}
use mac_bennet.Runs.Db.{Run, Db, get_run, update_run, system_actor}
use mac_bennet.Runs.Db.Rows.{IsKeyed}
use mac_bennet.Runs.Service.Cancel.{is_past_cutoff, stop_each, stop_runs_past_overnight_cutoff}
use mac_bennet.Runs.Refine.{HasKeys, commit_rule}
use mac_bennet.Runs.Refine.Cancel.{request_cancel-moves}
use mac_bennet.Runs.Behaviour.Clears.{request_cancel-Clears}

-- Among the runs still to be dealt with.
abbrev is_listed : List Run → Run → Bool
is_listed l x = any (λ r. r.id == x.id) l

abbrev IsPending : ℕ → List Run → Run → Type 0
IsPending now l x = is_past_cutoff now x ≡ true → is_listed l x ≡ true

-- A row with another key is in the rest of the list.
IsPending-rest :
    (now : ℕ) (r : Run) (l : List Run) (x : Run)
    → (x.id == r.id) ≡ false
    → IsPending now (r ∷ l) x
    → IsPending now l x
IsPending-rest now r l x differ h p = ground (arith, h p)

IsPending-above :
    (now lo hi : ℕ) (r : Run) (l rs : List Run)
    → IsKeyed lo rs hi
    → r.id < lo
    → All (IsPending now (r ∷ l)) rs
    → All (IsPending now l) rs
IsPending-above now lo hi r l [] k lt h = tt
IsPending-above now lo hi r l (x ∷ rs) k lt h = (
  IsPending-rest now r l x (ground arith) h.0,
  IsPending-above now (suc x.id) hi r l rs k.1 (omega arith) h.1,
)

IsPending-written :
    (now lo hi : ℕ) (r : Run) (l rs : List Run) (write : Run → Run)
    → IsKeyed lo rs hi
    → ((q : Run)
        → get_run r.id rs ≡ some q
        → ((write q).id ≡ q.id) × (is_past_cutoff now (write q) ≡ false))
    → All (IsPending now (r ∷ l)) rs
    → All (IsPending now l) (update_run r.id write rs)
unfolding get_run update_run
IsPending-written now lo hi r l [] write k c h = tt
IsPending-written now lo hi r l (x ∷ rs) write k c h = elim (Bool-cases (x.id == r.id)) [
  | inl hit ↦ rw hit (
    (λ p. cc (p, (c x (rw hit refl)).1)),
    IsPending-above now (suc x.id) hi r l rs k.1 (ground (arith, hit)) h.1,
  )
  | inr miss ↦ rw miss (
    IsPending-rest now r l x miss h.0,
    IsPending-written now (suc x.id) hi r l rs write k.1 (λ q e. c q (rw miss e)) h.1,
  )
]

stop_each-clears :
    (l : List Run) (now : ℕ) (db : Db)
    → HasKeys db
    → All (IsPending now l) db.runs
    → All (IsPending now []) (stop_each l now db).runs
unfolding stop_each
stop_each-clears [] now db keys h = h
stop_each-clears (r ∷ l) now db keys h =
    let c = request_cancel-Clears r.id now db in
    let next =
      commit_rule _ db keys
        (request_cancel-moves r.id system_actor StopReason.overnight_cutoff now db keys) in
    stop_each-clears l now _ next.keyed (
      subst (λ rs. All (IsPending now l) rs) (sym c.written)
        (IsPending-written now 0 db.next_run_id r l db.runs c.write keys c.cleared h))

listed_weaken :
    (now : ℕ) (r : Run) (l rs : List Run)
    → All (IsPending now l) rs
    → All (IsPending now (r ∷ l)) rs
listed_weaken now r l [] h = tt
listed_weaken now r l (x ∷ rs) h = ((λ p. ground (arith, h.0 p)), listed_weaken now r l rs h.1)

keep-IsPending : (now : ℕ) (rs : List Run) → All (IsPending now (keep (is_past_cutoff now) rs)) rs
keep-IsPending now [] = tt
keep-IsPending now (x ∷ rs) = elim (Bool-cases (is_past_cutoff now x)) [
  | inl e ↦
      let kept = keep (is_past_cutoff now) rs in
      let split : keep (is_past_cutoff now) (x ∷ rs) ≡ x ∷ kept = rw e refl in
      subst (λ l. All (IsPending now l) (x ∷ rs)) (sym split)
        ((λ p. ground arith), listed_weaken now x kept rs (keep-IsPending now rs))
  | inr e ↦
      let kept = keep (is_past_cutoff now) rs in
      let skip : keep (is_past_cutoff now) (x ∷ rs) ≡ kept = rw e refl in
      subst (λ l. All (IsPending now l) (x ∷ rs)) (sym skip)
        ((λ p. cc (p, e)), keep-IsPending now rs)
]

none_pending :
    (now : ℕ) (rs : List Run)
    → All (IsPending now []) rs
    → All (λ r. is_past_cutoff now r ≡ false) rs
none_pending now [] h = tt
none_pending now (x ∷ rs) h = (
  elim (Bool-cases (is_past_cutoff now x)) [ inl e ↦ cc (h.0 e) | inr e ↦ e ],
  none_pending now rs h.1,
)

-- If the run keys are in order, then after the sweep no overnight run is queued, running or
-- blocked past its deadline without a request to cancel it, although each run is stopped in a
-- transaction of its own that may throw.
pub stop_runs_past_overnight_cutoff-clears :
    (now : ℕ) (db : Db)
    → HasKeys db
    → All (λ r. is_past_cutoff now r ≡ false) (stop_runs_past_overnight_cutoff now db).runs
unfolding stop_runs_past_overnight_cutoff
stop_runs_past_overnight_cutoff-clears now db keys =
    none_pending now _ (stop_each-clears _ now db keys (keep-IsPending now db.runs))
