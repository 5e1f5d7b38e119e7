-- ===== src/Runs/Moves/Evolve.antt =====
-- Sequences of moves over the whole table, and what follows for its rows.
use mac_bennet.Prelude.{ℕ, ◌≡◌, ◌++◌, List, [], ◌∷◌, some, All, All-append}
use mac_bennet.Runs.Db.{Run, get_run, update_run}
use mac_bennet.Runs.Db.Rows.{All-update_run}
use mac_bennet.Runs.Moves.{IsNew, Move}

pub data Evolves (rs : List Run) : List Run → Type 0 where
  here : Evolves rs rs
  change :
      {ss : List Run} (id : ℕ) (f : Run → Run) (r : Run)
      → Evolves rs ss
      → get_run id ss ≡ some r
      → Move r (f r)
      → Evolves rs (update_run id f ss)
  insert : {ss : List Run} (r : Run) → Evolves rs ss → IsNew r → Evolves rs (ss ++ (r ∷ []))

pub Evolves-trans : {a b c : List Run} → Evolves a b → Evolves b c → Evolves a c
Evolves-trans p here = p
Evolves-trans p (change id f r q e m) = change id f r (Evolves-trans p q) e m
Evolves-trans p (insert r q n) = insert r (Evolves-trans p q) n

-- What holds of new rows and is kept by every move holds of all rows.
pub Evolves-All {κ} :
    (P : Run → Type κ)
    → ((r : Run) → IsNew r → P r)
    → ((r s : Run) → Move r s → P r → P s)
    → {rs ss : List Run} → Evolves rs ss
    → All P rs
    → All P ss
Evolves-All P new keep here h = h
Evolves-All P new keep (change {ss} id f r q e m) h =
    All-update_run P id f ss (Evolves-All P new keep q h) e (keep r (f r) m)
Evolves-All P new keep (insert {ss} r q n) h =
    All-append P ss (r ∷ []) (Evolves-All P new keep q h) (new r n, tt)
