-- ===== src/Sockets/Schedules.antt =====
-- common.c: the schedules under which a transfer is completed.
use machine_project.Prelude.{ℕ, zero, suc, ◌≤◌, List, ◌∷◌, arith}
use machine_project.Sockets.{Answer, give, interrupted}

-- At least `n` answers of a schedule move bytes, and up to them none fails or closes the stream.
pub data Steady : ℕ → List Answer → Type 0 where
  enough : {answers : List Answer} → Steady zero answers
  moves : {n k : ℕ} {answers : List Answer} → Steady n answers → Steady (suc n) (give k ∷ answers)
  again : {n : ℕ} {answers : List Answer} → Steady n answers → Steady n (interrupted ∷ answers)

pub Steady-less : (m n : ℕ) (answers : List Answer) → m ≤ n → Steady n answers → Steady m answers
Steady-less zero n answers h s = enough
Steady-less (suc m) zero answers h enough = absurd (omega arith)
Steady-less (suc m) (suc n) (give k ∷ rest) h (moves s) =
    moves (Steady-less m n rest (omega arith) s)
Steady-less (suc m) n (interrupted ∷ rest) h (again s) = again (Steady-less (suc m) n rest h s)
