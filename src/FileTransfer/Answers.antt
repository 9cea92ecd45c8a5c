-- ===== src/FileTransfer/Answers.antt =====
-- server.c: what is said to a client.
use machine_project.Prelude.{ℕ, suc, ◌≤◌, ◌≡◌, List, ◌++◌, length, ok}
use machine_project.Sockets.{Answer}
use machine_project.FileTransfer.Server.{Dictionary, Session}
use machine_project.FileTransfer.Calls.{Ready, send-Ready}
use machine_project.FileTransfer.Handlers.{say}

module _ (D : Dictionary) where
  abbrev pub said : List ℕ → List (List Answer) → Session D → Session D
  said text rest s = record s {
    connection = record s.connection { sent = s.connection.sent ++ text; schedules = rest };
  }

  pub say-Ready :
      (k n : ℕ) (text : List ℕ) (s : Session D)
      → Ready (suc k) n s.connection.schedules
      → length text ≤ n
      → (rest : List (List Answer)) × Ready k n rest × (say D text s ≡ ok (said text rest s))
  unfolding say
  say-Ready k n text s r h =
      let (rest, later, runs) = send-Ready k n text s.connection r h in (rest, later, rw runs)
