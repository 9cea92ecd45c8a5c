-- ===== src/FileTransfer.antt =====
-- nonstop_networking/server.c and client.c, which speak over a socket with the functions of common.c. A
-- connection is what is still to be received, what was sent, and for each coming call of a function of
-- common.c the answers of the kernel to it; when these run out, the caller waits for ever (`hang`). A
-- process that calls exit with a failure comes to `abort`.
pub mod Parse
pub mod Server
pub mod Calls
pub mod Handlers
pub mod Requests
pub mod Answers
pub mod Stored
pub mod Puts
pub mod Lists
pub mod Refusals
pub mod Arguments
pub mod Client
pub mod Sends
pub mod Uploads
mod Examples
use machine_project.Prelude.{
  ℕ, ◌+◌, ◌*◌, ◌/◌, ◌%◌, ◌^◌, List, [], ◌∷◌, ◌++◌, Option, none, some, Outcome, ok, fault, hang,
  ◌>>=◌,
}
use machine_project.Sockets.{Answer, Transfer, read_all_from_socket, write_all_to_socket}
use machine_project.Sockets.Lines.{read_until_newline}
use machine_project.Sockets.Files.{block_size, help_read_file, help_write_file}

pub record Connection : Type 0 where
  pub incoming : List ℕ
  pub sent : List ℕ
  pub schedules : List (List Answer)

-- The answers to the next call.
unfoldable pub next_call : List (List Answer) → Outcome (List Answer × List (List Answer))
next_call [] = hang
next_call (answers ∷ rest) = ok (answers, rest)

unfoldable pub receive_line : Connection → Outcome (List ℕ × Connection)
unfolding next_call
receive_line c = do
  s ← next_call c.schedules
  t ← read_until_newline block_size [] c.incoming s.0
  ok (t.buffer, record c { incoming = t.incoming; schedules = s.1 })

-- The return value (`none` is -1), and the bytes received.
unfoldable pub receive : ℕ → Connection → Outcome (Option ℕ × List ℕ × Connection)
unfolding next_call
receive count c = do
  s ← next_call c.schedules
  t ← read_all_from_socket count [] c.incoming s.0
  ok (t.result, t.buffer, record c { incoming = t.incoming; schedules = s.1 })

unfoldable pub send : List ℕ → Connection → Outcome (Option ℕ × Connection)
unfolding next_call
send message c = do
  s ← next_call c.schedules
  t ← write_all_to_socket message [] s.0
  ok (t.result, record c { sent = c.sent ++ t.buffer; schedules = s.1 })

-- help_write_read_file with write == 0 and with write == 1.
unfoldable pub receive_file : ℕ → Connection → Outcome (ℕ × List ℕ × Connection)
unfolding next_call
receive_file size c = do
  s ← next_call c.schedules
  r ← help_read_file size c.incoming s.0
  ok (r.0, r.1, record c { incoming = r.2; schedules = s.1 })

unfoldable pub send_file : ℕ → List ℕ → Connection → Outcome (ℕ × Connection)
unfolding next_call
send_file size file c = do
  s ← next_call c.schedules
  r ← help_write_file size file s.0
  ok (r.0, record c { sent = c.sent ++ r.1; schedules = s.1 })

-- The eight bytes of a size_t on a little-endian host, and the number that they stand for.
unfoldable pub size_bytes : ℕ → List ℕ
size_bytes n =
    n % 256
    ∷ n / 2 ^ 8 % 256
    ∷ n / 2 ^ 16 % 256
    ∷ n / 2 ^ 24 % 256
    ∷ n / 2 ^ 32 % 256
    ∷ n / 2 ^ 40 % 256
    ∷ n / 2 ^ 48 % 256
    ∷ n / 2 ^ 56 % 256
    ∷ []

-- The variable is not initialised: where fewer than eight bytes came, the rest was never written.
unfoldable pub size_of_bytes : List ℕ → Outcome ℕ
size_of_bytes (a ∷ b ∷ c ∷ d ∷ e ∷ f ∷ g ∷ h ∷ []) =
    ok (a + b * 2 ^ 8 + c * 2 ^ 16 + d * 2 ^ 24 + e * 2 ^ 32 + f * 2 ^ 40 + g * 2 ^ 48 + h * 2 ^ 56)
size_of_bytes _ = fault
