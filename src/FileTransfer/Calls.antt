-- ===== src/FileTransfer/Calls.antt =====
-- common.c and server.c: a connection on which the next calls come to their end.
use machine_project.Prelude.{
  ℕ, zero, suc, ◌+◌, ◌*◌, ◌≤◌, ◌≡◌, List, [], ◌∷◌, ◌++◌, length, take, some, ok, take_all, drop_all,
  drop_append, arith,
}
use machine_project.Sockets.{Answer}
use machine_project.Sockets.Schedules.{Steady, Steady-less}
use machine_project.Sockets.Reads.{receives_message}
use machine_project.Sockets.Writes.{write_all_to_socket_sends}
use machine_project.Sockets.Lines.{first_line, read_until_newline_receives}
use machine_project.Sockets.Files.{block_size}
use machine_project.Sockets.Receiving.{help_read_file_receives}
use machine_project.Sockets.Sending.{help_write_file_sends}
use machine_project.FileTransfer.{
  Connection, next_call, receive_line, receive, send, receive_file, send_file,
}

-- For each of the next `k` calls, the first `n` answers move bytes, interruptions apart.
pub data Ready : ℕ → ℕ → List (List Answer) → Type 0 where
  idle : {n : ℕ} {rest : List (List Answer)} → Ready zero n rest
  busy :
      {k n : ℕ} {answers : List Answer} {rest : List (List Answer)}
      → Steady n answers
      → Ready k n rest
      → Ready (suc k) n (answers ∷ rest)

fields_send :
    (k n : ℕ) (message : List ℕ) (i t : List ℕ) (ss : List (List Answer))
    → Ready (suc k) n ss
    → length message ≤ n
    → (rest : List (List Answer)) × Ready k n rest
      × (send message (record { incoming = i; sent = t; schedules = ss })
          ≡ ok (
            some (length message),
            record { incoming = i; sent = t ++ message; schedules = rest },
          ))
unfolding send next_call
fields_send k n message i t [] r h = elim r [ ]
fields_send k n message i t (answers ∷ rest) (busy s more) h =
    let (left, runs) =
      write_all_to_socket_sends message answers (Steady-less (length message) n answers h s) in
    (rest, more, rw runs)

pub send-Ready :
    (k n : ℕ) (message : List ℕ) (c : Connection)
    → Ready (suc k) n c.schedules
    → length message ≤ n
    → (rest : List (List Answer)) × Ready k n rest
      × (send message c
          ≡ ok (some (length message), record c { sent = c.sent ++ message; schedules = rest }))
send-Ready k n message c r h = fields_send k n message c.incoming c.sent c.schedules r h

fields_receive :
    (k n : ℕ) (message more : List ℕ) (i t : List ℕ) (ss : List (List Answer))
    → Ready (suc k) n ss
    → suc (length message) ≤ n
    → i ≡ message ++ more
    → (rest : List (List Answer)) × Ready k n rest
      × (receive (length message) (record { incoming = i; sent = t; schedules = ss })
          ≡ ok (
            some (length message),
            message,
            record { incoming = more; sent = t; schedules = rest },
          ))
unfolding receive next_call
fields_receive k n message more i t [] r h e = elim r [ ]
fields_receive k n message more i t (answers ∷ rest) (busy s later) h e =
    let (left, runs) =
      receives_message message more answers (Steady-less (suc (length message)) n answers h s) in
    (rest, later, rw e (rw runs))

pub receive-Ready :
    (k n : ℕ) (message more : List ℕ) (c : Connection)
    → Ready (suc k) n c.schedules
    → suc (length message) ≤ n
    → c.incoming ≡ message ++ more
    → (rest : List (List Answer)) × Ready k n rest
      × (receive (length message) c
          ≡ ok (some (length message), message, record c { incoming = more; schedules = rest }))
receive-Ready k n message more c r h e =
    fields_receive k n message more c.incoming c.sent c.schedules r h e

fields_receive_line :
    (k n : ℕ) (line more : List ℕ) (i t : List ℕ) (ss : List (List Answer))
    → Ready (suc k) n ss
    → block_size ≤ n
    → length line ≤ block_size
    → i ≡ line ++ more
    → first_line (line ++ more) ≡ line
    → (rest : List (List Answer)) × Ready k n rest
      × (receive_line (record { incoming = i; sent = t; schedules = ss })
          ≡ ok (line, record { incoming = more; sent = t; schedules = rest }))
unfolding receive_line next_call
fields_receive_line k n line more i t [] r h few e is_line = elim r [ ]
fields_receive_line k n line more i t (answers ∷ rest) (busy s later) h few e is_line =
    let (left, runs) =
      read_until_newline_receives block_size (line ++ more) answers
        (Steady-less block_size n answers h s) in
    let whole : take block_size (first_line (line ++ more)) ≡ line =
      rw is_line (take_all block_size line few) in
    (rest, later, rw e (rw (runs, whole, drop_append line more)))

pub receive_line-Ready :
    (k n : ℕ) (line more : List ℕ) (c : Connection)
    → Ready (suc k) n c.schedules
    → block_size ≤ n
    → length line ≤ block_size
    → c.incoming ≡ line ++ more
    → first_line (line ++ more) ≡ line
    → (rest : List (List Answer)) × Ready k n rest
      × (receive_line c ≡ ok (line, record c { incoming = more; schedules = rest }))
receive_line-Ready k n line more c r h few e is_line =
    fields_receive_line k n line more c.incoming c.sent c.schedules r h few e is_line

fields_receive_file :
    (k n : ℕ) (file : List ℕ) (i t : List ℕ) (ss : List (List Answer))
    → Ready (suc k) n ss
    → 2 * (length file + block_size) ≤ n
    → i ≡ file
    → (rest : List (List Answer)) × Ready k n rest
      × (receive_file (length file) (record { incoming = i; sent = t; schedules = ss })
          ≡ ok (length file, file, record { incoming = []; sent = t; schedules = rest }))
unfolding receive_file next_call
fields_receive_file k n file i t [] r h e = elim r [ ]
fields_receive_file k n file i t (answers ∷ rest) (busy s later) h e =
    let size = length file in
    let runs =
      help_read_file_receives size file answers
        (Steady-less (2 * (size + block_size)) n answers h s) in
    let whole = take_all (size + block_size) file (omega arith) in
    let none_left = drop_all (size + block_size) file (omega arith) in
    (rest, later, rw e (rw (runs, whole, none_left)))

pub receive_file-Ready :
    (k n : ℕ) (file : List ℕ) (c : Connection)
    → Ready (suc k) n c.schedules
    → 2 * (length file + block_size) ≤ n
    → c.incoming ≡ file
    → (rest : List (List Answer)) × Ready k n rest
      × (receive_file (length file) c
          ≡ ok (length file, file, record c { incoming = []; schedules = rest }))
receive_file-Ready k n file c r h e =
    fields_receive_file k n file c.incoming c.sent c.schedules r h e

fields_send_file :
    (k n : ℕ) (file : List ℕ) (i t : List ℕ) (ss : List (List Answer))
    → Ready (suc k) n ss
    → length file ≤ n
    → (rest : List (List Answer)) × Ready k n rest
      × (send_file (length file) file (record { incoming = i; sent = t; schedules = ss })
          ≡ ok (0, record { incoming = i; sent = t ++ file; schedules = rest }))
unfolding send_file next_call
fields_send_file k n file i t [] r h = elim r [ ]
fields_send_file k n file i t (answers ∷ rest) (busy s later) h =
    let size = length file in
    let (left, runs) =
      help_write_file_sends size file answers (omega arith) (Steady-less size n answers h s) in
    let whole = take_all size file (omega arith) in (rest, later, rw (runs, whole))

pub send_file-Ready :
    (k n : ℕ) (file : List ℕ) (c : Connection)
    → Ready (suc k) n c.schedules
    → length file ≤ n
    → (rest : List (List Answer)) × Ready k n rest
      × (send_file (length file) file c
          ≡ ok (0, record c { sent = c.sent ++ file; schedules = rest }))
send_file-Ready k n file c r h = fields_send_file k n file c.incoming c.sent c.schedules r h
