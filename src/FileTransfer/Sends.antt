-- ===== src/FileTransfer/Sends.antt =====
-- client.c: a client that puts a file.
use machine_project.Prelude.{
  ℕ, suc, ◌+◌, ◌≤◌, ◌<◌, ◌≡◌, ap, ◌∙◌, ltb, false, List, [], ◌∷◌, ◌++◌, length, append_assoc, some,
  ok, ◌>>=◌, arith,
}
use machine_project.Prelude.Strings.{codes, same_string, c_string}
use machine_project.Sockets.{Answer}
use machine_project.FileTransfer.{size_bytes}
use machine_project.FileTransfer.Parse.{length-request_line}
use machine_project.FileTransfer.Stored.{length-size_bytes}
use machine_project.FileTransfer.Server.{put_verb, ok_text, look}
use machine_project.FileTransfer.Calls.{Ready, send-Ready, receive-Ready, send_file-Ready}
use machine_project.FileTransfer.Arguments.{Args, is_given, check_args}
use machine_project.FileTransfer.Client.{
  text, success, Client, check_all_to_socket, given, request_text, say_request, say_size, say_file,
  upload, write_request, print, accept_answer, read_response, run_client,
}

abbrev sending : List ℕ → List (List Answer) → Client → Client
sending message rest c = record c {
  connection = record c.connection { sent = c.connection.sent ++ message; schedules = rest };
}

check_all-nonzero : (n : ℕ) → 0 < n → check_all_to_socket (some n) ≡ ok tt
unfolding check_all_to_socket
check_all-nonzero n h = ground arith

say_request-Ready :
    (k n : ℕ) (request : List ℕ) (c : Client)
    → Ready (suc k) n c.connection.schedules
    → length request ≤ n
    → 0 < length request
    → (rest : List (List Answer)) × Ready k n rest
      × (say_request request c ≡ ok (sending request rest c))
unfolding say_request
say_request-Ready k n request c r h nonzero =
    let (rest, later, runs) = send-Ready k n request c.connection r h in
    let whole : ltb (length request) (length request) ≡ false = ground arith in
    (rest, later, rw (runs, check_all-nonzero (length request) nonzero, whole))

say_size-Ready :
    (k n size : ℕ) (c : Client)
    → Ready (suc k) n c.connection.schedules
    → 8 ≤ n
    → (rest : List (List Answer)) × Ready k n rest
      × (say_size size c ≡ ok (sending (size_bytes size) rest c))
unfolding say_size
say_size-Ready k n size c r h =
    let eight = length-size_bytes size in
    let (rest, later, runs) = send-Ready k n (size_bytes size) c.connection r (omega arith) in
    (rest, later, rw (runs, check_all-nonzero (length (size_bytes size)) (omega arith)))

say_file-Ready :
    (k n : ℕ) (file : List ℕ) (c : Client)
    → Ready (suc k) n c.connection.schedules
    → length file ≤ n
    → (rest : List (List Answer)) × Ready k n rest × (say_file file c ≡ ok (sending file rest c))
unfolding say_file
say_file-Ready k n file c r h =
    let (rest, later, runs) = send_file-Ready k n file c.connection r h in (rest, later, rw runs)

-- What a client sends to put a file, and a client that puts one.
abbrev pub put_line : List ℕ → List ℕ
put_line name = codes "PUT" ++ (32 ∷ name ++ 10 ∷ [])

pub record Puts (a : Args) (c : Client) (name path file : List ℕ) : Type 0 where
  pub is_put : a.method ≡ codes "PUT"
  pub remote_name : a.remote ≡ some name
  pub local_path : a.local ≡ some path
  pub local_file : look path c.disk.files ≡ some file

upload-found :
    (path file : List ℕ) (c : Client)
    → look path c.disk.files ≡ some file
    → upload (some path) c ≡ (say_size (length file) c >>= say_file file)
unfolding upload given
upload-found path file c e = rw (◌>>=◌, e)

write_request-Ready :
    (k n : ℕ) (a : Args) (c : Client) (name path file : List ℕ)
    → Puts a c name path file
    → Ready (suc (suc (suc k))) n c.connection.schedules
    → length name + 5 ≤ n
    → length file ≤ n
    → 8 ≤ n
    → (rest : List (List Answer)) × Ready k n rest
      × (write_request put_verb a c
          ≡ ok (sending (put_line name ++ (size_bytes (length file) ++ file)) rest c))
unfolding write_request request_text given
write_request-Ready k n a c name path file p r fits whole few =
    let line = put_line name in
    let long = length-request_line (codes "PUT") name in
    let (left, ready, first) =
      say_request-Ready (suc (suc k)) n line c r (omega arith) (omega arith) in
    let c1 = sending line left c in
    let (left', ready', second) = say_size-Ready (suc k) n (length file) c1 ready few in
    let c2 = sending (size_bytes (length file)) left' c1 in
    let (rest, later, third) = say_file-Ready k n file c2 ready' whole in
    (
      rest,
      later,
      rw (p.is_put, p.remote_name, p.local_path)
          (rw first (
            upload-found path file c1 p.local_file
            ∙ rw second (
                third
                ∙ ap
                    (λ t. ok (record c {
                      connection = record c.connection { sent = t; schedules = rest };
                    }))
                    (append_assoc (c.connection.sent ++ line) (size_bytes (length file)) file
                      ∙ append_assoc c.connection.sent line (size_bytes (length file) ++ file))))),
    )

read_response-put :
    (fresh : List ℕ) (k n : ℕ) (a : Args) (c : Client) (more : List ℕ)
    → c.connection.incoming ≡ ok_text ++ more
    → Ready (suc k) n c.connection.schedules
    → 4 ≤ n
    → (rest : List (List Answer)) × Ready k n rest
      × (read_response fresh put_verb a c
          ≡ ok (record c {
            connection = record c.connection { incoming = more; schedules = rest };
            printed = (c.printed ++ text ok_text ∷ []) ++ success ∷ [];
          }))
unfolding read_response check_all_to_socket same_string c_string accept_answer print
read_response-put fresh k n a c more e r h =
    let (rest, later, comes) = receive-Ready k n ok_text more c.connection r h e in
    (rest, later, rw comes)

check_args-put :
    (a : Args) (c : Client) (name path file : List ℕ)
    → Puts a c name path file
    → check_args a ≡ ok put_verb
unfolding check_args is_given same_string
check_args-put a c name path file p = rw (p.is_put, p.remote_name, p.local_path)

checks-put :
    (fresh : List ℕ) (a : Args) (c : Client) (name path file : List ℕ)
    → Puts a c name path file
    → run_client fresh a c ≡ (write_request put_verb a c >>= read_response fresh put_verb a)
unfolding run_client
checks-put fresh a c name path file p = rw (check_args-put a c name path file p)

pub run_client-put :
    (fresh : List ℕ) (n : ℕ) (a : Args) (c : Client) (name path file more : List ℕ)
    → Puts a c name path file
    → c.connection.incoming ≡ ok_text ++ more
    → Ready 4 n c.connection.schedules
    → length name + 8 ≤ n
    → length file ≤ n
    → (rest : List (List Answer)) × (run_client fresh a c
        ≡ ok (record c {
          connection = record {
            incoming = more;
            sent = c.connection.sent ++ (put_line name ++ (size_bytes (length file) ++ file));
            schedules = rest;
          };
          printed = (c.printed ++ text ok_text ∷ []) ++ success ∷ [];
        }))
run_client-put fresh n a c name path file more p e r fits whole =
    let message = put_line name ++ (size_bytes (length file) ++ file) in
    let (left, ready, writes) =
      write_request-Ready 1 n a c name path file p r (omega arith) whole (omega arith) in
    let (rest, later, reads) =
      read_response-put fresh 0 n a (sending message left c) more e ready (omega arith) in
    (rest, checks-put fresh a c name path file p ∙ rw writes reads)
