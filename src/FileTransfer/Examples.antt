-- ===== src/FileTransfer/Examples.antt =====
-- server.c and client.c: runs, and the theorems about them at concrete requests.
use machine_project.Prelude.{
  ℕ, zero, suc, ◌≡◌, refl, true, if◌then◌else◌, List, [], ◌∷◌, ◌++◌, length, take, replicate,
  Option, none, some, Outcome, ok, abort, fault, ◌>>=◌, arith,
}
use machine_project.Prelude.Ctype.{is_space, to_upper}
use machine_project.Prelude.Strings.{codes, same_string, same_string_self, c_string}
use machine_project.Sockets.{Answer, give, closed, read_all_from_socket, write_all_to_socket}
use machine_project.Sockets.Schedules.{Steady, enough, moves}
use machine_project.FileTransfer.{next_call, receive, send, size_bytes}
use machine_project.FileTransfer.Parse.{is_word, scan_request}
use machine_project.FileTransfer.Server.{
  v_unknown, put_verb, Dictionary, Texts, ok_text, error_text, Disk, look, remove_disk, write_disk,
  path_of, Session,
}
use machine_project.FileTransfer.Calls.{Ready, idle, busy}
use machine_project.FileTransfer.Handlers.{help_list, help_put, put_size, open_new}
use machine_project.FileTransfer.Requests.{serve_client}
use machine_project.FileTransfer.Answers.{said}
use machine_project.FileTransfer.Puts.{put_stores}
use machine_project.FileTransfer.Refusals.{get_refused}
use machine_project.FileTransfer.Lists.{joined, calls, list_announces}
use machine_project.FileTransfer.Arguments.{
  Args, parse_args, make_args, strtok, skip_colons, second_token, split_colon, check_args, is_given,
}
use machine_project.FileTransfer.Client.{
  text, success, Client, run_client, write_request, request_text, given, say_request,
  check_all_to_socket, read_response, accept_answer, look_after, reject_answer, error_buffer,
}
use machine_project.FileTransfer.Sends.{Puts}
use machine_project.FileTransfer.Uploads.{arriving, put_arrives}

abbrev function_set : List ℕ → Option ℕ → (List ℕ → Option ℕ) → List ℕ → Option ℕ
unfolding same_string
function_set key value f k = if same_string k key then value else f k

function_set-get :
    (key : List ℕ) (n : ℕ) (f : List ℕ → Option ℕ) → function_set key (some n) f key ≡ some n
unfolding same_string
function_set-get key n f = rw (same_string_self key)

-- A dictionary as a function.
abbrev functions : Dictionary
functions = record {
  Entries = List ℕ → Option ℕ;
  dictionary_get = λ key f. f key;
  dictionary_set = λ key n f. function_set key (some n) f;
  dictionary_remove = λ key f. function_set key none f;
  get-set = function_set-get;
}

abbrev messages : Texts
messages = record {
  err_bad_request = codes "Bad request\n";
  err_bad_file_size = codes "Bad file size\n";
  err_no_such_file = codes "No such file\n";
}

abbrev empty_disk : Disk
empty_disk = record { writable = λ path. true; files = [] }

abbrev patient : List Answer
patient = replicate 2100 (give 6)

Steady-replicate : (n k : ℕ) → Steady n (replicate n (give k))
Steady-replicate zero k = enough
Steady-replicate (suc n) k = moves (Steady-replicate n k)

abbrev patient_calls : List (List Answer)
patient_calls = patient ∷ patient ∷ patient ∷ patient ∷ []

patient_calls-Ready : Ready 4 2100 patient_calls
patient_calls-Ready = let s = Steady-replicate 2100 6 in busy s (busy s (busy s (busy s idle)))

abbrev session : List (List ℕ) → List ℕ → List (List Answer) → Session functions
session names request calls = record {
  server = record {
    directory = codes "tmp";
    disk = empty_disk;
    names = names;
    sizes = λ key. none;
  };
  info = record {
    file_name = [];
    ready_parse = 0;
    ready_exec = 0;
    error_type = 0;
    command = v_unknown;
  };
  connection = record { incoming = request; sent = []; schedules = calls };
}

abbrev put_message : List ℕ
put_message = (codes "PUT" ++ (32 ∷ codes "a.txt" ++ 10 ∷ [])) ++ (size_bytes 2 ++ codes "hi")

put_stores_example :
    (t : Session functions) × (serve_client functions messages
        (session [] put_message patient_calls)
      ≡ ok t)
    × (look (path_of (codes "tmp") (codes "a.txt")) t.server.disk.files ≡ some (codes "hi"))
    × (t.server.sizes (codes "a.txt") ≡ some 2)
    × (t.connection.sent ≡ ok_text)
    × (t.connection.incoming ≡ [])
unfolding is_word is_space
put_stores_example =
    put_stores functions messages (session [] put_message patient_calls) 2100 (codes "a.txt")
      (codes "hi") refl (omega arith) (omega arith) refl (omega arith) refl patient_calls-Ready
      (omega arith)

get_refused_example :
    (t : Session functions) × (serve_client functions messages (
        session [] ((codes "GET" ++ (32 ∷ codes "a.txt" ++ 10 ∷ [])) ++ codes "rest") patient_calls)
      ≡ ok t)
    × (t.server ≡ (session [] [] []).server)
    × (t.connection.sent ≡ error_text ++ take 12 (codes "Bad request\n"))
    × (t.connection.incoming ≡ codes "rest")
unfolding is_word is_space
get_refused_example =
    let s = Steady-replicate 2100 6 in
    get_refused functions messages
      (session [] ((codes "GET" ++ (32 ∷ codes "a.txt" ++ 10 ∷ [])) ++ codes "rest") patient_calls)
      2100 (codes "a.txt") (codes "rest") refl (omega arith) (omega arith) refl refl
      (busy s (busy s (busy s idle))) (omega arith)

abbrev two_names : List (List ℕ)
two_names = codes "a" ∷ codes "bc" ∷ []

abbrev list_calls : List (List Answer)
list_calls = patient ∷ patient_calls

list_announces_example :
    (rest : List (List Answer)) × (help_list functions (session two_names [] list_calls)
      ≡ ok (
          said functions
            (ok_text ++ (size_bytes (length (joined two_names)) ++ joined two_names))
            rest
            (session two_names [] list_calls)))
unfolding joined calls
list_announces_example =
    list_announces functions 2100 (session two_names [] list_calls)
      (busy (Steady-replicate 2100 6) patient_calls-Ready) (omega arith) (omega arith)

abbrev put_args : Args
put_args = record {
  host = codes "localhost";
  port = codes "4000";
  method = codes "PUT";
  remote = some (codes "a.txt");
  local = some (codes "b.txt");
}

parsed_args :
    parse_args
      (codes "client" ∷ codes "localhost:4000" ∷ codes "put" ∷ codes "a.txt" ∷ codes "b.txt" ∷ [])
    ≡ some put_args
unfolding parse_args make_args strtok skip_colons second_token split_colon to_upper
parsed_args = refl

abbrev local_disk : Disk
local_disk = record { writable = λ path. true; files = (codes "b.txt", codes "hi") ∷ [] }

abbrev client : List ℕ → List (List Answer) → Client
client answer calls = record {
  disk = local_disk;
  connection = record { incoming = answer; sent = []; schedules = calls };
  printed = [];
}

local_file-Puts :
    Puts put_args (client ok_text patient_calls) (codes "a.txt") (codes "b.txt") (codes "hi")
unfolding look
local_file-Puts = record { is_put = refl; remote_name = refl; local_path = refl; local_file = refl }

put_arrives_example :
    (c : Client) × (t : Session functions) × (run_client [] put_args (client ok_text patient_calls)
      ≡ ok c)
    × (serve_client functions messages (arriving c.connection.sent patient_calls (session [] [] []))
        ≡ ok t)
    × (t.connection.sent ≡ ok_text)
    × (c.printed ≡ text ok_text ∷ success ∷ [])
    × (look (path_of (codes "tmp") (codes "a.txt")) t.server.disk.files ≡ some (codes "hi"))
unfolding is_word is_space
put_arrives_example =
    put_arrives functions messages [] 2100 put_args local_disk (session [] [] []) (codes "a.txt")
      (codes "b.txt") (codes "hi") patient_calls patient_calls local_file-Puts refl (omega arith)
      (omega arith) refl (omega arith) patient_calls-Ready patient_calls-Ready (omega arith)

-- A command of ten characters is written past the end of its array.
long_command : scan_request (codes "DELETEFILE a.txt\n") ≡ fault
unfolding scan_request is_space
long_command = refl

abbrev named_session : List (List Answer) → Session functions
named_session calls =
    let s = session [] [] calls in
    record s { info = record s.info { file_name = codes "a.txt"; command = put_verb } }

abbrev outcome_names :
    Outcome (ℕ × Session functions) → Outcome (List (List ℕ) × List (List ℕ × List ℕ))
outcome_names run = run >>= λ r. ok (r.1.server.names, r.1.server.disk.files)

-- A client that closes before the size: the name stays in the list, and there is no file.
name_stays :
    outcome_names (help_put functions (named_session ((closed ∷ []) ∷ [])))
    ≡ ok (codes "a.txt" ∷ [], [])
unfolding help_put receive read_all_from_socket put_size open_new remove_disk look write_disk
    path_of
name_stays = refl

abbrev delete_args : Args
delete_args = record put_args { method = codes "DELETE"; local = none }

abbrev two_calls : List (List Answer)
two_calls = (give 13 ∷ []) ∷ (give 9 ∷ []) ∷ []

-- A DELETE that the server accepts: the pointer to the local name is NULL, and fopen reads it.
delete_without_local : run_client [] delete_args (client ok_text two_calls) ≡ fault
unfolding run_client check_args is_given same_string write_request request_text given say_request
    send next_call write_all_to_socket check_all_to_socket read_response receive
    read_all_from_socket c_string accept_answer look_after
delete_without_local = refl

-- The first byte behind ERROR is what realloc left there: where it is not NUL, the answer is refused.
error_not_ended :
    read_response (7 ∷ 7 ∷ 7 ∷ []) put_verb put_args (client error_text two_calls) ≡ abort
unfolding read_response same_string check_all_to_socket receive next_call read_all_from_socket
    c_string reject_answer error_buffer
error_not_ended = refl
