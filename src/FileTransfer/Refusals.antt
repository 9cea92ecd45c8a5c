-- ===== src/FileTransfer/Refusals.antt =====
-- server.c: the request GET.
use machine_project.Prelude.{
  ℕ, ◌≤◌, ◌<◌, ◌≡◌, refl, ◌∙◌, leb, ◌==◌, true, false, List, [], ◌∷◌, ◌++◌, length, take, take_all,
  length-take, append_assoc, ok, ◌>>=◌, arith,
}
use machine_project.Prelude.Ctype.{is_space}
use machine_project.Prelude.Strings.{codes, same_string}
use machine_project.Sockets.{Answer}
use machine_project.Sockets.Files.{block_size}
use machine_project.FileTransfer.Parse.{
  Request, is_word, scan_request-request_line, first_line-request_line, length-request_line,
}
use machine_project.FileTransfer.Server.{get_verb, Dictionary, Texts, error_text, Session}
use machine_project.FileTransfer.Calls.{Ready, receive_line-Ready}
use machine_project.FileTransfer.Answers.{said, say-Ready}
use machine_project.FileTransfer.Handlers.{say}
use machine_project.FileTransfer.Requests.{
  is_verb, unless_returned, parse_helper, parse_put, parse_get, parse_delete, parse_list, parse_end,
  parse_request, parse_header, say_error, process_client, serve_client,
}

is_word-get : is_word (codes "GET") ≡ true
unfolding is_word is_space
is_word-get = refl

module _ (D : Dictionary) where
  abbrev get_request : List ℕ → Request
  get_request name = record { num = 2; command = codes "GET"; file_name = name }

  refused : List ℕ → Session D → Session D
  refused name s = record s {
    info = record s.info { file_name = name; command = get_verb; error_type = 1 };
  }

  parse_request-get :
      (name : List ℕ) (s : Session D)
      → leb 255 (length name) ≡ false
      → take 254 name ≡ name
      → parse_request D (get_request name) s ≡ ok (true, refused name s)
  unfolding parse_request parse_put parse_get parse_delete parse_list parse_end parse_helper
      unless_returned same_string is_verb refused
  parse_request-get name s fits whole = rw (fits, whole)

  process_client-refused :
      (x : Texts) (name : List ℕ) (s : Session D)
      → (s.info.ready_exec == 1) ≡ false
      → process_client D x (refused name s)
        ≡ (say D error_text (refused name s) >>= say D (take 12 x.err_bad_request))
  unfolding process_client refused say_error
  process_client-refused x name s e = rw e

  says-refused :
      (x : Texts) (n : ℕ) (s : Session D)
      → Ready 2 n s.connection.schedules
      → 12 ≤ n
      → (rest : List (List Answer)) × ((say D error_text s >>= say D (take 12 x.err_bad_request))
          ≡ ok (said D (error_text ++ take 12 x.err_bad_request) rest s))
  says-refused x n s r h =
      let (left, ready, first) = say-Ready D 1 n error_text s r (omega arith) in
      let text = take 12 x.err_bad_request in
      let (rest, later, second) =
        say-Ready D 0 n text (said D error_text left s) ready
          (omega (arith, length-take 12 x.err_bad_request)) in
      (rest, rw first (second ∙ rw (append_assoc s.connection.sent error_text text)))

  -- For a request `GET name`, whatever comes behind it and whatever files there are, where the name is a
  -- word of less than 255 characters, ready_exec does not happen to be 1 in the entry that malloc gave, and
  -- on the first three calls the kernel moves bytes in each answer, interruptions apart: the answer is
  -- ERROR and the text of a bad request, the server is as before, and what came behind is not read.
  pub get_refused :
      (x : Texts) (s : Session D) (n : ℕ) (name more : List ℕ)
      → is_word name ≡ true
      → 0 < length name
      → length name < 255
      → (s.info.ready_exec == 1) ≡ false
      → s.connection.incoming ≡ (codes "GET" ++ (32 ∷ name ++ 10 ∷ [])) ++ more
      → Ready 3 n s.connection.schedules
      → block_size ≤ n
      → (t : Session D) × (serve_client D x s ≡ ok t)
        × (t.server ≡ s.server)
        × (t.connection.sent ≡ s.connection.sent ++ (error_text ++ take 12 x.err_bad_request))
        × (t.connection.incoming ≡ more)
  unfolding serve_client parse_header refused
  get_refused x s n name more word some_name short exec e r h =
      let line = codes "GET" ++ (32 ∷ name ++ 10 ∷ []) in
      let (left, ready, comes) =
        receive_line-Ready 2 n line more s.connection r (omega arith)
          (omega (arith, length-request_line (codes "GET") name)) e
          (first_line-request_line (codes "GET") name more is_word-get word) in
      let s' : Session D = record s {
        info = record s.info { ready_parse = 1 };
        connection = record s.connection { incoming = more; schedules = left };
      } in
      let scans =
        scan_request-request_line (codes "GET") name is_word-get word (omega arith) (omega arith)
          some_name short in
      let parses = parse_request-get name s' (ground arith) (take_all 254 name (omega arith)) in
      let (rest, answers) = says-refused x n (refused name s') ready (omega arith) in
      (
        said D (error_text ++ take 12 x.err_bad_request) rest (refused name s'),
        rw (comes, scans, parses) (process_client-refused x name s' exec ∙ answers),
        refl,
        refl,
        refl,
      )
