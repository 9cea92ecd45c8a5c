-- ===== src/FileTransfer/Puts.antt =====
-- server.c: the request PUT, from the line that is received to the answer.
use machine_project.Prelude.{
  ℕ, suc, ◌+◌, ◌-◌, ◌*◌, ◌^◌, ◌≤◌, ◌<◌, ◌≡◌, refl, ap, ◌∙◌, leb, true, false, List, [], ◌∷◌, ◌++◌,
  length, take_all, some, ok, ◌>>=◌, arith,
}
use machine_project.Prelude.Ctype.{is_space}
use machine_project.Prelude.Strings.{codes, same_string, same_string_self}
use machine_project.Sockets.{Answer}
use machine_project.Sockets.Files.{block_size}
use machine_project.FileTransfer.{size_bytes}
use machine_project.FileTransfer.Parse.{
  Request, is_word, scan_request-request_line, first_line-request_line, length-request_line,
}
use machine_project.FileTransfer.Server.{
  put_verb, Dictionary, Texts, ok_text, Disk, look, write_disk, path_of, Session,
}
use machine_project.FileTransfer.Calls.{Ready, receive_line-Ready}
use machine_project.FileTransfer.Answers.{said, say-Ready}
use machine_project.FileTransfer.Handlers.{say, is_long, path, open_new, help_put}
use machine_project.FileTransfer.Requests.{
  is_verb, unless_returned, parse_helper, parse_put, parse_get, parse_delete, parse_list, parse_end,
  parse_request, parse_header, execute, process_client, serve_client,
}
use machine_project.FileTransfer.Stored.{stored, help_put-stores}

is_word-put : is_word (codes "PUT") ≡ true
unfolding is_word is_space
is_word-put = refl

leb-false : (m n : ℕ) → n < m → leb m n ≡ false
leb-false m n h = ground arith

look-write_disk :
    (path bytes : List ℕ) (d : Disk) → look path (write_disk path bytes d).files ≡ some bytes
unfolding look write_disk
look-write_disk path bytes d = rw (same_string_self path)

module _ (D : Dictionary) where
  abbrev put_request : List ℕ → Request
  put_request name = record { num = 2; command = codes "PUT"; file_name = name }

  named : List ℕ → Session D → Session D
  named name s = record s { info = record s.info { file_name = name; command = put_verb } }

  parse_request-put :
      (name : List ℕ) (s t : Session D)
      → length name < 255
      → help_put D (named name s) ≡ ok (0, t)
      → t.info.command ≡ put_verb
      → parse_request D (put_request name) s
        ≡ ok (true, record t { info = record t.info { ready_parse = 0; ready_exec = 1 } })
  unfolding named parse_request parse_put parse_get parse_delete parse_list parse_end parse_helper
      unless_returned same_string is_verb
  parse_request-put name s t short puts verb =
      let fits : leb 255 (length name) ≡ false = leb-false 255 (length name) short in
      let whole = take_all 254 name (omega arith) in rw (fits, whole, puts, verb)

  executing : Session D → Session D
  executing s = record s { info = record s.info { ready_exec = 1; command = put_verb } }

  process_client-put :
      (x : Texts) (s : Session D) → process_client D x (executing s) ≡ say D ok_text (executing s)
  unfolding process_client execute executing
  process_client-put x s = refl

  received : List ℕ → List ℕ → List (List Answer) → Session D → Session D
  received name more rest s = named name (record s {
    info = record s.info { ready_parse = 1 };
    connection = record s.connection { incoming = more; schedules = rest };
  })

  parse_header-put :
      (s : Session D) (k n : ℕ) (name file : List ℕ)
      → is_word name ≡ true
      → 0 < length name
      → length s.server.directory + length name + 2 ≤ 255
      → s.server.disk.writable (path_of s.server.directory name) ≡ true
      → length file < 2 ^ 63 - block_size
      → s.connection.incoming
        ≡ (codes "PUT" ++ (32 ∷ name ++ 10 ∷ [])) ++ (size_bytes (length file) ++ file)
      → Ready (suc (suc (suc k))) n s.connection.schedules
      → 2 * (length file + block_size) ≤ n
      → (rest : List (List Answer)) × (last : List (List Answer)) × Ready k n last
        × (let t = stored D file last (received name (size_bytes (length file) ++ file) rest s) in
            parse_header D (record s { info = record s.info { ready_parse = 1 } })
            ≡ ok (record t { info = record t.info { ready_parse = 0; ready_exec = 1 } }))
  unfolding parse_header received named stored
  parse_header-put s k n name file word some_name short creates small e r h =
      let line = codes "PUT" ++ (32 ∷ name ++ 10 ∷ []) in
      let more = size_bytes (length file) ++ file in
      let (rest, ready, comes) =
        receive_line-Ready (suc (suc k)) n line more s.connection r (omega arith)
          (omega (arith, length-request_line (codes "PUT") name)) e
          (first_line-request_line (codes "PUT") name more is_word-put word) in
      let fits : is_long D (received name more rest s) ≡ false = ground arith in
      let (last, later, puts) =
        help_put-stores D (received name more rest s) k n file fits creates small refl ready h in
      let scans =
        scan_request-request_line (codes "PUT") name is_word-put word (omega arith) (omega arith)
          some_name (omega arith) in
      (
        rest,
        last,
        later,
        rw (comes, scans)
            (ap (λ m. m >>= λ t. ok t.1)
              (parse_request-put name
                (record s {
                  info = record s.info { ready_parse = 1 };
                  connection = record s.connection { incoming = more; schedules = rest };
                })
                (stored D file last (received name more rest s)) (omega arith) puts refl)),
      )

  -- For a request `PUT name`, the size of the file and its bytes, where the name is a word, the path of
  -- the file is not too long and can be opened for writing, the size plus 1,024 is below 2 ^ 63, and on the
  -- first four calls the kernel moves bytes in each answer, interruptions apart: whatever the entry of the
  -- client holds at first, the server reads all that came, stores the bytes under the path and their
  -- number under the name, and answers OK and nothing else.
  pub put_stores :
      (x : Texts) (s : Session D) (n : ℕ) (name file : List ℕ)
      → is_word name ≡ true
      → 0 < length name
      → length s.server.directory + length name + 2 ≤ 255
      → s.server.disk.writable (path_of s.server.directory name) ≡ true
      → length file < 2 ^ 63 - block_size
      → s.connection.incoming
        ≡ (codes "PUT" ++ (32 ∷ name ++ 10 ∷ [])) ++ (size_bytes (length file) ++ file)
      → Ready 4 n s.connection.schedules
      → 2 * (length file + block_size) ≤ n
      → (t : Session D) × (serve_client D x s ≡ ok t)
        × (look (path_of s.server.directory name) t.server.disk.files ≡ some file)
        × (D.dictionary_get name t.server.sizes ≡ some (length file))
        × (t.connection.sent ≡ s.connection.sent ++ ok_text)
        × (t.connection.incoming ≡ [])
  unfolding serve_client stored received named executing
  put_stores x s n name file word some_name short creates small e r h =
      let more = size_bytes (length file) ++ file in
      let (rest, last, ready, parses) =
        parse_header-put s 1 n name file word some_name short creates small e r h in
      let t = stored D file last (received name more rest s) in
      let t' : Session D = record t { info = record t.info { ready_parse = 0; ready_exec = 1 } } in
      let (end, later, answers) = say-Ready D 0 n ok_text t' ready (omega arith) in
      (
        said D ok_text end t',
        rw parses (process_client-put x t' ∙ answers),
        look-write_disk (path_of s.server.directory name) file
            (open_new D (received name more rest s)).disk,
        D.get-set name (length file) s.server.sizes,
        refl,
        refl,
      )
