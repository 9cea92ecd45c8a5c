-- ===== src/FileTransfer/Requests.antt =====
-- server.c: the parse of a request, the answer to it, and what the loop of run_server does for a client.
-- update_epoll_events is left out: whatever event is asked for, process_client follows at once.
use machine_project.Prelude.{
  ℕ, ◌-◌, ltb, leb, ◌==◌, ◌||◌, if◌then◌else◌, length, take, Bool, true, false, Outcome, ok, ◌>>=◌,
}
use machine_project.Prelude.Strings.{codes, same_string}
use machine_project.FileTransfer.{receive_line}
use machine_project.FileTransfer.Parse.{Request, scan_request}
use machine_project.FileTransfer.Server.{
  Verb, get_verb, put_verb, delete_verb, list_verb, v_unknown, Dictionary, Texts, ok_text,
  error_text, max_filename_size, Session,
}
use machine_project.FileTransfer.Handlers.{
  say, with_error, help_put, help_get, help_delete, help_list,
}

unfoldable pub is_verb : Verb → Verb → Bool
is_verb get_verb get_verb = true
is_verb put_verb put_verb = true
is_verb delete_verb delete_verb = true
is_verb list_verb list_verb = true
is_verb v w = false

module _ (D : Dictionary) where
  -- Whether the function has returned, and the session.
  abbrev Returned : Type 0
  Returned = Bool × Session D

  abbrev pub bad_request : Session D → Returned
  bad_request s = (true, with_error D 1 s)

  abbrev pub with_command : Verb → Session D → Session D
  with_command v s = record s { info = record s.info { command = v } }

  unfoldable pub unless_returned : (Session D → Outcome Returned) → Returned → Outcome Returned
  unless_returned next (true, s) = ok (true, s)
  unless_returned next (false, s) = next s

  -- `strncpy` keeps what fits into the array.
  unfoldable pub parse_helper : Request → Session D → Returned
  parse_helper q s =
      if ltb q.num 2 || leb max_filename_size (length q.file_name) then bad_request s else (
        false,
        record s { info = record s.info { file_name = take (max_filename_size - 1) q.file_name } },
      )

  -- The part of parse_header for each command.
  unfoldable pub parse_put : Request → Session D → Outcome Returned
  parse_put q s =
      if same_string q.command (codes "PUT")
      then unless_returned
          (λ t. help_put D t >>= λ r.
            (if r.0 == 0 then ok (false, r.1) else ok (true, with_error D 2 r.1)))
          (parse_helper q (with_command put_verb s))
      else ok (false, s)

  unfoldable pub parse_get : Request → Session D → Outcome Returned
  parse_get q s =
      if same_string q.command (codes "GET")
      then ok (parse_helper q (with_command get_verb s))
      else ok (false, s)

  unfoldable pub parse_delete : Request → Session D → Outcome Returned
  parse_delete q s =
      if same_string q.command (codes "DELETE")
      then ok (parse_helper q (with_command delete_verb s))
      else ok (false, s)

  unfoldable pub parse_list : Request → Session D → Outcome Returned
  parse_list q s =
      if same_string q.command (codes "LIST")
      then (if ltb 1 q.num
          then ok (bad_request (with_command list_verb s))
          else ok (false, with_command list_verb s))
      else ok (false, s)

  -- `!info->command`, and GET is 0.
  unfoldable pub parse_end : Session D → Outcome Returned
  parse_end s =
      if is_verb s.info.command get_verb
      then ok (bad_request s)
      else ok (true, record s { info = record s.info { ready_parse = 0; ready_exec = 1 } })

  unfoldable pub parse_request : Request → Session D → Outcome Returned
  parse_request q s =
      if ltb q.num 1
      then ok (bad_request s)
      else (parse_put q s
          >>= unless_returned (parse_get q)
          >>= unless_returned (parse_delete q)
          >>= unless_returned (parse_list q)
          >>= unless_returned parse_end)

  unfoldable pub parse_header : Session D → Outcome (Session D)
  parse_header s = do
    r ← receive_line s.connection
    q ← scan_request r.0
    t ← parse_request q (record s { connection = r.1 })
    ok t.1

  -- The commands that are executed, one test after the other; then the connection is closed.
  unfoldable pub execute : Session D → Outcome (Session D)
  execute s = elim s.info.command [
    | put_verb ↦ say D ok_text s
    | list_verb ↦ help_list D s
    | delete_verb ↦ help_delete D s
    | get_verb ↦ help_get D s
    | v_unknown ↦ ok s
  ]

  unfoldable pub say_error : Texts → ℕ → Session D → Outcome (Session D)
  say_error x e s =
      if e == 1
      then say D (take 12 x.err_bad_request) s
      else if e == 2
      then say D (take 14 x.err_bad_file_size) s
      else if e == 3
      then say D (take 13 x.err_no_such_file) s
      else ok s

  unfoldable pub process_client : Texts → Session D → Outcome (Session D)
  process_client x s =
      if s.info.ready_exec == 1
      then execute s
      else if ltb 0 s.info.error_type
      then (say D error_text s >>= say_error x s.info.error_type)
      else ok s

  unfoldable pub serve_client : Texts → Session D → Outcome (Session D)
  serve_client x s =
      parse_header (record s { info = record s.info { ready_parse = 1 } }) >>= process_client x
