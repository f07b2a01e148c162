-- ===== src/FileServer/Serve.antt =====
-- One connection of nonstop_networking/server.c in run_server: the header, and then the verb.
-- The connection is accepted, and epoll reports it.
use cs.Prelude.{ℕ, ◌≡◌, Option, none, some, [], ◌∷◌, ◌++◌, length, take, ◌>>=◌, ap}
use cs.FileServer.{
  Bytes, Verb, get_verb, put_verb, delete_verb, list_verb, Conn, send, Files, Request,
  process_header, list, delete, put, get,
}

-- The texts are those of format.h.
module _ (err_no_such_file err_bad_file_size err_bad_request : Bytes) where
  pub dispatch : Verb → Request → Files → Conn → Option (Files × Conn)
  dispatch list_verb r f c = some (f, list f c)
  dispatch delete_verb r f c = some (delete err_no_such_file err_bad_file_size r.file_name f c)
  dispatch get_verb r f c = do c' ← get r.file_name f c; some (f, c')
  dispatch put_verb r f c = put err_no_such_file err_bad_file_size r f c

  -- The text for a bad request is cut to the length of another text, its terminator included.
  pub serve : Files → Conn → Option (Files × Conn)
  unfolding dispatch
  serve f c = do
    (request, c') ← process_header c
    elim request [
      | none ↦ some (f, send (take (length err_no_such_file) (err_bad_request ++ (0 ∷ []))) c')
      | some r ↦ dispatch r.verb r f c'
    ]

  pub serve-put :
      (f g : Files) (c c' d : Conn) (name : Bytes) (size : ℕ)
      → process_header c
        ≡ some (some (record { verb = put_verb; file_name = name; file_size = size }), c')
      → put err_no_such_file err_bad_file_size
          (record { verb = put_verb; file_name = name; file_size = size })
          f
          c'
        ≡ some (g, d)
      → serve f c ≡ some (g, d)
  unfolding serve dispatch
  serve-put f g c c' d name size e p = rw (e, serve) p

  pub serve-get :
      (f : Files) (c c' d : Conn) (name : Bytes) (size : ℕ)
      → process_header c
        ≡ some (some (record { verb = get_verb; file_name = name; file_size = size }), c')
      → get name f c' ≡ some d
      → serve f c ≡ some (f, d)
  unfolding serve dispatch
  serve-get f c c' d name size e p = rw (e, serve) (ap (λ o. o >>= λ x. some (f, x)) p)
