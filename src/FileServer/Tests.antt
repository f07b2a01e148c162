-- ===== src/FileServer/Tests.antt =====
-- nonstop_networking/server.c: a file of three bytes, put and got.
use cs.Prelude.{◌+◌, ◌≡◌, refl, none, some, List, [], ◌∷◌, ◌++◌, false, true, arith, if◌then◌else◌}
use cs.Prelude.Chars.{str_eq}
use cs.Socket.{Choice, upto, interrupted}
use cs.FileServer.{Bytes, Conn, Files, ok_line, has_name, Request, put_verb, put, delete}
use cs.FileServer.Verbs.{delete_lem, count_name}
use cs.FileServer.RoundTrip.{no_slash, put_lem}

abbrev no_such_file : Bytes
no_such_file = 78 ∷ 10 ∷ []

abbrev bad_size : Bytes
bad_size = 66 ∷ 10 ∷ []

abbrev choices : List Choice
choices = upto 1 ∷ interrupted ∷ upto 0 ∷ upto 9 ∷ upto 9 ∷ []

-- a client that sends three bytes, in two chunks
abbrev sender : Conn
sender = record { socket = record { stream = 5 ∷ 6 ∷ 7 ∷ []; choices = choices }; reply = [] }

abbrev reader : Conn
reader = record { socket = record { stream = []; choices = [] }; reply = [] }

abbrev request : Request
request = record { verb = put_verb; file_name = 97 ∷ []; file_size = 3 }

-- the server with one file, `b`, of one byte
abbrev one_file : Files
one_file = record {
  names = (98 ∷ []) ∷ [];
  disk = λ name. if str_eq name (98 ∷ []) then some (1 ∷ []) else none;
  opens = λ name. true;
}

put_lem_example :
    (g : Files) × (d : Conn) × (put no_such_file bad_size request one_file sender ≡ some (g, d))
    × (d.reply ≡ [])
    × (g.names ≡ (98 ∷ []) ∷ (97 ∷ []) ∷ [])
    × (g.disk (97 ∷ []) ≡ some (5 ∷ 6 ∷ 7 ∷ []))
    × ((other : Bytes)
        → no_slash other ≡ true
        → str_eq other (97 ∷ []) ≡ false
        → g.disk other ≡ one_file.disk other)
put_lem_example =
    put_lem no_such_file bad_size 4 request one_file sender refl (omega arith) (refl, refl) refl

delete_lem_example :
    let (g, d) = delete no_such_file bad_size (98 ∷ []) one_file reader in
    (d.reply ≡ [] ++ ok_line)
    × (g.disk (98 ∷ []) ≡ none)
    × (count_name (98 ∷ []) one_file.names ≡ count_name (98 ∷ []) g.names + 1)
    × ((other : Bytes)
        → str_eq other (98 ∷ []) ≡ false
        → (g.disk other ≡ one_file.disk other)
          × (count_name other g.names ≡ count_name other one_file.names))
unfolding has_name str_eq
delete_lem_example = delete_lem no_such_file bad_size (98 ∷ []) one_file reader refl
