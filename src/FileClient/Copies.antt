-- ===== src/FileClient/Copies.antt =====
-- A file of one client of nonstop_networking goes to the server, and from there to another client.
use cs.Prelude.{
  ℕ, ◌+◌, ◌-◌, ◌^◌, ◌<◌, ◌≡◌, refl, some, true, false, ◌==◌, if◌then◌else◌, List, [], ◌∷◌, ◌++◌,
  length, arith, ap, sym, subst, ◌∙◌, append_assoc,
}
use cs.Socket.{Choice}
use cs.Socket.Reads.{Patient}
use cs.FileServer.{
  Bytes, Conn, send, Files, Request, ok_line, get_verb, put_verb, c_string, to_bytes, has_name,
  put_word, get_word,
}
use cs.FileServer.Header.{is_line, header_get, header_put}
use cs.FileServer.Verbs.{get_lem}
use cs.FileServer.RoundTrip.{IsEntry, at_stream, put_lem, has_name-snoc}
use cs.FileServer.Serve.{serve, serve-put, serve-get}
use cs.FileClient.{Client, message, put, get}
use cs.FileClient.Download.{download_lem}
use cs.FileClient.Exchange.{put_silence}

c_string-line_end :
    (name : Bytes) → is_line name ≡ true → c_string (name ++ 10 ∷ []) ≡ name ++ 10 ∷ []
unfolding c_string
c_string-line_end [] h = refl
c_string-line_end (c ∷ cs) h =
    let other : (c == 0) ≡ false = ground arith in
    ap (λ b. if b then [] else c ∷ c_string (cs ++ 10 ∷ [])) other
    ∙ ap (λ l. c ∷ l) (c_string-line_end cs (ground arith))

put_line :
    (name : Bytes)
    → is_line name ≡ true
    → c_string (message put_verb name) ≡ put_word ++ 32 ∷ name ++ 10 ∷ []
unfolding c_string message
put_line name h = ap (λ l. put_word ++ 32 ∷ l) (c_string-line_end name h)

get_line :
    (name : Bytes)
    → is_line name ≡ true
    → c_string (message get_verb name) ≡ get_word ++ 32 ∷ name ++ 10 ∷ []
unfolding c_string message
get_line name h = ap (λ l. get_word ++ 32 ∷ l) (c_string-line_end name h)

-- a connection over which `stream` arrives
abbrev pub over : (stream : Bytes) → List Choice → Conn
over stream choices = record { socket = record { stream = stream; choices = choices }; reply = [] }

module _ (err_no_such_file err_bad_file_size err_bad_request : Bytes) where
  -- The server stores what a request of the client's PUT carries.
  pub serve_upload :
      (n : ℕ) (name content : Bytes) (f : Files) (cs : List Choice)
      → IsEntry f name
      → is_line name ≡ true
      → length name < 255
      → length content < 2 ^ 64
      → length name + length content + 14 < n
      → Patient n cs
      → (g : Files) × (d : Conn) × (serve err_no_such_file err_bad_file_size err_bad_request f
            (over (c_string (message put_verb name) ++ (to_bytes 8 (length content) ++ content)) cs)
          ≡ some (g, d))
        × (g.names ≡ f.names ++ (name ∷ []))
        × (g.disk name ≡ some content)
  serve_upload n name content f cs entry line few small enough p =
      let tail_ = to_bytes 8 (length content) ++ content in
      let c = over (c_string (message put_verb name) ++ tail_) cs in
      let split =
        ap (λ l. l ++ tail_) (put_line name line)
        ∙ ap (λ l. put_word ++ 32 ∷ l) (append_assoc name (10 ∷ []) tail_) in
      let (cs1, header, q) =
        header_put n (length content) name content c split line few small (omega (arith, enough))
          p in
      let r : Request = record { verb = put_verb; file_name = name; file_size = length content } in
      let (g, d, stored, reply, names, content_, others) =
        put_lem err_no_such_file err_bad_file_size (n - (length name + 13)) r f
          (at_stream c content cs1) refl (omega (arith, enough)) entry q in
      (
        g,
        d,
        serve-put err_no_such_file err_bad_file_size err_bad_request f g c (at_stream c content cs1)
            d name (length content) header stored,
        names,
        content_,
      )

  -- The server answers the request of the client's GET with what it stores.
  pub serve_download :
      (n : ℕ) (name content : Bytes) (g : Files) (cs : List Choice)
      → is_line name ≡ true
      → length name < 255
      → length name + 4 < n
      → has_name name g.names ≡ true
      → g.disk name ≡ some content
      → Patient n cs
      → (d : Conn) × (serve err_no_such_file err_bad_file_size err_bad_request g
            (over (c_string (message get_verb name)) cs)
          ≡ some (g, d))
        × (d.reply ≡ ok_line ++ (to_bytes 8 (length content) ++ content))
  serve_download n name content g cs line few enough listed there p =
      let c = over (c_string (message get_verb name)) cs in
      let (cs1, header, q) = header_get n name [] c (get_line name line) line few enough p in
      let c1 = at_stream c [] cs1 in
      (
        send content (send (to_bytes 8 (length content)) (send ok_line c1)),
        serve-get err_no_such_file err_bad_file_size err_bad_request g c c1
            (send content (send (to_bytes 8 (length content)) (send ok_line c1))) name 0 header
            (get_lem name g c1 content listed there),
        append_assoc ok_line (to_bytes 8 (length content)) content,
      )

  pub upload-download :
      (n : ℕ) (name local copy content : Bytes) (f : Files) (a b : Client) (ps qs rs : List Choice)
      → IsEntry f name
      → is_line name ≡ true
      → length name < 255
      → c_string content ≡ content
      → length content < 2 ^ 64
      → length name + length content + 14 < n
      → a.disk local ≡ some content
      → a.conn ≡ over [] ps
      → Patient n ps
      → Patient n qs
      → Patient n rs
      → (a' b' : Client) × (g : Files) × (c d : Conn) × (put name local a ≡ some a')
        × (serve err_no_such_file err_bad_file_size err_bad_request f (over a'.conn.reply qs)
            ≡ some (g, c))
        × (serve err_no_such_file err_bad_file_size err_bad_request g (over b'.conn.reply qs)
            ≡ some (g, d))
        × (get name copy (record b { conn = over d.reply rs }) ≡ some b')
        × (b'.disk copy ≡ some content)
  upload-download n name local copy content f a b ps qs rs entry line few clean small enough there
        idle p q r =
      let quiet = subst (λ c. Patient n c.socket.choices) (sym idle) p in
      let (a', sent, request, printed) =
        put_silence n name local content a there (ap (λ c. c.socket.stream) idle)
          (omega (arith, enough)) quiet in
      let (g, c, served, names, stored) =
        serve_upload n name content f qs entry line few small enough q in
      let listed : has_name name g.names ≡ true =
        subst (λ ns. has_name name ns ≡ true) (sym names)
          (has_name-snoc err_no_such_file err_bad_file_size name f.names) in
      let (d, answered, reply) =
        serve_download n name content g qs line few (omega (arith, enough)) listed stored q in
      let (b', got, saved, others, asked, silent) =
        download_lem n name copy content (record b { conn = over d.reply rs }) reply clean small
          (omega (arith, enough)) r in
      let request_ =
        request
        ∙ ap
            (λ c.
              c.reply
              ++ (c_string (message put_verb name) ++ (to_bytes 8 (length content) ++ content)))
            idle in
      (
        a',
        b',
        g,
        c,
        d,
        sent,
        ap (λ s. serve err_no_such_file err_bad_file_size err_bad_request f (over s qs)) request_
            ∙ served,
        ap (λ s. serve err_no_such_file err_bad_file_size err_bad_request g (over s qs)) asked
            ∙ answered,
        got,
        saved,
      )
