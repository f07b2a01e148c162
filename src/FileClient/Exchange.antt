-- ===== src/FileClient/Exchange.antt =====
-- The client of nonstop_networking against its server: a PUT, and a GET of what was put.
use cs.Prelude.{
  ℕ, ◌-◌, ◌<◌, ◌≡◌, refl, Option, some, false, List, [], ◌∷◌, ◌++◌, length, arith, ap, ◌∙◌, ◌>>=◌,
  append_assoc, append-nil,
}
use cs.Prelude.Chars.{str_eq}
use cs.Socket.{Choice, ended, Read, read_retry}
use cs.Socket.Reads.{Patient}
use cs.Socket.Retry.{read_retry_end}
use cs.FileServer.{Bytes, put_verb, c_string, to_bytes}
use cs.FileClient.{
  Client, text, invalid_response, receive, send_to, ask, is_ok, message, check_error, print, put,
}
use cs.FileClient.Receives.{at_stream as client_at}

receive_none :
    (n count : ℕ) (c : Client)
    → c.conn.socket.stream ≡ []
    → 0 < count
    → 0 < n
    → Patient n c.conn.socket.choices
    → (cs : List Choice) × (receive count c ≡ some (ended, [], client_at c [] cs))
      × Patient (n - 1) cs
unfolding receive
receive_none n count c e h more p =
    let (cs, r, q) = read_retry_end c.conn.socket.choices n count [] h more p in
    (
      cs,
      ap
          (λ (o : Option Read). o >>= λ x.
            some (x.status, x.bytes, record c { conn = record c.conn { socket = x.socket } }))
          (ap (λ s. read_retry count [] s c.conn.socket.choices) e ∙ r),
      q,
    )

abbrev asked : Client → (remote content : Bytes) → Client
asked c remote content =
    send_to content
      (send_to (to_bytes 8 (length content)) (send_to (c_string (message put_verb remote)) c))

put_answer :
    (remote local content buf : Bytes) (c c' d : Client)
    → c.disk local ≡ some content
    → ask [] (asked c remote content) ≡ some (buf, c')
    → is_ok buf ≡ false
    → check_error buf c' ≡ some d
    → put remote local c ≡ some d
unfolding put
put_answer remote local content buf c c' d there a fine error_ = rw (there, a, fine, put) error_

-- what `check_error` makes of three null bytes and no more
check_silence :
    (c c' : Client)
    → receive 3 c ≡ some (ended, [], c')
    → check_error (0 ∷ 0 ∷ 0 ∷ []) c ≡ some (print invalid_response (print (text []) c'))
unfolding check_error c_string str_eq
check_silence c c' r = rw (r, check_error) refl

ask_silence :
    (buf : Bytes) (c c' : Client)
    → receive 3 (send_to (c_string buf) c) ≡ some (ended, [], c')
    → ask buf c ≡ some (0 ∷ 0 ∷ 0 ∷ [], c')
unfolding ask
ask_silence buf c c' r = rw (r, ask) refl

-- Where the local file is there and the connection ends without an error and without a reply, PUT of the
-- client ends: it sends the request, the size and the file, prints no text, and reports an invalid
-- response.
pub put_silence :
    (n : ℕ) (remote local content : Bytes) (c : Client)
    → c.disk local ≡ some content
    → c.conn.socket.stream ≡ []
    → 1 < n
    → Patient n c.conn.socket.choices
    → (d : Client) × (put remote local c ≡ some d)
      × (d.conn.reply
          ≡ c.conn.reply
            ++ (c_string (message put_verb remote) ++ (to_bytes 8 (length content) ++ content)))
      × (d.events ≡ c.events ++ (text [] ∷ invalid_response ∷ []))
unfolding c_string str_eq
put_silence n remote local content c there nothing enough p =
    let a = send_to [] (asked c remote content) in
    let (cs1, r1, q1) = receive_none n 3 a nothing (omega arith) (omega (arith, enough)) p in
    let (cs2, r2, q2) =
      receive_none (n - 1) 3 (client_at a [] cs1) refl (omega arith) (omega (arith, enough)) q1 in
    let d = print invalid_response (print (text []) (client_at (client_at a [] cs1) [] cs2)) in
    let m = c_string (message put_verb remote) in
    (
      d,
      put_answer remote local content (0 ∷ 0 ∷ 0 ∷ []) c (client_at a [] cs1) d there
          (ask_silence [] (asked c remote content) (client_at a [] cs1) r1) refl
          (check_silence (client_at a [] cs1) (client_at (client_at a [] cs1) [] cs2) r2),
      append-nil (((c.conn.reply ++ m) ++ to_bytes 8 (length content)) ++ content)
          ∙ append_assoc (c.conn.reply ++ m) (to_bytes 8 (length content)) content
          ∙ append_assoc c.conn.reply m (to_bytes 8 (length content) ++ content),
      append_assoc c.events (text [] ∷ []) (invalid_response ∷ []),
    )
