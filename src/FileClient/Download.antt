-- ===== src/FileClient/Download.antt =====
-- GET of nonstop_networking/client.c, from a reply that the connection delivers whole.
use cs.Prelude.{
  ℕ, zero, suc, ◌+◌, ◌-◌, ◌/◌, ◌^◌, ◌≤◌, ◌<◌, ◌≡◌, refl, some, true, false, ltb, if◌then◌else◌,
  List, [], ◌++◌, length, arith, ap, sym, subst, ◌∙◌, ◌>>=◌, append-nil,
}
use cs.Prelude.Chars.{str_eq, str_eq_refl}
use cs.Socket.{Choice, all}
use cs.Socket.Reads.{Patient}
use cs.FileServer.{Bytes, ok_line, get_verb, c_string, to_bytes}
use cs.FileServer.Verbs.{of_size}
use cs.FileClient.{
  Client, receive, get_message_size, send_to, cleared, ask, is_ok, message, save, get,
}
use cs.FileClient.Receives.{at_stream, receive_front, receive_end}

length-to_bytes : (k n : ℕ) → length (to_bytes k n) ≡ k
unfolding to_bytes
length-to_bytes zero n = refl
length-to_bytes (suc k) n = ap suc (length-to_bytes k (n / 256))

-- A request is sent, and the three bytes of OK are there.
ask_ok :
    (n : ℕ) (buf rest : Bytes) (c : Client)
    → c.conn.socket.stream ≡ ok_line ++ rest
    → 3 ≤ n
    → Patient n c.conn.socket.choices
    → (cs : List Choice) × (ask buf c
        ≡ some (ok_line, at_stream (send_to (c_string buf) c) rest cs))
      × Patient (n - 3) cs
unfolding ask
ask_ok n buf rest c e enough p =
    let (cs, r, q) = receive_front n (send_to (c_string buf) c) ok_line rest e enough p in
    (cs, ap (λ o. o >>= λ x. some (cleared 3 x.1, x.2)) r, q)

get_message_size_front :
    (n size : ℕ) (rest : Bytes) (c : Client)
    → c.conn.socket.stream ≡ to_bytes 8 size ++ rest
    → size < 2 ^ 64
    → 8 ≤ n
    → Patient n c.conn.socket.choices
    → (cs : List Choice) × (get_message_size c ≡ some (size, at_stream c rest cs))
      × Patient (n - 8) cs
unfolding get_message_size
get_message_size_front n size rest c e small enough p =
    let eight = length-to_bytes 8 size in
    let (cs, r, q) = receive_front n c (to_bytes 8 size) rest e (omega (arith, eight, enough)) p in
    let r8 = subst (λ k. receive k c ≡ some (all, to_bytes 8 size, at_stream c rest cs)) eight r in
    (
      cs,
      rw (r8, get_message_size) (ap (λ k. some (k, at_stream c rest cs)) (of_size size small)),
      subst (λ k. Patient (n - k) cs) eight q,
    )

-- the client with a file stored
abbrev pub stored : Client → (local : Bytes) → Bytes → Client
stored c local content = record c {
  disk = λ other. if str_eq other local then some content else c.disk other;
}

save_whole :
    (n : ℕ) (local content : Bytes) (c : Client)
    → c.conn.socket.stream ≡ content
    → length content < n
    → Patient n c.conn.socket.choices
    → (cs : List Choice) × (save local (length content) c
        ≡ some (stored (at_stream c [] cs) local (c_string content)))
unfolding save
save_whole n local content c e enough p =
    let (cs, r, q) =
      receive_front n c content [] (e ∙ sym (append-nil content)) (omega (arith, enough)) p in
    let (cs', r') =
      receive_end (n - length content) (at_stream c [] cs) refl (omega (arith, enough)) q in
    let whole : ltb (length content) (length content) ≡ false = ground arith in
    (cs', rw (r, whole, r', save) refl)

get_ok :
    (remote local buf : Bytes) (c c' c'' : Client) (size : ℕ)
    → ask (message get_verb remote) c ≡ some (buf, c')
    → is_ok buf ≡ true
    → get_message_size c' ≡ some (size, c'')
    → get remote local c ≡ save local size c''
unfolding get
get_ok remote local buf c c' c'' size asked fine sized = rw (asked, fine, sized, get) refl

pub download_lem :
    (n : ℕ) (remote local content : Bytes) (c : Client)
    → c.conn.socket.stream ≡ ok_line ++ (to_bytes 8 (length content) ++ content)
    → c_string content ≡ content
    → length content < 2 ^ 64
    → length content + 11 < n
    → Patient n c.conn.socket.choices
    → (d : Client) × (get remote local c ≡ some d)
      × (d.disk local ≡ some content)
      × ((other : Bytes) → str_eq other local ≡ false → d.disk other ≡ c.disk other)
      × (d.conn.reply ≡ c.conn.reply ++ c_string (message get_verb remote))
      × (d.events ≡ c.events)
unfolding c_string str_eq
download_lem n remote local content c e clean small enough p =
    let buf = message get_verb remote in
    let (cs1, r1, q1) =
      ask_ok n buf (to_bytes 8 (length content) ++ content) c e (omega (arith, enough)) p in
    let c1 = at_stream (send_to (c_string buf) c) (to_bytes 8 (length content) ++ content) cs1 in
    let (cs2, r2, q2) =
      get_message_size_front (n - 3) (length content) content c1 refl small (omega (arith, enough))
        q1 in
    let c2 = at_stream c1 content cs2 in
    let (cs3, r3) = save_whole (n - 3 - 8) local content c2 refl (omega (arith, enough)) q2 in
    (
      stored (at_stream c2 [] cs3) local (c_string content),
      get_ok remote local ok_line c c1 c2 (length content) r1 refl r2 ∙ r3,
      ap (λ b. if b then some (c_string content) else c.disk local) (str_eq_refl local)
          ∙ ap some clean,
      λ other h. ap (λ b. if b then some (c_string content) else c.disk other) h,
      refl,
      refl,
    )
