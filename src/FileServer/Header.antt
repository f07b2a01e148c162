-- ===== src/FileServer/Header.antt =====
-- The header of a request, as the client of nonstop_networking writes it and the server reads it.
use cs.Prelude.{
  ℕ, zero, suc, ◌+◌, ◌-◌, ◌/◌, ◌^◌, ◌≤◌, ◌<◌, ◌≡◌, refl, some, Bool, true, false, not, ◌&&◌, ◌==◌,
  if◌then◌else◌, List, [], ◌∷◌, ◌++◌, length, take, drop, arith, ap, sym, subst, ◌∙◌, length-append,
  append_assoc, append-nil,
}
use cs.Prelude.Chars.{str_eq}
use cs.Socket.{Choice, all}
use cs.Socket.Reads.{Patient}
use cs.FileServer.{
  Bytes, Verb, get_verb, put_verb, Conn, c_string, to_bytes, receive, get_word, put_word, skip,
  get_cmd, get_file_name, get_message_size, header_of, process_header,
}
use cs.FileServer.RoundTrip.{at_stream, receive_all}
use cs.FileServer.Verbs.{of_size}

-- a name that a line can carry: no newline, and no null byte
abbrev pub is_line : Bytes → Bool
is_line [] = true
is_line (c ∷ cs) = not (c == 10) && not (c == 0) && is_line cs

take-front : (s rest : Bytes) → take (length s) (s ++ rest) ≡ s
take-front [] rest = refl
take-front (b ∷ bs) rest = ap (λ l. b ∷ l) (take-front bs rest)

drop-front : (s rest : Bytes) → drop (length s) (s ++ rest) ≡ rest
drop-front [] rest = refl
drop-front (b ∷ bs) rest = drop-front bs rest

length-to_bytes : (k n : ℕ) → length (to_bytes k n) ≡ k
unfolding to_bytes
length-to_bytes zero n = refl
length-to_bytes (suc k) n = ap suc (length-to_bytes k (n / 256))

pub c_string-line : (name : Bytes) → is_line name ≡ true → c_string name ≡ name
unfolding c_string
c_string-line [] h = refl
c_string-line (c ∷ cs) h =
    let other : (c == 0) ≡ false = ground arith in
    ap (λ b. if b then [] else c ∷ c_string cs) other
    ∙ ap (λ l. c ∷ l) (c_string-line cs (ground arith))

-- `front` is read whole.
receive_front :
    (n : ℕ) (c : Conn) (front rest : Bytes)
    → c.socket.stream ≡ front ++ rest
    → length front ≤ n
    → Patient n c.socket.choices
    → (cs : List Choice) × (receive (length front) c ≡ some (all, front, at_stream c rest cs))
      × Patient (n - length front) cs
receive_front n c front rest e enough p =
    let whole = ap length e ∙ length-append front rest in
    let (cs, r, q) = receive_all n (length front) c (omega (arith, whole)) enough p in
    let taken = ap (take (length front)) e ∙ take-front front rest in
    let left = ap (drop (length front)) e ∙ drop-front front rest in
    (
      cs,
      r
          ∙ ap (λ b. some (all, b, at_stream c (drop (length front) c.socket.stream) cs)) taken
          ∙ ap (λ l. some (all, front, at_stream c l cs)) left,
      q,
    )

-- The rounds of `get_file_name` up to the newline.
get_file_name_lem :
    (name acc rest : Bytes) (rounds n : ℕ) (c : Conn)
    → c.socket.stream ≡ name ++ 10 ∷ rest
    → is_line name ≡ true
    → length name + 1 < rounds
    → length name < n
    → Patient n c.socket.choices
    → (cs : List Choice) × (get_file_name rounds acc c
        ≡ some (some (c_string (acc ++ name)), at_stream c rest cs))
      × Patient (n - (length name + 1)) cs
unfolding get_file_name
get_file_name_lem name acc rest zero n c e line few enough p = absurd (omega (arith, few))
get_file_name_lem [] acc rest (suc rounds) n c e line few enough p =
    let (cs, r, q) = receive_front n c (10 ∷ []) rest e (omega (arith, enough)) p in
    let further : (rounds == 0) ≡ false = ground arith in
    (
      cs,
      rw (r, further, get_file_name)
          (ap (λ l. some (some (c_string l), at_stream c rest cs)) (sym (append-nil acc))),
      q,
    )
get_file_name_lem (b ∷ bs) acc rest (suc rounds) n c e line few enough p =
    let other : (b == 10) ≡ false = ground arith in
    let (cs, r, q) = receive_front n c (b ∷ []) (bs ++ 10 ∷ rest) e (omega (arith, enough)) p in
    let (cs', r', q') =
      get_file_name_lem bs (acc ++ b ∷ []) rest rounds (n - 1) (at_stream c (bs ++ 10 ∷ rest) cs)
        refl (ground arith) (omega (arith, few)) (omega (arith, enough)) q in
    (
      cs',
      rw (r, other, get_file_name)
          (r'
            ∙ ap (λ l. some (some (c_string l), at_stream c rest cs'))
                (append_assoc acc (b ∷ []) bs)),
      subst (λ k. Patient k cs') (omega arith) q',
    )

-- Three letters and the space behind them.
word_lem :
    (n : ℕ) (word rest : Bytes) (c : Conn)
    → c.socket.stream ≡ word ++ 32 ∷ rest
    → length word ≡ 3
    → 4 ≤ n
    → Patient n c.socket.choices
    → (cs : List Choice) × (cs' : List Choice) × (receive 3 c
        ≡ some (all, word, at_stream c (32 ∷ rest) cs))
      × (receive 1 (at_stream c (32 ∷ rest) cs) ≡ some (all, 32 ∷ [], at_stream c rest cs'))
      × Patient (n - 4) cs'
word_lem n word rest c e three enough p =
    let (cs, r, q) = receive_front n c word (32 ∷ rest) e (omega (arith, three, enough)) p in
    let q3 = subst (λ k. Patient (n - k) cs) three q in
    let (cs', r', q') =
      receive_front (n - 3) (at_stream c (32 ∷ rest) cs) (32 ∷ []) rest refl (omega (arith, enough))
        q3 in
    (
      cs,
      cs',
      subst (λ k. receive k c ≡ some (all, word, at_stream c (32 ∷ rest) cs)) three r,
      r',
      subst (λ k. Patient k cs') (omega (arith, enough)) q',
    )

get_cmd-get :
    (c c1 c2 : Conn) (bytes : Bytes)
    → receive 3 c ≡ some (all, get_word, c1)
    → receive 1 c1 ≡ some (all, bytes, c2)
    → get_cmd c ≡ some (some get_verb, c2)
unfolding get_cmd skip str_eq c_string
get_cmd-get c c1 c2 bytes r s = rw (r, s, get_cmd) refl

get_cmd-put :
    (c c1 c2 : Conn) (bytes : Bytes)
    → receive 3 c ≡ some (all, put_word, c1)
    → receive 1 c1 ≡ some (all, bytes, c2)
    → get_cmd c ≡ some (some put_verb, c2)
unfolding get_cmd skip str_eq c_string
get_cmd-put c c1 c2 bytes r s = rw (r, s, get_cmd) refl

header_cmd :
    (v : Verb) (c c' : Conn) → get_cmd c ≡ some (some v, c') → process_header c ≡ header_of v c'
unfolding process_header
header_cmd v c c' e = rw (e, process_header) refl

header_plain :
    (c c' : Conn) (name : Bytes)
    → get_file_name 256 [] c ≡ some (some name, c')
    → header_of get_verb c
      ≡ some (some (record { verb = get_verb; file_name = name; file_size = 0 }), c')
unfolding header_of
header_plain c c' name e = rw (e, header_of) refl

header_sized :
    (c c' c'' : Conn) (name : Bytes) (size : ℕ)
    → get_file_name 256 [] c ≡ some (some name, c')
    → get_message_size c' ≡ some (size, c'')
    → header_of put_verb c
      ≡ some (some (record { verb = put_verb; file_name = name; file_size = size }), c'')
unfolding header_of
header_sized c c' c'' name size e s = rw (e, s, header_of) refl

-- The header of a GET is read to its end.
pub header_get :
    (n : ℕ) (name rest : Bytes) (c : Conn)
    → c.socket.stream ≡ get_word ++ 32 ∷ name ++ 10 ∷ rest
    → is_line name ≡ true
    → length name < 255
    → length name + 4 < n
    → Patient n c.socket.choices
    → (cs : List Choice) × (process_header c
        ≡ some (
          some (record { verb = get_verb; file_name = name; file_size = 0 }),
          at_stream c rest cs,
        ))
      × Patient (n - (length name + 5)) cs
header_get n name rest c e line few enough p =
    let (cs, cs1, r, s, q) =
      word_lem n get_word (name ++ 10 ∷ rest) c e refl (omega (arith, enough)) p in
    let c1 = at_stream c (name ++ 10 ∷ rest) cs1 in
    let (cs2, t, q2) =
      get_file_name_lem name [] rest 256 (n - 4) c1 refl line (omega (arith, few))
        (omega (arith, enough)) q in
    let named = t ∙ ap (λ l. some (some l, at_stream c rest cs2)) (c_string-line name line) in
    (
      cs2,
      header_cmd get_verb c c1
            (get_cmd-get c (at_stream c (32 ∷ name ++ 10 ∷ rest) cs) c1 (32 ∷ []) r s)
          ∙ header_plain c1 (at_stream c rest cs2) name named,
      subst (λ k. Patient k cs2) (omega arith) q2,
    )

-- So is that of a PUT, with the size behind it.
pub header_put :
    (n size : ℕ) (name rest : Bytes) (c : Conn)
    → c.socket.stream ≡ put_word ++ 32 ∷ name ++ 10 ∷ (to_bytes 8 size ++ rest)
    → is_line name ≡ true
    → length name < 255
    → size < 2 ^ 64
    → length name + 13 ≤ n
    → Patient n c.socket.choices
    → (cs : List Choice) × (process_header c
        ≡ some (
          some (record { verb = put_verb; file_name = name; file_size = size }),
          at_stream c rest cs,
        ))
      × Patient (n - (length name + 13)) cs
unfolding get_message_size
header_put n size name rest c e line few small enough p =
    let tail_ = to_bytes 8 size ++ rest in
    let (cs, cs1, r, s, q) =
      word_lem n put_word (name ++ 10 ∷ tail_) c e refl (omega (arith, enough)) p in
    let c1 = at_stream c (name ++ 10 ∷ tail_) cs1 in
    let (cs2, t, q2) =
      get_file_name_lem name [] tail_ 256 (n - 4) c1 refl line (omega (arith, few))
        (omega (arith, enough)) q in
    let c2 = at_stream c tail_ cs2 in
    let named = t ∙ ap (λ l. some (some l, c2)) (c_string-line name line) in
    let eight = length-to_bytes 8 size in
    let (cs3, u, q3) =
      receive_front (n - 4 - (length name + 1)) c2 (to_bytes 8 size) rest refl
        (omega (arith, eight, enough)) q2 in
    let u8 =
      subst (λ k. receive k c2 ≡ some (all, to_bytes 8 size, at_stream c rest cs3)) eight u in
    let sized : get_message_size c2 ≡ some (size, at_stream c rest cs3) =
      rw (u8, get_message_size) (ap (λ k. some (k, at_stream c rest cs3)) (of_size size small)) in
    (
      cs3,
      header_cmd put_verb c c1
            (get_cmd-put c (at_stream c (32 ∷ name ++ 10 ∷ tail_) cs) c1 (32 ∷ []) r s)
          ∙ header_sized c1 c2 (at_stream c rest cs3) name size named sized,
      subst (λ k. Patient k cs3) (omega (arith, eight)) q3,
    )
