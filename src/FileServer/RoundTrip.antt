-- ===== src/FileServer/RoundTrip.antt =====
-- PUT of nonstop_networking/server.c, and GET of what was put.
use cs.Prelude.{
  ℕ, zero, suc, Bool, not, ◌&&◌, ◌+◌, ◌-◌, ◌≤◌, ◌<◌, ◌≡◌, refl, min, none, some, Option, ◌>>=◌,
  if◌then◌else◌, List, [], ◌∷◌, ◌++◌, true, false, ◌==◌, length, take, drop, arith, append-nil,
  append_assoc, ap, ◌∙◌, sym, subst, length-take, length-drop, take-take-drop, drop-drop, take-all,
  drop-all,
}
use cs.Prelude.Chars.{str_eq, str_eq_refl}
use cs.Socket.{Choice, all, ended}
use cs.Socket.Reads.{Patient, Patient-mono, read_all_lem, read_all_ends}
use cs.FileServer.{
  Bytes, Conn, send, Files, write_file, ok_line, error_line, to_bytes, receive, Request, has_name,
  put_loop, finish, refuse, put, get,
}
use cs.FileServer.Verbs.{get_lem}

abbrev pub at_stream : Conn → Bytes → List Choice → Conn
at_stream c stream choices = record c { socket = record { stream = stream; choices = choices } }

pub receive_all :
    (n count : ℕ) (c : Conn)
    → count ≤ length c.socket.stream
    → count ≤ n
    → Patient n c.socket.choices
    → (cs : List Choice) × (receive count c
        ≡ some (all, take count c.socket.stream, at_stream c (drop count c.socket.stream) cs))
      × Patient (n - count) cs
unfolding receive
receive_all n count c h g p = let (cs, r, q) = read_all_lem n count c.socket h g p in (cs, rw r, q)

receive_ends :
    (n count : ℕ) (c : Conn)
    → length c.socket.stream < count
    → length c.socket.stream < n
    → Patient n c.socket.choices
    → (cs : List Choice) × (receive count c ≡ some (ended, c.socket.stream, at_stream c [] cs))
unfolding receive
receive_ends n count c h g p = let (cs, r) = read_all_ends n count c.socket h g p in (cs, rw r)

abbrev pub no_slash : Bytes → Bool
no_slash [] = true
no_slash (c ∷ cs) = not (c == 47) && no_slash cs

-- The name is that of a file in the server's directory that `open` can write.
abbrev pub IsEntry : Files → Bytes → Type 0
IsEntry f name = (no_slash name ≡ true) × (f.opens name ≡ true)

module _ (no_such_file bad_size : Bytes) where
  put_step :
      (fuel left k : ℕ) (written bytes : Bytes) (c d : Conn)
      → k ≡ min 1024 (suc left)
      → receive k c ≡ some (all, bytes, d)
      → length bytes ≡ k
      → put_loop no_such_file bad_size true (suc fuel) (suc left) written c
        ≡ put_loop no_such_file bad_size true fuel (suc left - k) (written ++ bytes) d
  unfolding put_loop
  put_step fuel left k written bytes c d e r size =
      let wanted : (suc left == 0) ≡ false = ground arith in
      let r' = subst (λ m. receive m c ≡ some (all, bytes, d)) e r in
      rw (wanted, r')
        (ap (λ m. put_loop no_such_file bad_size true fuel (suc left - m) (written ++ bytes) d)
          size)

  put_loop_lem :
      (fuel n left : ℕ) (written : Bytes) (c : Conn)
      → left ≤ length c.socket.stream
      → left ≤ n
      → left < fuel
      → Patient n c.socket.choices
      → (cs : List Choice) × (put_loop no_such_file bad_size true fuel left written c
          ≡ some (
            true,
            written ++ take left c.socket.stream,
            at_stream c (drop left c.socket.stream) cs,
          ))
        × Patient (n - left) cs
  unfolding put_loop
  put_loop_lem zero n left written c h g e p = elim e [ ]
  put_loop_lem (suc fuel) n zero written c h g e p = (
    c.socket.choices,
    ap (λ w. some (true, w, c)) (sym (append-nil written)),
    Patient-mono (n - 0) n c.socket.choices (omega arith) p,
  )
  put_loop_lem (suc fuel) n (suc left) written c h g e p =
      let stream = c.socket.stream in
      let k = min 1024 (suc left) in
      let (cs, r, q) = receive_all n k c (omega arith) (omega arith) p in
      let size : length (take k stream) ≡ k = omega (arith, length-take k stream) in
      let (ds, r', q') =
        put_loop_lem fuel (n - k) (suc left - k) (written ++ take k stream)
          (at_stream c (drop k stream) cs) (omega (arith, length-drop k stream)) (omega arith)
          (omega arith) q in
      let whole : k + (suc left - k) ≡ suc left = omega arith in
      (
        ds,
        put_step fuel left k written (take k stream) c (at_stream c (drop k stream) cs) refl r size
            ∙ r'
            ∙ ap (λ w. some (true, w, at_stream c (drop (suc left - k) (drop k stream)) ds))
                (append_assoc written (take k stream) (take (suc left - k) (drop k stream))
                  ∙ ap (λ w. written ++ w)
                      (take-take-drop k (suc left - k) stream ∙ ap (λ m. take m stream) whole))
            ∙ ap (λ t. some (true, written ++ take (suc left) stream, at_stream c t ds))
                (drop-drop k (suc left - k) stream ∙ ap (λ m. drop m stream) whole),
        Patient-mono (n - suc left) (n - k - (suc left - k)) ds (omega arith) q',
      )

  finish_ended :
      (name content bytes : Bytes) (f : Files) (c d : Conn)
      → f.opens name ≡ true
      → receive 1 c ≡ some (ended, bytes, d)
      → finish no_such_file bad_size name content f c
        ≡ some (record (write_file name (some content) f) { names = f.names ++ (name ∷ []) }, d)
  unfolding finish
  finish_ended name content bytes f c d opened e =
      rw (e, finish)
        (ap
          (λ b.
            let stored = if b then write_file name (some content) f else f in
            some (record stored { names = f.names ++ (name ∷ []) }, d))
          opened)

  put_whole :
      (r : Request) (f : Files) (content : Bytes) (c d : Conn)
      → f.opens r.file_name ≡ true
      → put_loop no_such_file bad_size true (r.file_size + 1) r.file_size [] c
        ≡ some (true, content, d)
      → put no_such_file bad_size r f c ≡ finish no_such_file bad_size r.file_name content f d
  unfolding put
  put_whole r f content c d opened e =
      ap
        (λ b. put_loop no_such_file bad_size b (r.file_size + 1) r.file_size [] c >>= λ x.
          if x.0
          then finish no_such_file bad_size r.file_name x.1 f x.2
          else some (refuse no_such_file bad_size r.file_name f x.2))
        opened
      ∙ ap
          (λ (o : Option (Bool × Bytes × Conn)). o >>= λ x.
            if x.0
            then finish no_such_file bad_size r.file_name x.1 f x.2
            else some (refuse no_such_file bad_size r.file_name f x.2))
          e

  -- A PUT under a name without a slash whose file can be opened, with a body of exactly the announced
  -- size, however the network cuts it, on a connection whose calls go on long enough without an error,
  -- stores the body under the name, puts the name behind the others, sends no reply, and leaves every
  -- other file with a name without a slash.
  pub put_lem :
      (n : ℕ) (r : Request) (f : Files) (c : Conn)
      → length c.socket.stream ≡ r.file_size
      → r.file_size < n
      → IsEntry f r.file_name
      → Patient n c.socket.choices
      → (g : Files) × (d : Conn) × (put no_such_file bad_size r f c ≡ some (g, d))
        × (d.reply ≡ c.reply)
        × (g.names ≡ f.names ++ (r.file_name ∷ []))
        × (g.disk r.file_name ≡ some c.socket.stream)
        × ((other : Bytes)
            → no_slash other ≡ true
            → str_eq other r.file_name ≡ false
            → g.disk other ≡ f.disk other)
  unfolding put finish
  put_lem n r f c exact enough entry p =
      let (cs, e, q) =
        put_loop_lem (r.file_size + 1) n r.file_size [] c (omega arith) (omega arith) (omega arith)
          p in
      let e' : put_loop no_such_file bad_size true (r.file_size + 1) r.file_size [] c
          ≡ some (true, c.socket.stream, at_stream c [] cs) =
        e
        ∙ ap (λ w. some (true, w, at_stream c (drop r.file_size c.socket.stream) cs))
            (take-all r.file_size c.socket.stream (omega arith))
        ∙ ap (λ t. some (true, c.socket.stream, at_stream c t cs))
            (drop-all r.file_size c.socket.stream (omega arith)) in
      let (ds, e'') =
        receive_ends (n - r.file_size) 1 (at_stream c [] cs) (omega arith) (omega arith) q in
      (
        record (write_file r.file_name (some c.socket.stream) f) {
          names = f.names ++ (r.file_name ∷ []);
        },
        at_stream c [] ds,
        put_whole r f c.socket.stream c (at_stream c [] cs) entry.1 e'
            ∙ finish_ended r.file_name c.socket.stream [] f (at_stream c [] cs) (at_stream c [] ds)
                entry.1 e'',
        refl,
        refl,
        rw (str_eq_refl r.file_name),
        λ other plain ne. rw ne,
      )

  -- A PUT that is followed by at least one byte more than announced, on a connection whose calls go
  -- on long enough without an error, is refused: the error goes to the client, the names stay, and
  -- no file stands under the name.
  put_too_much :
      (n : ℕ) (r : Request) (f : Files) (c : Conn)
      → r.file_size < length c.socket.stream
      → r.file_size < n
      → IsEntry f r.file_name
      → Patient n c.socket.choices
      → (g : Files) × (d : Conn) × (put no_such_file bad_size r f c ≡ some (g, d))
        × (d.reply ≡ (c.reply ++ error_line) ++ bad_size)
        × (g.names ≡ f.names)
        × (g.disk r.file_name ≡ none)
  unfolding put finish refuse
  put_too_much n r f c more enough entry p =
      let (cs, e, q) =
        put_loop_lem (r.file_size + 1) n r.file_size [] c (omega arith) (omega arith) (omega arith)
          p in
      let rest = drop r.file_size c.socket.stream in
      let (ds, e', q') =
        receive_all (n - r.file_size) 1 (at_stream c rest cs)
          (omega (arith, length-drop r.file_size c.socket.stream)) (omega arith) q in
      (
        write_file r.file_name none f,
        send bad_size (send error_line (at_stream c (drop 1 rest) ds)),
        rw (entry.1, e, e'),
        refl,
        refl,
        rw (str_eq_refl r.file_name),
      )

  pub has_name-snoc : (name : Bytes) (ns : List Bytes) → has_name name (ns ++ (name ∷ [])) ≡ true
  unfolding has_name
  has_name-snoc name [] = rw (str_eq_refl name)
  has_name-snoc name (m ∷ ns) = ground (arith, has_name-snoc name ns)

  -- What one client has put, the next client gets: after a PUT whose body has exactly the announced
  -- size, on a connection whose calls go on long enough without an error, the reply to a GET of the
  -- name is OK, the size and exactly the bytes of the PUT.
  put-get :
      (n : ℕ) (r : Request) (f : Files) (c d : Conn)
      → length c.socket.stream ≡ r.file_size
      → r.file_size < n
      → IsEntry f r.file_name
      → Patient n c.socket.choices
      → (g : Files) × (c' : Conn) × (put no_such_file bad_size r f c ≡ some (g, c'))
        × (get r.file_name g d
            ≡ some (
                send c.socket.stream (send (to_bytes 8 (length c.socket.stream)) (send ok_line d))))
  put-get n r f c d exact enough entry p =
      let (g, c', e, reply, names, content, others) = put_lem n r f c exact enough entry p in
      let listed : has_name r.file_name g.names ≡ true =
        subst (λ ns. has_name r.file_name ns ≡ true) (sym names)
          (has_name-snoc r.file_name f.names) in
      (g, c', e, get_lem r.file_name g d c.socket.stream listed content)
