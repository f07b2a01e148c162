-- ===== src/FileServer/Verbs.antt =====
-- LIST, DELETE and GET of nonstop_networking/server.c.
use cs.Prelude.{
  ℕ, zero, suc, ◌+◌, ◌-◌, ◌*◌, ◌/◌, ◌^◌, ◌≤◌, ◌<◌, ◌≡◌, refl, none, some, List, [], ◌∷◌, ◌++◌, true,
  false, ◌==◌, if◌then◌else◌, length, take, drop, arith, append-nil, append_assoc, take-append-drop,
  length-append, length-drop, ap, ◌∙◌, sym, subst,
}
use cs.Prelude.Chars.{str_eq, str_eq_sound, str_eq_refl}
use cs.FileServer.{
  Bytes, Conn, send, Files, ok_line, error_line, of_bytes, to_bytes, listing, names_size, list,
  erase_name, has_name, delete, send_file, get,
}

pow256 : ℕ → ℕ
pow256 zero = 1
pow256 (suc k) = 256 * pow256 k

-- The size field: eight bytes carry every number below 2 ^ 64.
of_bytes-to_bytes : (k n : ℕ) → n < pow256 k → of_bytes (to_bytes k n) ≡ n
unfolding of_bytes to_bytes pow256
of_bytes-to_bytes zero n h = omega arith
of_bytes-to_bytes (suc k) n h = omega (arith, of_bytes-to_bytes k (n / 256) (omega arith))

pub of_size : (n : ℕ) → n < 2 ^ 64 → of_bytes (to_bytes 8 n) ≡ n
unfolding pow256
of_size n h = of_bytes-to_bytes 8 n h

names_size-listing :
    (n : Bytes) (ns : List Bytes) → names_size (n ∷ ns) ≡ length (listing (n ∷ ns)) + 1
unfolding names_size listing
names_size-listing n [] = omega arith
names_size-listing n (m ∷ ns) =
    omega (arith, names_size-listing m ns, length-append n (10 ∷ listing (m ∷ ns)))

announced :
    (names : List Bytes)
    → (if length names == 0 then 0 else names_size names - 1) ≡ length (listing names)
announced [] = unfold listing in refl
announced (n ∷ ns) =
    let some_name : (length (n ∷ ns) == 0) ≡ false = ground arith in
    rw some_name (omega (arith, names_size-listing n ns))

-- LIST replies with OK, the size of the listing and the listing, and where that size is below 2 ^ 64
-- the client reads it back from the eight bytes.
pub list_lem :
    (f : Files) (c : Conn)
    → length (listing f.names) < 2 ^ 64
    → ((list f c).reply
        ≡ ((c.reply ++ ok_line) ++ to_bytes 8 (length (listing f.names))) ++ listing f.names)
      × (of_bytes (to_bytes 8 (length (listing f.names))) ≡ length (listing f.names))
unfolding list
list_lem f c h = (
  ap (λ n. ((c.reply ++ ok_line) ++ to_bytes 8 n) ++ listing f.names) (announced f.names),
  of_size (length (listing f.names)) h,
)

send_file_lem :
    (fuel : ℕ) (content : Bytes) (c : Conn)
    → length content ≤ fuel
    → send_file fuel content c ≡ send content c
unfolding send_file
send_file_lem zero [] c h = ap (λ r. record c { reply = r }) (sym (append-nil c.reply))
send_file_lem zero (b ∷ bs) c h = elim h [ ]
send_file_lem (suc fuel) [] c h = ap (λ r. record c { reply = r }) (sym (append-nil c.reply))
send_file_lem (suc fuel) (b ∷ bs) c h =
    send_file_lem fuel (drop 1024 (b ∷ bs)) (send (take 1024 (b ∷ bs)) c)
      (omega (arith, length-drop 1024 (b ∷ bs)))
    ∙ ap (λ r. record c { reply = r })
        (append_assoc c.reply (take 1024 (b ∷ bs)) (drop 1024 (b ∷ bs))
          ∙ ap (λ r. c.reply ++ r) (take-append-drop 1024 (b ∷ bs)))

-- GET of a listed file on the disk replies with OK, the size of the file and its bytes, chunk after
-- chunk.
pub get_lem :
    (name : Bytes) (f : Files) (c : Conn) (content : Bytes)
    → has_name name f.names ≡ true
    → f.disk name ≡ some content
    → get name f c ≡ some (send content (send (to_bytes 8 (length content)) (send ok_line c)))
unfolding get
get_lem name f c content listed there =
    rw (listed, there)
      (ap some (
        send_file_lem (length content) content (send (to_bytes 8 (length content)) (send ok_line c))
          (omega arith)))

-- GET of a name that is not listed sends nothing at all, not even an error.
pub get_missing :
    (name : Bytes) (f : Files) (c : Conn) → has_name name f.names ≡ false → get name f c ≡ some c
unfolding get
get_missing name f c lost = rw lost

-- how often a name is listed
unfoldable pub count_name : Bytes → List Bytes → ℕ
count_name name [] = 0
count_name name (n ∷ ns) = (if str_eq name n then 1 else 0) + count_name name ns

count-erase :
    (name : Bytes) (ns : List Bytes)
    → count_name name ns
      ≡ count_name name (erase_name name ns) + (if has_name name ns then 1 else 0)
unfolding count_name erase_name has_name
count-erase name [] = refl
count-erase name (n ∷ ns) = ground (arith, count-erase name ns)

str_eq_ne : (a b c : Bytes) → str_eq a b ≡ false → str_eq b c ≡ true → str_eq a c ≡ false
str_eq_ne a b c ne same = subst (λ t. str_eq a t ≡ false) (str_eq_sound b c same) ne

count-erase_ne :
    (other name : Bytes) (ns : List Bytes)
    → str_eq other name ≡ false
    → count_name other (erase_name name ns) ≡ count_name other ns
unfolding count_name erase_name
count-erase_ne other name [] h = refl
count-erase_ne other name (n ∷ ns) h =
    ground (arith, count-erase_ne other name ns, str_eq_ne other name n)

pub delete_lem :
    (no_such_file bad_size name : Bytes) (f : Files) (c : Conn)
    → has_name name f.names ≡ true
    → let (g, d) = delete no_such_file bad_size name f c in
      (d.reply ≡ c.reply ++ ok_line)
      × (g.disk name ≡ none)
      × (count_name name f.names ≡ count_name name g.names + 1)
      × ((other : Bytes)
          → str_eq other name ≡ false
          → (g.disk other ≡ f.disk other) × (count_name other g.names ≡ count_name other f.names))
unfolding delete
delete_lem no_such_file bad_size name f c listed = rw listed (
  refl,
  rw (str_eq_refl name),
  rw listed at (count-erase name f.names),
  λ other ne. (rw ne, count-erase_ne other name f.names ne),
)

-- DELETE of a name that is not listed replies with the error and changes no file.
pub delete_missing :
    (no_such_file bad_size name : Bytes) (f : Files) (c : Conn)
    → has_name name f.names ≡ false
    → let (g, d) = delete no_such_file bad_size name f c in
      (g ≡ f) × (d.reply ≡ (c.reply ++ error_line) ++ no_such_file)
unfolding delete
delete_missing no_such_file bad_size name f c lost = rw lost (refl, refl)
