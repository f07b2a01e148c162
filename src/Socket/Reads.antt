-- ===== src/Socket/Reads.antt =====
-- The loops of nonstop_networking/server.c: what a completed call has moved.
use cs.Prelude.{
  ℕ, zero, suc, ◌+◌, ◌-◌, ◌≤◌, ◌<◌, ◌≡◌, refl, some, List, [], ◌∷◌, ◌++◌, take, drop, length, ◌==◌,
  arith, true, false, append-nil, append_assoc, ap, ◌∙◌, sym, take-append-drop, take-take-drop,
  drop-drop, empty, length-drop,
}
use cs.Socket.{
  Choice, upto, interrupted, failed, Socket, all, ended, chunk, got, read_loop, read_all, wrote,
  write_all,
}

-- The bytes wanted are there: the choices move at least `n` bytes one by one, and none is an error.
abbrev pub Patient : ℕ → List Choice → Type 0
Patient n [] = n ≡ 0
Patient n (upto k ∷ cs) = Patient (n - 1) cs
Patient n (interrupted ∷ cs) = Patient n cs
Patient n (failed ∷ cs) = ⊥

pub Patient-mono : (m n : ℕ) (cs : List Choice) → m ≤ n → Patient n cs → Patient m cs
Patient-mono m n [] h p = omega arith
Patient-mono m n (upto k ∷ cs) h p = Patient-mono (m - 1) (n - 1) cs (omega arith) p
Patient-mono m n (interrupted ∷ cs) h p = Patient-mono m n cs h p
Patient-mono m n (failed ∷ cs) h p = p

-- `read_loop` with `bytes` read and `left` wanted, where the stream has them.
read_loop_lem :
    (cs : List Choice) (n left : ℕ) (bytes stream : List ℕ)
    → left ≤ length stream
    → left ≤ n
    → Patient n cs
    → (cs' : List Choice) × (read_loop left bytes stream cs
        ≡ some (got (bytes ++ take left stream) (drop left stream) cs' all))
      × Patient (n - left) cs'
unfolding read_loop
read_loop_lem cs n zero bytes stream h g p = (
  cs,
  stop cs ∙ ap (λ b. some (got b stream cs all)) (sym (append-nil bytes)),
  Patient-mono (n - 0) n cs (omega arith) p,
)
  where
    stop : (ds : List Choice) → read_loop 0 bytes stream ds ≡ some (got bytes stream ds all)
    stop [] = refl
    stop (upto k ∷ ds) = refl
    stop (interrupted ∷ ds) = refl
    stop (failed ∷ ds) = refl
read_loop_lem [] n (suc left) bytes stream h g p = absurd (omega arith)
read_loop_lem (failed ∷ cs) n (suc left) bytes stream h g p = absurd p
read_loop_lem (interrupted ∷ cs) n (suc left) bytes stream h g p =
    let wanted : (suc left == 0) ≡ false = ground arith in
    let (ds, r, q) = read_loop_lem cs n (suc left) bytes stream h g p in (ds, rw wanted r, q)
read_loop_lem (upto k ∷ cs) n (suc left) bytes stream h g p =
    let c = chunk k (suc left) stream in
    let wanted : (suc left == 0) ≡ false = ground arith in
    let moves : (c == 0) ≡ false = ground arith in
    let (ds, r, q) =
      read_loop_lem cs (n - c) (suc left - c) (bytes ++ take c stream) (drop c stream)
        (omega (arith, length-drop c stream)) (omega arith)
        (Patient-mono (n - c) (n - 1) cs (omega arith) p) in
    let whole : c + (suc left - c) ≡ suc left = omega arith in
    (
      ds,
      rw (wanted, moves)
          (r
            ∙ ap (λ b. some (got b (drop (suc left - c) (drop c stream)) ds all))
                (append_assoc bytes (take c stream) (take (suc left - c) (drop c stream))
                  ∙ ap (λ b. bytes ++ b)
                      (take-take-drop c (suc left - c) stream ∙ ap (λ m. take m stream) whole))
            ∙ ap (λ t. some (got (bytes ++ take (suc left) stream) t ds all))
                (drop-drop c (suc left - c) stream ∙ ap (λ m. drop m stream) whole)),
      Patient-mono (n - suc left) (n - c - (suc left - c)) ds (omega arith) q,
    )

-- However the system cuts the stream into chunks, and however often it interrupts: where the stream
-- has the bytes wanted and the calls go on long enough without an error, `read_all_from_socket`
-- returns exactly those bytes in order and leaves the rest of the stream unread.
pub read_all_lem :
    (n count : ℕ) (s : Socket)
    → count ≤ length s.stream
    → count ≤ n
    → Patient n s.choices
    → (cs : List Choice) × (read_all count s
        ≡ some (got (take count s.stream) (drop count s.stream) cs all))
      × Patient (n - count) cs
unfolding read_all
read_all_lem n count s h g p = read_loop_lem s.choices n count [] s.stream h g p

read_loop_ends :
    (cs : List Choice) (n left : ℕ) (bytes stream : List ℕ)
    → length stream < left
    → length stream < n
    → Patient n cs
    → (cs' : List Choice) × (read_loop left bytes stream cs
        ≡ some (got (bytes ++ stream) [] cs' ended))
unfolding read_loop
read_loop_ends [] n left bytes stream h g p = absurd (omega arith)
read_loop_ends (failed ∷ cs) n left bytes stream h g p = absurd p
read_loop_ends (interrupted ∷ cs) n left bytes stream h g p =
    let wanted : (left == 0) ≡ false = ground arith in
    let (ds, r) = read_loop_ends cs n left bytes stream h g p in (ds, rw wanted r)
read_loop_ends (upto k ∷ cs) n left bytes [] h g p =
    let wanted : (left == 0) ≡ false = ground arith in
    let nothing : (chunk k left (empty ℕ) == 0) ≡ true = ground arith in
    (cs, rw (wanted, nothing) (ap (λ b. some (got b [] cs ended)) (sym (append-nil bytes))))
read_loop_ends (upto k ∷ cs) n left bytes (b ∷ stream) h g p =
    let wanted : (left == 0) ≡ false = ground arith in
    let c = chunk k left (b ∷ stream) in
    let moves : (c == 0) ≡ false = ground arith in
    let (ds, r) =
      read_loop_ends cs (n - 1) (left - c) (bytes ++ take c (b ∷ stream)) (drop c (b ∷ stream))
        (omega (arith, length-drop c (b ∷ stream))) (omega (arith, length-drop c (b ∷ stream))) p in
    (
      ds,
      rw (wanted, moves)
          (r
            ∙ ap (λ t. some (got t [] ds ended))
                (append_assoc bytes (take c (b ∷ stream)) (drop c (b ∷ stream))
                  ∙ ap (λ t. bytes ++ t) (take-append-drop c (b ∷ stream)))),
    )

-- Where the stream ends before `count` bytes, `read_all_from_socket` says so; the bytes that it had
-- are in the buffer.
pub read_all_ends :
    (n count : ℕ) (s : Socket)
    → length s.stream < count
    → length s.stream < n
    → Patient n s.choices
    → (cs : List Choice) × (read_all count s ≡ some (got s.stream [] cs ended))
unfolding read_all
read_all_ends n count s h g p = read_loop_ends s.choices n count [] s.stream h g p

-- With enough calls and no error, `write_all_to_socket` gives the peer exactly the message.
pub write_all_lem :
    (cs : List Choice) (message sent : List ℕ)
    → Patient (length message) cs
    → (cs' : List Choice) × (write_all message sent cs ≡ some (wrote (sent ++ message) cs' all))
unfolding write_all
write_all_lem cs [] sent p = (cs, ap (λ s. some (wrote s cs all)) (sym (append-nil sent)))
write_all_lem [] (b ∷ left) sent p = absurd (omega arith)
write_all_lem (failed ∷ cs) (b ∷ left) sent p = absurd p
write_all_lem (interrupted ∷ cs) (b ∷ left) sent p = write_all_lem cs (b ∷ left) sent p
write_all_lem (upto k ∷ cs) (b ∷ left) sent p =
    let (ds, r) = write_all_lem cs (drop k left) (sent ++ (b ∷ take k left)) (
      Patient-mono (length (drop k left)) (suc (length left) - 1) cs
        (omega (arith, length-drop k left)) p) in
    (
      ds,
      r
          ∙ ap (λ s. some (wrote s ds all))
              (append_assoc sent (b ∷ take k left) (drop k left)
                ∙ ap (λ s. sent ++ (b ∷ s)) (take-append-drop k left)),
    )
