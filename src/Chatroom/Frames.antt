-- ===== src/Chatroom/Frames.antt =====
-- The messages of charming_chatroom/utils.c on a stream.
use cs.Prelude.{
  ℕ, ◌-◌, ◌^◌, ◌≤◌, ◌<◌, ◌≡◌, refl, none, some, List, [], ◌∷◌, ◌++◌, true, false, ◌==◌, length,
  take, drop, arith, ap, subst, ◌∙◌, length-append,
}
use cs.Socket.{Socket, Choice, all, got, read_retry}
use cs.Socket.Reads.{Patient, read_all_lem}
use cs.Socket.Retry.{read_retry-read_all, read_retry_end}
use cs.FileServer.{Bytes}
use cs.Chatroom.{htonl, ntohl, get_message_size, next_message}

-- a message as it stands on a stream
abbrev pub frame : Bytes → Bytes
frame m = htonl (length m) ++ m

abbrev pub frames : List Bytes → Bytes
frames [] = []
frames (m ∷ ms) = frame m ++ frames ms

-- The size of each message is one that its four bytes can carry.
abbrev pub AllSized : List Bytes → Type 0
AllSized [] = true ≡ true
AllSized (m ∷ ms) = (0 < length m) × (length m < 2 ^ 32) × AllSized ms

abbrev pub socket : Bytes → List Choice → Socket
socket stream choices = record { stream = stream; choices = choices }

pub ntohl-htonl : (n : ℕ) → n < 2 ^ 32 → ntohl (htonl n) ≡ n
unfolding ntohl htonl
ntohl-htonl n h = omega (arith, h)

take-front : (s rest : Bytes) → take (length s) (s ++ rest) ≡ s
take-front [] rest = refl
take-front (b ∷ bs) rest = ap (λ l. b ∷ l) (take-front bs rest)

drop-front : (s rest : Bytes) → drop (length s) (s ++ rest) ≡ rest
drop-front [] rest = refl
drop-front (b ∷ bs) rest = drop-front bs rest

read_front :
    (n : ℕ) (front rest : Bytes) (cs : List Choice)
    → length front ≤ n
    → Patient n cs
    → (ds : List Choice) × (read_retry (length front) [] (front ++ rest) cs
        ≡ some (got front rest ds all))
      × Patient (n - length front) ds
read_front n front rest cs enough p =
    let s = socket (front ++ rest) cs in
    let whole = length-append front rest in
    let (ds, r, q) = read_all_lem n (length front) s (omega (arith, whole)) enough p in
    (
      ds,
      read_retry-read_all n (length front) s p
          ∙ r
          ∙ ap (λ b. some (got b (drop (length front) (front ++ rest)) ds all))
              (take-front front rest)
          ∙ ap (λ l. some (got front l ds all)) (drop-front front rest),
      q,
    )

size_front :
    (n size : ℕ) (rest : Bytes) (cs : List Choice)
    → size < 2 ^ 32
    → 4 ≤ n
    → Patient n cs
    → (ds : List Choice) × (get_message_size (socket (htonl size ++ rest) cs)
        ≡ some (size, socket rest ds))
      × Patient (n - 4) ds
unfolding get_message_size htonl
size_front n size rest cs small enough p =
    let (ds, r, q) = read_front n (htonl size) rest cs enough p in
    (ds, rw r (ap (λ k. some (k, socket rest ds)) (ntohl-htonl size small)), q)

-- The message in front of the stream is read whole.
pub next_message-frame :
    (n : ℕ) (m rest : Bytes) (cs : List Choice)
    → 0 < length m
    → length m < 2 ^ 32
    → length (frame m) ≤ n
    → Patient n cs
    → (ds : List Choice) × (next_message (socket (frame m ++ rest) cs)
        ≡ some (some m, socket rest ds))
      × Patient (n - length (frame m)) ds
unfolding next_message htonl
next_message-frame n m rest cs some_bytes small enough p =
    let (ds, r, q) = size_front n (length m) (m ++ rest) cs small (omega (arith, enough)) p in
    let (es, r', q') = read_front (n - 4) m rest ds (omega (arith, enough)) q in
    let more : (length m == 0) ≡ false = ground arith in
    (es, rw (r, more, r', next_message) refl, subst (λ k. Patient k es) (omega arith) q')

-- There is no message at the end of the stream.
pub next_message_end :
    (n : ℕ) (cs : List Choice)
    → 0 < n
    → Patient n cs
    → (ds : List Choice) × (next_message (socket [] cs) ≡ some (none, socket [] ds))
unfolding next_message get_message_size
next_message_end n cs more p =
    let (ds, r, q) = read_retry_end cs n 4 [] (omega arith) more p in
    (ds, rw (r, next_message) refl)
