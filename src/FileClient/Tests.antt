-- ===== src/FileClient/Tests.antt =====
-- nonstop_networking/client.c: a file of three bytes goes from one client to another.
use cs.Prelude.{
  true, ◌≡◌, refl, none, some, List, [], ◌∷◌, ◌++◌, if◌then◌else◌, replicate, arith, false,
}
use cs.Prelude.Chars.{str_eq}
use cs.Socket.{Choice, upto}
use cs.FileServer.{Bytes, Conn, Files, get_verb, put_verb, ok_line, c_string, to_bytes}
use cs.FileServer.Serve.{serve}
use cs.FileClient.{Client, text, invalid_response, message, put, get}
use cs.FileClient.Download.{download_lem}
use cs.FileClient.Exchange.{put_silence}
use cs.FileClient.Copies.{over, upload-download}

abbrev choices : List Choice
choices = upto 1 ∷ upto 0 ∷ replicate 19 (upto 2)

abbrev content : Bytes
content = 5 ∷ 6 ∷ 7 ∷ []

abbrev name : Bytes
name = 97 ∷ []

abbrev local : Bytes
local = 98 ∷ []

abbrev no_files : Files
no_files = record { names = []; disk = λ other. none; opens = λ other. true }

abbrev sender : Client
sender = record {
  conn = over [] choices;
  disk = λ other. if str_eq other local then some content else none;
  events = [];
}

abbrev receiver : Client
receiver = record {
  conn = over (ok_line ++ (to_bytes 8 3 ++ content)) choices;
  disk = λ other. none;
  events = [];
}

upload-download_example :
    (a' b' : Client) × (g : Files) × (c d : Conn) × (put name local sender ≡ some a')
    × (serve [] [] [] no_files (over a'.conn.reply choices) ≡ some (g, c))
    × (serve [] [] [] g (over b'.conn.reply choices) ≡ some (g, d))
    × (get name local (record receiver { conn = over d.reply choices }) ≡ some b')
    × (b'.disk local ≡ some content)
unfolding c_string str_eq
upload-download_example =
    upload-download [] [] [] 19 name local local content no_files sender receiver choices choices
      choices (refl, refl) refl (omega arith) refl (omega arith) (omega arith) refl refl refl refl
      refl

download_lem_example :
    (d : Client) × (get name local receiver ≡ some d)
    × (d.disk local ≡ some content)
    × ((other : Bytes) → str_eq other local ≡ false → d.disk other ≡ none)
    × (d.conn.reply ≡ c_string (message get_verb name))
    × (d.events ≡ [])
unfolding c_string str_eq
download_lem_example =
    download_lem 19 name local content receiver refl refl (omega arith) (omega arith) refl

put_silence_example :
    (d : Client) × (put name local sender ≡ some d)
    × (d.conn.reply ≡ c_string (message put_verb name) ++ (to_bytes 8 3 ++ content))
    × (d.events ≡ text [] ∷ invalid_response ∷ [])
unfolding c_string str_eq
put_silence_example = put_silence 19 name local content sender refl refl (omega arith) refl
