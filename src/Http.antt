-- ===== src/Http.antt =====
-- What the code uses of package `net/http`: headers, the server's `ResponseWriter`, requests,
-- contexts and handlers. A handler works on any writer, so that a middleware can wrap the writer.
pub mod HeaderMap
pub mod Ctx
pub mod Server
use core_shared.Base.{
  ℕ, Text, codes, Bool, true, false, Option, none, some, List, [], ◌∷◌, ◌++◌, ◌==◌, ltb, leb, ◌&&◌,
  ◌||◌, not, length, if◌then◌else◌,
}
use HeaderMap.{Headers, header_set}
use Ctx.{Context, Attr}

pub data Level : Type 0 where
  debug info warn error : Level

-- A record that a logger emits: its level, its message, and the attributes, those of the logger
-- first.
pub record LogRecord : Type 0 where
  pub level : Level
  pub message : Text
  pub attrs : List Attr

-- How a call of a handler, or of a method that may panic, ends.
pub data Exit : Type 0 where
  returned : Exit
  panicked : Text → Exit

-- A `ResponseWriter` over a state `S`, and the sink of the loggers. `write` returns the number of
-- bytes written.
pub record Writer (S : Type 0) : Type 0 where
  pub set_header : Text → Text → S → S
  pub write_header : ℕ → S → S × Exit
  pub write : Text → S → S × ℕ
  pub log : LogRecord → S → S

-- The server's own writer: the final status once it is written, the informational ones, the body,
-- and what was logged.
pub record Conn : Type 0 where
  pub headers : Headers
  pub status : Option ℕ
  pub interim : List ℕ
  pub body : Text
  pub logs : List LogRecord

abbrev pub new_conn : Conn
new_conn = record { headers = []; status = none; interim = []; body = []; logs = [] }

abbrev is_valid_status : ℕ → Bool
is_valid_status code = leb 100 code && leb code 999

abbrev is_interim : ℕ → Bool
is_interim code = leb 100 code && leb code 199 && not (code == 101)

-- A second final status is dropped; a status outside 100..999 panics; 1xx but 101 is sent at
-- once and is not the final status.
unfoldable pub conn_write_header : ℕ → Conn → Conn × Exit
conn_write_header code c = elim c.status [
  | some old ↦ (c, returned)
  | none ↦
      if not (is_valid_status code)
      then (c, panicked (codes "invalid WriteHeader code"))
      else if is_interim code
      then (record c { interim = c.interim ++ code ∷ [] }, returned)
      else (record c { status = some code }, returned)
]

-- The first write sends status 200 if none was sent; 101, 204 and 304 take no body.
abbrev pub with_status : Conn → ℕ
with_status c = elim c.status [ some code ↦ code | none ↦ 200 ]

abbrev pub allows_body : ℕ → Bool
allows_body code = not (leb 100 code && leb code 199 || code == 204 || code == 304)

unfoldable pub conn_write : Text → Conn → Conn × ℕ
conn_write bytes c =
    if allows_body (with_status c)
    then (record c { status = some (with_status c); body = c.body ++ bytes }, length bytes)
    else (record c { status = some (with_status c) }, 0)

unfoldable pub server : Writer Conn
server = record {
  set_header = λ k v c. record c { headers = header_set k v c.headers };
  write_header = conn_write_header;
  write = conn_write;
  log = λ r c. record c { logs = c.logs ++ r ∷ [] };
}

pub record Request : Type 0 where
  pub method : Text
  pub path : Text
  pub headers : Headers
  pub remote_addr : Text
  pub user_agent : Text
  pub context : Context

abbrev pub with_context : Request → Context → Request
with_context r ctx = record r { context = ctx }

abbrev pub Handler : Type 1
Handler = (S : Type 0) → Writer S → Request → S → S × Exit

-- What a handler does to its writer in one run: any sequence of calls, and how it ends.
pub data Call : Type 0 where
  set_header : Text → Text → Call
  write_header : ℕ → Call
  write : Text → Call
  log : LogRecord → Call

-- The run stops at a call that panics.
unfoldable pub play_on : (S : Type 0) → Writer S → List Call → Exit → S → S × Exit
play_on S w [] end s = (s, end)
play_on S w (set_header k v ∷ cs) end s = play_on S w cs end (w.set_header k v s)
play_on S w (write_header code ∷ cs) end s =
    let (s', exit) = w.write_header code s in
    elim exit [ returned ↦ play_on S w cs end s' | panicked m ↦ (s', panicked m) ]
play_on S w (write bytes ∷ cs) end s = play_on S w cs end (w.write bytes s).0
play_on S w (log r ∷ cs) end s = play_on S w cs end (w.log r s)

-- The handler whose run on a request makes the calls that the script gives.
abbrev pub play : (Request → List Call × Exit) → Handler
play script S w r s = play_on S w (script r).0 (script r).1 s
