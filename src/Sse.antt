-- ===== src/Sse.antt =====
-- pkg/vuhive/http/sse.go: the decoder of server-sent events, SSEStream.Next with dispatch, and the
-- loop of Events. Text is a list of bytes. What ReadString of the buffered reader and Err of the
-- context return is an input; strconv.Atoi is a parameter, and the latencies are left out.
pub mod Lines
pub mod Frames
pub mod Reading
pub mod Decoding
mod Tests
use vuhive.Prelude.{
  ℕ, zero, suc, List, [], ◌∷◌, ◌++◌, Option, none, some, Bool, true, false, ◌&&◌, ◌||◌, ℤ, pos,
  if◌then◌else◌, ◌==◌,
}

abbrev pub Bytes : Type 0
Bytes = List ℕ

-- The bytes of ":", " ", "\n" and "\r".
abbrev pub colon : ℕ
colon = 58

abbrev pub space : ℕ
space = 32

abbrev pub line_feed : ℕ
line_feed = 10

abbrev pub carriage_return : ℕ
carriage_return = 13

-- "event", "data", "id", "retry" and "message".
abbrev pub event_field : Bytes
event_field = 101 ∷ 118 ∷ 101 ∷ 110 ∷ 116 ∷ []

abbrev pub data_field : Bytes
data_field = 100 ∷ 97 ∷ 116 ∷ 97 ∷ []

abbrev pub id_field : Bytes
id_field = 105 ∷ 100 ∷ []

abbrev pub retry_field : Bytes
retry_field = 114 ∷ 101 ∷ 116 ∷ 114 ∷ 121 ∷ []

abbrev pub message_type : Bytes
message_type = 109 ∷ 101 ∷ 115 ∷ 115 ∷ 97 ∷ 103 ∷ 101 ∷ []

abbrev pub is_nil : Bytes → Bool
is_nil [] = true
is_nil (b ∷ bs) = false

-- Equality of texts.
abbrev pub same : Bytes → Bytes → Bool
same [] [] = true
same [] (b ∷ bs) = false
same (a ∷ as') [] = false
same (a ∷ as') (b ∷ bs) = (a == b) && same as' bs

abbrev pub is_line_end : ℕ → Bool
is_line_end b = (b == line_feed) || (b == carriage_return)

-- A byte before a text from which the line ends on the right are cut.
abbrev pub kept : ℕ → Bytes → Bytes
kept b [] = if is_line_end b then [] else b ∷ []
kept b (c ∷ cs) = b ∷ c ∷ cs

-- strings.TrimRight with the cut set "\r\n".
unfoldable pub trim_right : Bytes → Bytes
trim_right [] = []
trim_right (b ∷ bs) = kept b (trim_right bs)

-- strings.TrimPrefix with one space.
abbrev pub trim_space : Bytes → Bytes
trim_space [] = []
trim_space (b ∷ bs) = if b == space then bs else b ∷ bs

-- A line's field and value, on both sides of its first colon.
unfoldable pub split_field : Bytes → Bytes × Bytes
split_field [] = ([], [])
split_field (b ∷ bs) =
    let rest = split_field bs in if b == colon then ([], trim_space bs) else (b ∷ rest.0, rest.1)

pub record SseEvent : Type 0 where
  pub id : Bytes
  pub event : Bytes
  pub payload : Bytes
  pub retry : ℤ

-- The variables that one call of Next fills.
pub record Pending : Type 0 where
  pub payload : Bytes
  pub event : Bytes
  pub id : Bytes
  pub retry : ℤ
  pub has_data : Bool
  pub has_field : Bool

abbrev pub fresh : Pending
fresh = record {
  payload = [];
  event = [];
  id = [];
  retry = pos 0;
  has_data = false;
  has_field = false;
}

abbrev pub is_complete : Pending → Bool
is_complete p = p.has_field || p.has_data

-- The reads: the context was done before; a line up to its line feed; the last bytes with io.EOF; and
-- another error, with whether the context is done by then.
pub data Read : Type 0 where
  cancelled : Read
  full : Bytes → Read
  eof : Bytes → Read
  failed : Bool → Read

-- ReadString with the delimiter "\n", until the body ends: a line goes up to and with the first line
-- feed, and what is left without one comes with io.EOF.
abbrev pub prepend : ℕ → List Read → List Read
prepend b [] = eof (b ∷ []) ∷ []
prepend b (full bs ∷ rest) = full (b ∷ bs) ∷ rest
prepend b (eof bs ∷ rest) = eof (b ∷ bs) ∷ rest
prepend b (cancelled ∷ rest) = cancelled ∷ rest
prepend b (failed is_done ∷ rest) = failed is_done ∷ rest

unfoldable pub read_all : Bytes → List Read
read_all [] = []
read_all (b ∷ bs) =
    let rest = read_all bs in if b == line_feed then full (b ∷ []) ∷ rest else prepend b rest

-- How the loop of Next ends: with an event, with false, or with false and an error to record.
pub data Scanned : Type 0 where
  dispatched : Pending → List Read → Scanned
  stopped : List Read → Scanned
  broken : List Read → Scanned

-- What the client records: recordSSEEvent and recordSSEError.
pub data SseRecord : Type 0 where
  event_received : Bytes → SseRecord
  sse_error : SseRecord

pub record SseStream : Type 0 where
  pub reads : List Read
  pub current : SseEvent
  pub has_err : Bool
  pub closed : Bool
  pub recorded : List SseRecord

abbrev pub set_retry : Option ℤ → Pending → Pending
set_retry none p = p
set_retry (some n) p = record p { retry = n; has_field = true }

abbrev pub at_end : Pending → List Read → Scanned
at_end p rest = if is_complete p then dispatched p rest else stopped rest

abbrev pub event_of : Pending → SseEvent
event_of p = record {
  id = p.id;
  event = if is_nil p.event then message_type else p.event;
  payload = p.payload;
  retry = p.retry;
}

abbrev pub dispatch : Pending → List Read → SseStream → SseStream
dispatch p rest s = record s {
  reads = rest;
  current = event_of p;
  recorded = s.recorded ++ event_received (event_of p).event ∷ [];
}

abbrev pub finish : Scanned → SseStream → Bool × SseStream
finish (dispatched p rest) s = (true, dispatch p rest s)
finish (stopped rest) s = (false, record s { reads = rest })
finish (broken rest) s =
    (false, record s { reads = rest; has_err = true; recorded = s.recorded ++ sse_error ∷ [] })

-- The loop of Events, on fuel, where every event is taken from the channel: the events, and the
-- stream that it leaves.
abbrev pub more :
    Bool × SseStream → Option (List SseEvent × SseStream) → Option (List SseEvent × SseStream)
more (false, s) later = some ([], s)
more (true, s) none = none
more (true, s) (some (es, t)) = some (s.current ∷ es, t)

module _ (atoi : Bytes → Option ℤ) where
  abbrev pub apply_field : Bytes → Bytes → Pending → Pending
  apply_field field value p =
      if same field event_field
      then record p { event = value; has_field = true }
      else if same field data_field
      then record p {
        payload = if p.has_data then p.payload ++ line_feed ∷ value else p.payload ++ value;
        has_data = true;
        has_field = true;
      }
      else if same field id_field
      then record p { id = value; has_field = true }
      else if same field retry_field
      then set_retry (atoi value) p
      else p

  -- A trimmed line; an empty one and a comment change nothing.
  unfoldable pub take_line : Pending → Bytes → Pending
  unfolding split_field
  take_line p [] = p
  take_line p (b ∷ bs) =
      let f = split_field (b ∷ bs) in if b == colon then p else apply_field f.0 f.1 p

  -- The loop of Next. The buffered reader goes on returning io.EOF after the last read.
  unfoldable pub scan : Pending → List Read → Scanned
  unfolding take_line trim_right
  scan p [] = at_end p []
  scan p (cancelled ∷ rest) = stopped (cancelled ∷ rest)
  scan p (failed is_done ∷ rest) = if is_done then stopped rest else broken rest
  scan p (eof line ∷ rest) = at_end (take_line p (trim_right line)) rest
  scan p (full line ∷ rest) =
      let later = scan (take_line p (trim_right line)) rest in
      if is_nil (trim_right line) && is_complete p then dispatched p rest else later

  unfoldable pub next : SseStream → Bool × SseStream
  unfolding scan
  next s = if s.has_err || s.closed then (false, s) else finish (scan fresh s.reads) s

  unfoldable pub events : ℕ → SseStream → Option (List SseEvent × SseStream)
  unfolding next
  events zero s = none
  events (suc n) s = let later = events n (next s).1 in more (next s) later
