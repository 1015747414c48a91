-- ===== src/Sse/Tests.antt =====
-- Streams of events.
use vuhive.Prelude.{
  ◌+◌, ◌-◌, List, [], ◌∷◌, ◌++◌, Option, none, some, ℤ, pos, negsuc, ◌≡◌, refl, All, true, false,
  arith,
}
use vuhive.Sse.{
  Bytes, SseEvent, eof, failed, full, read_all, event_received, sse_error, message_type, data_field,
  events, next, trim_right,
}
use vuhive.Sse.Frames.{Line, comment, event_line, data_line, id_line, retry_line}
use vuhive.Sse.Reading.{wire, IsOneLine}
use vuhive.Sse.Decoding.{open_stream, events-decoded}

-- One digit.
abbrev digit_of : Bytes → Option ℤ
digit_of [] = none
digit_of (b ∷ []) = some (pos (b - 48))
digit_of (b ∷ c ∷ bs) = none

abbrev digit : ℤ → Bytes
digit (pos n) = (48 + n) ∷ []
digit (negsuc n) = []

-- A keep-alive, then an event with two lines of data, an id and a retry.
abbrev frames : List (List Line)
frames =
    (comment (112 ∷ []) ∷ [])
    ∷ (event_line (117 ∷ [])
        ∷ data_line (32 ∷ 97 ∷ [])
        ∷ id_line (49 ∷ [])
        ∷ data_line (98 ∷ [])
        ∷ retry_line (pos 5)
        ∷ [])
    ∷ (data_line [] ∷ [])
    ∷ []

abbrev no_event : SseEvent
no_event = record { id = []; event = []; payload = []; retry = pos 0 }

abbrev update : SseEvent
update = record { id = 49 ∷ []; event = 117 ∷ []; payload = 32 ∷ 97 ∷ 10 ∷ 98 ∷ []; retry = pos 5 }

abbrev empty_message : SseEvent
empty_message = record { id = []; event = message_type; payload = []; retry = pos 0 }

-- The same bytes, cut by hand.
reads :
    read_all (wire digit ((comment (112 ∷ []) ∷ []) ∷ []))
    ≡ full (58 ∷ 112 ∷ 10 ∷ []) ∷ full (10 ∷ []) ∷ []
unfolding read_all
reads = refl

one_line : All (All (IsOneLine digit)) frames
one_line = ((refl, tt), ((refl, (refl, (refl, (refl, (refl, tt))))), ((refl, tt), tt)))

events-decoded_example :
    events digit_of 4 (open_stream no_event [] (read_all (wire digit frames)))
    ≡ some (
      update ∷ empty_message ∷ [],
      open_stream empty_message (event_received (117 ∷ []) ∷ event_received message_type ∷ []) [],
    )
unfolding trim_right
events-decoded_example =
    events-decoded digit_of digit frames 3 no_event []
      ((tt, tt), ((refl, (refl, (refl, (refl, ((refl, refl), tt))))), ((refl, tt), tt))) one_line
      (omega arith)

-- The last event of a stream needs no blank line.
unterminated :
    events digit_of 2 (open_stream no_event [] (eof (data_field ++ 58 ∷ []) ∷ []))
    ≡ some (empty_message ∷ [], open_stream empty_message (event_received message_type ∷ []) [])
unfolding events
unterminated = refl

-- Another error than the end of the stream is recorded, unless the context is done.
lost :
    (next digit_of (open_stream no_event [] (failed false ∷ []))
      ≡ (false, record (open_stream no_event [] []) { has_err = true; recorded = sse_error ∷ [] }))
    × (next digit_of (open_stream no_event [] (failed true ∷ []))
        ≡ (false, open_stream no_event [] []))
unfolding next
lost = (refl, refl)
