-- ===== src/Sse/Decoding.antt =====
-- pkg/vuhive/http/sse.go: a stream of frames is decoded into the events that they stand for.
use vuhive.Prelude.{
  ℕ, zero, suc, ◌≤◌, List, [], ◌∷◌, ◌++◌, Option, some, Bool, true, false, ℤ, ◌≡◌, refl, sym, ap,
  ◌∙◌, map, all, All, length, if◌then◌else◌, Bool-cases, inl, inr, arith, false≢true,
}
use vuhive.Sse.{
  Bytes, colon, line_feed, event_field, data_field, id_field, retry_field, is_nil, trim_right,
  SseEvent, Pending, fresh, is_complete, Read, full, read_all, Scanned, dispatched, stopped, broken,
  scan, take_line, event_of, finish, SseRecord, event_received, SseStream, next, more, events,
}
use vuhive.Sse.Lines.{++-nil, ++-assoc, kept_plain, trim_right-field_text}
use vuhive.Sse.Frames.{
  Line, comment, event_line, data_line, id_line, retry_line, is_comment, gathered, last_or,
  line_text, printed, IsWhole, take_line-gathered,
}
use vuhive.Sse.Reading.{frame_reads, wire_reads, wire, IsOneLine, read_all-wire}

-- The event of a frame that has a field.
abbrev pub decoded : List (List Line) → List SseEvent
decoded [] = []
decoded (f ∷ fs) =
    let rest = decoded fs in if all is_comment f then rest else event_of (gathered f) ∷ rest

abbrev pub received : SseEvent → SseRecord
received e = event_received e.event

abbrev pub open_stream : SseEvent → List SseRecord → List Read → SseStream
open_stream current recorded reads = record {
  reads = reads;
  current = current;
  has_err = false;
  closed = false;
  recorded = recorded;
}

comments_fresh : (ls : List Line) → all is_comment ls ≡ true → gathered ls ≡ fresh
comments_fresh [] h = refl
comments_fresh (comment v ∷ ls) h = comments_fresh ls h
comments_fresh (event_line v ∷ ls) h = absurd (false≢true h)
comments_fresh (data_line v ∷ ls) h = absurd (false≢true h)
comments_fresh (id_line v ∷ ls) h = absurd (false≢true h)
comments_fresh (retry_line n ∷ ls) h = absurd (false≢true h)

module _ (atoi : Bytes → Option ℤ) where
  full_step :
      (p : Pending) (text : Bytes) (rest : List Read)
      → is_nil (trim_right text) ≡ false
      → scan atoi p (full text ∷ rest) ≡ scan atoi (take_line atoi p (trim_right text)) rest
  unfolding scan
  full_step p text rest h = rw h refl

  finish_same :
      (r : Scanned) (current : SseEvent) (log : List SseRecord) (xs ys : List Read)
      → finish r (open_stream current log xs) ≡ finish r (open_stream current log ys)
  finish_same (dispatched p rest) current log xs ys = refl
  finish_same (stopped rest) current log xs ys = refl
  finish_same (broken rest) current log xs ys = refl

  events_same :
      (n : ℕ) (current : SseEvent) (log : List SseRecord) (xs ys : List Read)
      → scan atoi fresh xs ≡ scan atoi fresh ys
      → events atoi (suc n) (open_stream current log xs)
        ≡ events atoi (suc n) (open_stream current log ys)
  unfolding events
  events_same n current log xs ys h =
      let same_next : next atoi (open_stream current log xs)
          ≡ next atoi (open_stream current log ys) =
        unfold next in
        ap (λ (r : Scanned). finish r (open_stream current log xs)) h
        ∙ finish_same (scan atoi fresh ys) current log xs ys in
      ap (λ (q : Bool × SseStream). more q (events atoi n q.1)) same_next

module _ (atoi : Bytes → Option ℤ) (itoa : ℤ → Bytes) where
  line_nonempty :
      (l : Line)
      → IsWhole atoi itoa l
      → is_nil (trim_right (line_text itoa l ++ line_feed ∷ [])) ≡ false
  unfolding trim_right
  line_nonempty (comment v) whole =
      ap is_nil (kept_plain colon (trim_right (v ++ line_feed ∷ [])) refl)
  line_nonempty (event_line v) whole = ap is_nil (trim_right-field_text event_field v refl whole)
  line_nonempty (data_line v) whole = ap is_nil (trim_right-field_text data_field v refl whole)
  line_nonempty (id_line v) whole = ap is_nil (trim_right-field_text id_field v refl whole)
  line_nonempty (retry_line n) whole =
      ap is_nil (trim_right-field_text retry_field (itoa n) refl whole.0)

  scan_lines :
      (seen ls : List Line) (rest : List Read)
      → All (IsWhole atoi itoa) ls
      → scan atoi (gathered seen) (frame_reads itoa ls rest)
        ≡ scan atoi (gathered (seen ++ ls)) (printed [] ∷ rest)
  scan_lines seen [] rest whole =
      ap (λ (ls : List Line). scan atoi (gathered ls) (printed [] ∷ rest)) (sym (++-nil seen))
  scan_lines seen (l ∷ ls) rest whole =
      full_step atoi (gathered seen) (line_text itoa l ++ line_feed ∷ []) (frame_reads itoa ls rest)
        (line_nonempty l whole.0)
      ∙ ap (λ (p : Pending). scan atoi p (frame_reads itoa ls rest))
          (take_line-gathered atoi itoa seen l whole.0)
      ∙ scan_lines (seen ++ l ∷ []) ls rest whole.1
      ∙ ap (λ (xs : List Line). scan atoi (gathered xs) (printed [] ∷ rest))
          (++-assoc seen (l ∷ []) ls)

  blank_step :
      (p : Pending) (rest : List Read)
      → scan atoi p (printed [] ∷ rest)
        ≡ (if is_complete p then dispatched p rest else scan atoi p rest)
  unfolding scan take_line trim_right
  blank_step p rest = refl

  comment_frame :
      (f : List Line) (rest : List Read)
      → All (IsWhole atoi itoa) f
      → all is_comment f ≡ true
      → scan atoi fresh (frame_reads itoa f rest) ≡ scan atoi fresh rest
  comment_frame f rest whole h =
      scan_lines [] f rest whole
      ∙ ap (λ (p : Pending). scan atoi p (printed [] ∷ rest)) (comments_fresh f h)
      ∙ blank_step fresh rest

  event_frame :
      (f : List Line) (rest : List Read)
      → All (IsWhole atoi itoa) f
      → all is_comment f ≡ false
      → scan atoi fresh (frame_reads itoa f rest) ≡ dispatched (gathered f) rest
  event_frame f rest whole h =
      let complete : is_complete (gathered f) ≡ true = rw h refl in
      scan_lines [] f rest whole ∙ blank_step (gathered f) rest ∙ rw complete refl

  event_next :
      (f : List Line) (rest : List Read) (current : SseEvent) (log : List SseRecord)
      → All (IsWhole atoi itoa) f
      → all is_comment f ≡ false
      → next atoi (open_stream current log (frame_reads itoa f rest)) ≡ (
        true,
        open_stream (event_of (gathered f)) (log ++ received (event_of (gathered f)) ∷ []) rest,
      )
  unfolding next
  event_next f rest current log whole h =
      ap (λ (r : Scanned). finish r (open_stream current log (frame_reads itoa f rest)))
        (event_frame f rest whole h)

  end_next :
      (current : SseEvent) (log : List SseRecord)
      → next atoi (open_stream current log []) ≡ (false, open_stream current log [])
  unfolding next scan
  end_next current log = refl

  events_step :
      (n : ℕ) (s t : SseStream) (more? : Bool)
      → next atoi s ≡ (more?, t)
      → events atoi (suc n) s ≡ more (more?, t) (events atoi n t)
  unfolding events
  events_step n s t more? h = ap (λ (q : Bool × SseStream). more q (events atoi n q.1)) h

  events-wire_reads :
      (fs : List (List Line)) (n : ℕ) (current : SseEvent) (log : List SseRecord)
      → All (All (IsWhole atoi itoa)) fs
      → length fs ≤ n
      → events atoi (suc n) (open_stream current log (wire_reads itoa fs))
        ≡ some (
          decoded fs,
          open_stream (last_or current (decoded fs)) (log ++ map received (decoded fs)) [],
        )
  events-wire_reads [] n current log whole enough =
      events_step n (open_stream current log []) (open_stream current log []) false
        (end_next current log)
      ∙ ap (λ (l : List SseRecord). some (decoded [], open_stream current l [])) (sym (++-nil log))
  events-wire_reads (f ∷ fs) zero current log whole enough = absurd (omega (arith, enough))
  events-wire_reads (f ∷ fs) (suc n) current log whole enough =
      elim (Bool-cases (all is_comment f)) [
        | inl e ↦
            events_same atoi (suc n) current log (wire_reads itoa (f ∷ fs)) (wire_reads itoa fs)
              (comment_frame f (wire_reads itoa fs) whole.0 e)
            ∙ events-wire_reads fs (suc n) current log whole.1 (omega arith)
            ∙ rw e refl
        | inr e ↦
            let ev : SseEvent = event_of (gathered f) in
            let log' : List SseRecord = log ++ received ev ∷ [] in
            events_step (suc n) (open_stream current log (wire_reads itoa (f ∷ fs)))
              (open_stream ev log' (wire_reads itoa fs)) true
              (event_next f (wire_reads itoa fs) current log whole.0 e)
            ∙ ap (more (true, open_stream ev log' (wire_reads itoa fs)))
                (events-wire_reads fs n ev log' whole.1 (omega arith))
            ∙ rw e (
                ap
                  (λ (l : List SseRecord).
                    some (ev ∷ decoded fs, open_stream (last_or ev (decoded fs)) l []))
                  (++-assoc log (received ev ∷ []) (map received (decoded fs))))
      ]

  -- The loop of Events, on the bytes of a body of any frames, read line by line, where no line of a frame
  -- holds a line feed, no value ends in a line end, and Atoi reads back what wrote a retry: given more
  -- steps than there are frames, it ends without an error, and yields one event for each frame that is
  -- not all comments, in the order of the frames. Each event has the frame's last event type, or message
  -- where that is missing or empty, its last id and last retry, and all its data lines, joined by line
  -- feeds; one received event is recorded for each, and nothing else.
  pub events-decoded :
      (fs : List (List Line)) (n : ℕ) (current : SseEvent) (log : List SseRecord)
      → All (All (IsWhole atoi itoa)) fs
      → All (All (IsOneLine itoa)) fs
      → length fs ≤ n
      → events atoi (suc n) (open_stream current log (read_all (wire itoa fs)))
        ≡ some (
          decoded fs,
          open_stream (last_or current (decoded fs)) (log ++ map received (decoded fs)) [],
        )
  events-decoded fs n current log whole lines enough =
      ap (λ (rs : List Read). events atoi (suc n) (open_stream current log rs))
        (read_all-wire itoa fs lines)
      ∙ events-wire_reads fs n current log whole enough
