-- ===== src/Sse/Reading.antt =====
-- pkg/vuhive/http/sse.go: the lines that are read from the bytes of a body of frames.
use vuhive.Prelude.{
  ℕ, List, [], ◌∷◌, ◌++◌, Bool, true, ℤ, ◌≡◌, refl, sym, ap, ◌∙◌, all, All, Bool-cases, inl, inr,
  false≢true, ◌==◌, not,
}
use vuhive.Sse.{Bytes, line_feed, Read, read_all}
use vuhive.Sse.Frames.{Line, line_text, printed}

abbrev pub is_in_line : ℕ → Bool
is_in_line b = not (b == line_feed)

-- A text without a line feed is read up to the line feed that follows it.
read_all_line :
    (text rest : Bytes)
    → all is_in_line text ≡ true
    → read_all (text ++ line_feed ∷ rest) ≡ printed text ∷ read_all rest
unfolding read_all
read_all_line [] rest h = refl
read_all_line (b ∷ bs) rest h = elim (Bool-cases (b == line_feed)) [
  | inl e ↦ absurd (false≢true (sym (rw e refl) ∙ h))
  | inr e ↦
      let later : all is_in_line bs ≡ true = sym (rw e refl) ∙ h in
      rw (e, read_all_line bs rest later) refl
]

module _ (itoa : ℤ → Bytes) where
  abbrev pub frame_reads : List Line → List Read → List Read
  frame_reads [] rest = printed [] ∷ rest
  frame_reads (l ∷ ls) rest = printed (line_text itoa l) ∷ frame_reads ls rest

  abbrev pub wire_reads : List (List Line) → List Read
  wire_reads [] = []
  wire_reads (f ∷ fs) = frame_reads f (wire_reads fs)

  abbrev pub frame_text : List Line → Bytes → Bytes
  frame_text [] rest = line_feed ∷ rest
  frame_text (l ∷ ls) rest = line_text itoa l ++ line_feed ∷ frame_text ls rest

  -- The bytes of a body: the lines of each frame, with a blank line after them.
  abbrev pub wire : List (List Line) → Bytes
  wire [] = []
  wire (f ∷ fs) = frame_text f (wire fs)

  -- The text of a line is one line.
  abbrev pub IsOneLine : Line → Type 0
  IsOneLine l = all is_in_line (line_text itoa l) ≡ true

  read_all-frame_text :
      (f : List Line) (rest : Bytes)
      → All IsOneLine f
      → read_all (frame_text f rest) ≡ frame_reads f (read_all rest)
  read_all-frame_text [] rest h = read_all_line [] rest refl
  read_all-frame_text (l ∷ ls) rest h =
      read_all_line (line_text itoa l) (frame_text ls rest) h.0
      ∙ ap (λ (rs : List Read). printed (line_text itoa l) ∷ rs) (read_all-frame_text ls rest h.1)

  pub read_all-wire :
      (fs : List (List Line)) → All (All IsOneLine) fs → read_all (wire fs) ≡ wire_reads fs
  unfolding read_all
  read_all-wire [] h = refl
  read_all-wire (f ∷ fs) h =
      read_all-frame_text f (wire fs) h.0 ∙ ap (frame_reads f) (read_all-wire fs h.1)
