-- ===== src/Text/Wrap.antt =====
-- The lines of a path: `format_bip32` of src/ui/ui_common.c against the text of the whole path.
use mathlib.Core.Path.{subst}
use ledger_iota_app.Prelude.{
  append_assoc, take_all, ℕ, zero, suc, ◌+◌, ◌-◌, ◌%◌, ◌^◌, ◌<◌, ◌≡◌, ◌≢◌, refl, sym, ◌∙◌, ap, Bool,
  true, false, List, [], ◌∷◌, ◌++◌, length, length-append, take, drop, blit, ltb, ◌==◌, u32, arith,
  if◌then◌else◌, Bool-cases, inl, inr,
}
use ledger_iota_app.Text.{print_x}
use ledger_iota_app.Text.Paths.{
  piece, piece_len, is_last_place, LineState, format_piece, format_pieces, print_at,
  bip32_line_length,
}
use ledger_iota_app.Text.Hex.{hex_len_lem}

pub length-piece : (i word : ℕ) → length (piece i word) ≡ piece_len i word
unfolding piece piece_len
length-piece i word =
    let digits = hex_len_lem (word % 2 ^ 31) (omega arith) in
    let sum = length-append (print_x (word % 2 ^ 31)) in
    elim (Bool-cases (is_last_place i)) [
      | inl e ↦ rw (e, sum _, digits) refl
      | inr e ↦ rw (e, sum _, digits) refl
    ]

-- The whole text of a path from place `i` on.
unfoldable pub path_text : ℕ → List ℕ → List ℕ
path_text i [] = []
path_text i (word ∷ words) = piece i word ++ path_text (i + 1) words

-- Whether a piece starts a new line behind `curlen` characters.
abbrev pub breaks : ℕ → ℕ → ℕ → Bool
breaks curlen i word = ltb bip32_line_length (curlen + piece_len i word)

-- The text of a line, from place `i` on, behind `curlen` characters of line `lines`.
pub line_text : ℕ → ℕ → ℕ → ℕ → List ℕ → List ℕ
line_text linenr i curlen lines [] = []
line_text linenr i curlen lines (word ∷ words) =
    let new = breaks curlen i word in
    let lines' = if new then lines + 1 else lines in
    let curlen' = if new then 0 else curlen in
    (if lines' == linenr then piece i word else [])
    ++ line_text linenr (i + 1) (curlen' + piece_len i word) lines' words

pub append_nil : (xs : List ℕ) → xs ++ [] ≡ xs
append_nil [] = refl
append_nil (x ∷ xs) = ap (λ ws. x ∷ ws) (append_nil xs)

take-append : (t r : List ℕ) → take (length t) (t ++ r) ≡ t
take-append [] r = refl
take-append (x ∷ t) r = ap (λ ws. x ∷ ws) (take-append t r)

drop-append : (t r : List ℕ) (n : ℕ) → drop (length t + n) (t ++ r) ≡ drop n r
drop-append [] r n = let same : 0 + n ≡ n = omega arith in rw same refl
drop-append (x ∷ t) r n =
    let same : suc (length t) + n ≡ suc (length t + n) = omega arith in rw same (drop-append t r n)

drop-drop : (a b : ℕ) (xs : List ℕ) → drop a (drop b xs) ≡ drop (b + a) xs
drop-drop a zero xs = let same : 0 + a ≡ a = omega arith in rw same refl
drop-drop zero (suc b) [] = let same : suc b + 0 ≡ suc (b + 0) = omega arith in rw same refl
drop-drop (suc a) (suc b) [] =
    let same : suc b + suc a ≡ suc (b + suc a) = omega arith in rw same refl
drop-drop a (suc b) (x ∷ xs) =
    let same : suc b + a ≡ suc (b + a) = omega arith in rw same (drop-drop a b xs)

-- A text with room for it is written behind what stands before, with its zero.
print_at_lem :
    (t r p : List ℕ) (room : ℕ)
    → length p < room
    → print_at (length t) room p (t ++ (0 ∷ r)) ≡ (t ++ p) ++ (0 ∷ drop (length p) r)
unfolding blit
print_at_lem t r p zero h = absurd (omega (arith, h))
print_at_lem t r p (suc room) h =
    let whole = take_all (suc room - 1) p (omega (arith, h)) in
    let long : length (p ++ (0 ∷ [])) ≡ suc (length p) = length-append p (0 ∷ []) ∙ omega arith in
    rw
      (
        whole,
        take-append t (0 ∷ r),
        long,
        drop-append t (0 ∷ r) (suc (length p)),
        append_assoc p (0 ∷ []) (drop (length p) r),
        append_assoc t p (0 ∷ drop (length p) r),
      )
      refl

-- Where the line stands when a piece is reached.
abbrev pub line_at : ℕ → ℕ → ℕ → ℕ → ℕ
line_at curlen lines i word = if breaks curlen i word then lines + 1 else lines

abbrev pub place_at : ℕ → ℕ → ℕ → ℕ
place_at curlen i word = (if breaks curlen i word then 0 else curlen) + piece_len i word

module _ (linenr at i word : ℕ) (ofs curlen lines room : ℕ) (t r : List ℕ) where
  abbrev pub before : LineState
  before = record {
    out = t ++ (0 ∷ r);
    ofs = ofs;
    curlen = curlen;
    lines = lines;
    out_max_len = room;
  }

  format_piece_hits :
      length t ≡ at + ofs
      → piece_len i word < room
      → room < 2 ^ 32
      → line_at curlen lines i word ≡ linenr
      → format_piece linenr at i word before ≡ record {
        out = (t ++ piece i word) ++ (0 ∷ drop (length (piece i word)) r);
        ofs = ofs + piece_len i word;
        curlen = place_at curlen i word;
        lines = line_at curlen lines i word;
        out_max_len = room - piece_len i word;
      }
  unfolding format_piece
  format_piece_hits here fits word_room hit =
      let long = length-piece i word in
      let printed : print_at (at + ofs) room (piece i word) (t ++ (0 ∷ r))
          ≡ (t ++ piece i word) ++ (0 ∷ drop (length (piece i word)) r) =
        subst
          (λ n.
            print_at n room (piece i word) (t ++ (0 ∷ r))
            ≡ (t ++ piece i word) ++ (0 ∷ drop (length (piece i word)) r))
          here (print_at_lem t r (piece i word) room (omega (arith, long, fits))) in
      let left : u32 (room + 2 ^ 32 - piece_len i word) ≡ room - piece_len i word =
        omega (arith, fits, word_room) in
      elim (Bool-cases (breaks curlen i word)) [
        | inl new ↦
            let e : lines + 1 ≡ linenr = rw new at hit in
            let on : (lines + 1 == linenr) ≡ true = ground arith in rw (new, on, printed, left) refl
        | inr same ↦
            let e : lines ≡ linenr = rw same at hit in
            let on : (lines == linenr) ≡ true = ground arith in rw (same, on, printed, left) refl
      ]

  format_piece_misses :
      line_at curlen lines i word ≢ linenr
      → format_piece linenr at i word before
        ≡ record before { curlen = place_at curlen i word; lines = line_at curlen lines i word }
  unfolding format_piece
  format_piece_misses miss = ground arith

pub line_text_nil : (linenr i curlen lines : ℕ) → line_text linenr i curlen lines [] ≡ []
unfolding line_text
line_text_nil linenr i curlen lines = refl

-- The line has the piece, or does not.
module _ (linenr i curlen lines word : ℕ) (words : List ℕ) where
  pub line_text_hits :
      line_at curlen lines i word ≡ linenr
      → line_text linenr i curlen lines (word ∷ words)
        ≡ piece i word
          ++ line_text linenr (i + 1) (place_at curlen i word) (line_at curlen lines i word) words
  unfolding line_text
  line_text_hits hit =
      let on : (line_at curlen lines i word == linenr) ≡ true = ground arith in rw on refl

  pub line_text_misses :
      line_at curlen lines i word ≢ linenr
      → line_text linenr i curlen lines (word ∷ words)
        ≡ line_text linenr (i + 1) (place_at curlen i word) (line_at curlen lines i word) words
  unfolding line_text
  line_text_misses miss =
      let off : (line_at curlen lines i word == linenr) ≡ false = ground arith in rw off refl

-- What the loop has written at its end: the line, behind what stands before, with its zero.
abbrev pub Written : List ℕ → List ℕ → List ℕ → ℕ → LineState → Type 0
Written t line r ofs s =
    (s.out ≡ (t ++ line) ++ (0 ∷ drop (length line) r)) × (s.ofs ≡ ofs + length line)

-- A piece before the rest of a line.
Written-append :
    (t p line r : List ℕ) (ofs : ℕ) (s : LineState)
    → Written (t ++ p) line (drop (length p) r) (ofs + length p) s
    → Written t (p ++ line) r ofs s
Written-append t p line r ofs s (out, end) =
    let sum = length-append p line in
    (
      out ∙ rw (sum, append_assoc t p line, drop-drop (length line) (length p) r) refl,
      omega (arith, end, sum),
    )

pub format_pieces_lem :
    (linenr at i : ℕ) (words : List ℕ) (ofs curlen lines room : ℕ) (t r : List ℕ)
    → length t ≡ at + ofs
    → length (line_text linenr i curlen lines words) < room
    → room < 2 ^ 32
    → Written t
        (line_text linenr i curlen lines words)
        r
        ofs
        (format_pieces linenr at i words (before linenr at i 0 ofs curlen lines room t r))
unfolding format_pieces
format_pieces_lem linenr at i [] ofs curlen lines room t r here fits word_room =
    subst (λ line. Written t line r ofs (before linenr at i 0 ofs curlen lines room t r))
      (sym (line_text_nil linenr i curlen lines)) (rw (append_nil t) refl, omega arith)
format_pieces_lem linenr at i (word ∷ words) ofs curlen lines room t r here fits word_room =
    let line' = line_at curlen lines i word in
    let place' = place_at curlen i word in
    let rest = line_text linenr (i + 1) place' line' words in
    let long = length-piece i word in
    let state = before linenr at i word ofs curlen lines room t r in
    let goes : LineState → LineState = λ s. format_pieces linenr at (i + 1) words s in
    elim (Bool-cases (line' == linenr)) [
      | inl hit ↦
          let on : line' ≡ linenr = ground arith in
          let is = line_text_hits linenr i curlen lines word words on in
          let short : length (piece i word) + length rest < room =
            omega (arith, fits, ap length is, length-append (piece i word) rest) in
          let behind : LineState = goes (
            before linenr at (i + 1) 0 (ofs + piece_len i word) place' line'
              (room - piece_len i word) (t ++ piece i word) (drop (length (piece i word)) r)) in
          let went : Written (t ++ piece i word) rest (drop (length (piece i word)) r)
              (ofs + piece_len i word) behind =
            format_pieces_lem linenr at (i + 1) words (ofs + piece_len i word) place' line'
              (room - piece_len i word) (t ++ piece i word) (drop (length (piece i word)) r)
              (omega (arith, here, long, length-append t (piece i word)))
              (omega (arith, short, long)) (omega (arith, word_room)) in
          let moved =
            subst
              (λ n.
                Written (t ++ piece i word) rest (drop (length (piece i word)) r) (ofs + n) behind)
              (sym long) went in
          subst (λ line. Written t line r ofs (goes (format_piece linenr at i word state))) (sym is)
            (subst (λ s. Written t (piece i word ++ rest) r ofs (goes s))
              (sym (
                format_piece_hits linenr at i word ofs curlen lines room t r here
                  (omega (arith, short, long)) word_room on))
              (Written-append t (piece i word) rest r ofs behind moved))
      | inr miss ↦
          let off : line' ≢ linenr = ground arith in
          let is = line_text_misses linenr i curlen lines word words off in
          subst (λ line. Written t line r ofs (goes (format_piece linenr at i word state))) (sym is)
            (subst (λ s. Written t rest r ofs (goes s))
              (sym (format_piece_misses linenr at i word ofs curlen lines room t r off))
              (format_pieces_lem linenr at (i + 1) words ofs place' line' room t r here
                (omega (arith, fits, ap length is)) word_room))
    ]
