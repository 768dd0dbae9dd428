-- ===== src/Text/Lines.antt =====
-- How long the lines of a path are: `hex_len`, `format_bip32` and `format_bip32_with_line_breaks` of
-- src/ui/ui_common.c.
use ledger_iota_app.Prelude.{
  ℕ, zero, suc, ◌+◌, ◌-◌, ◌*◌, ◌%◌, ◌^◌, ◌≤◌, ◌<◌, ◌≡◌, List, [], ◌∷◌, ◌==◌, u32, arith, set,
  Bool-cases, inl, inr,
}
use ledger_iota_app.Text.Paths.{
  hex_len_from, hex_len, piece_len, LineState, format_piece, format_pieces, format_bip32,
  format_lines, format_bip32_with_line_breaks, bip32_line_length,
}

hex_len_from_le : (left v len : ℕ) → len ≤ 8 → hex_len_from left v len ≤ 8
unfolding hex_len_from
hex_len_from_le zero v len h = omega arith
hex_len_from_le (suc left) v len h =
    let rest = hex_len_from_le left (u32 (v * 2 ^ 4)) (len - 1) (omega (arith, h)) in ground arith

pub piece_len_le : (i word : ℕ) → piece_len i word ≤ 10
unfolding piece_len hex_len
piece_len_le i word = let hex = hex_len_from_le 9 (word % 2 ^ 31) 8 (omega arith) in ground arith

-- What has been written of the line so far.
record Within (linenr : ℕ) (s : LineState) : Type 0 where
  short : s.curlen ≤ bip32_line_length
  nothing_yet : s.lines < linenr → s.ofs ≡ 0
  on_line : s.lines ≡ linenr → s.ofs ≤ s.curlen
  fits : s.ofs ≤ bip32_line_length

format_piece-Within :
    (linenr at i word : ℕ) (s : LineState)
    → Within linenr s
    → Within linenr (format_piece linenr at i word s)
unfolding format_piece
format_piece-Within linenr at i word s w = let len = piece_len_le i word in ground arith

format_pieces-Within :
    (linenr at i : ℕ) (words : List ℕ) (s : LineState)
    → Within linenr s
    → Within linenr (format_pieces linenr at i words s)
unfolding format_pieces
format_pieces-Within linenr at i [] s w = w
format_pieces-Within linenr at i (word ∷ words) s w =
    format_pieces-Within linenr at (i + 1) words (format_piece linenr at i word s)
      (format_piece-Within linenr at i word s w)

format_bip32_le :
    (b32 out : List ℕ) (linenr at room : ℕ)
    → (format_bip32 b32 linenr at room out).0 ≤ bip32_line_length
unfolding format_bip32
format_bip32_le b32 out linenr at room =
    let start : LineState = record {
      out = set out at 0;
      ofs = 0;
      curlen = 0;
      lines = 0;
      out_max_len = room;
    } in
    let w = format_pieces-Within linenr at 0 b32 start (ground arith) in w.fits

format_lines_le :
    (left i ofs last_zero room : ℕ) (b32 out : List ℕ)
    → (format_lines b32 left i ofs last_zero room out).0 ≤ ofs + 23 * left
unfolding format_lines
format_lines_le zero i ofs last_zero room b32 out = omega arith
format_lines_le (suc left) i ofs last_zero room b32 out =
    let (written, line) = format_bip32 b32 i ofs room out in
    let short = format_bip32_le b32 out i ofs room in
    let rest : (out' : List ℕ) → _ ≤ ofs + written + 1 + 23 * left =
      format_lines_le left (i + 1) (ofs + written + 1) (ofs + written)
        (u32 (room + 2 ^ 32 - (written + 1))) b32 in
    elim (Bool-cases (written == 0)) [
      | inl stops ↦ rw stops (omega arith)
      | inr goes ↦ rw goes (omega (arith, short, rest _))
    ]

-- The three lines and the breaks between them take at most 69 characters, of the 81 of the buffer.
pub line_breaks_le :
    (b32 out : List ℕ) (room : ℕ) → (format_bip32_with_line_breaks b32 room out).0 ≤ 69
unfolding format_bip32_with_line_breaks
line_breaks_le b32 out room = omega (arith, format_lines_le 3 0 0 0 room b32 out)
