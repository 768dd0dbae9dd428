-- ===== src/Text/Paths.antt =====
-- The BIP32 paths of src/ui/ui_common.c, and `string_insert_chars_each`. A buffer is a list of
-- characters, the zeros that end its texts included; `set` out of range changes nothing, and a text
-- that is printed beyond the end of the buffer lengthens the list.
use ledger_iota_app.Prelude.{
  ℕ, zero, suc, ◌+◌, ◌-◌, ◌*◌, ◌/◌, ◌%◌, ◌^◌, Bool, List, [], ◌∷◌, ◌++◌, Option, none, some, length,
  ltb, ◌==◌, ◌&&◌, not, set, blit, u32, if◌then◌else◌,
}
use ledger_iota_app.Constants.Bip32
use ledger_iota_app.Text.{codes, snprintf, print_x}

-- `BIP32_LINE_LENGTH`
abbrev pub bip32_line_length : ℕ
bip32_line_length = 22

-- The loop: the number is shifted up until its top digit is not 0.
unfoldable pub hex_len_from : ℕ → ℕ → ℕ → ℕ
hex_len_from zero v len = 1
hex_len_from (suc left) v len =
    let rest = hex_len_from left (u32 (v * 2 ^ 4)) (len - 1) in
    if v == 0 then 1 else if not (v / 2 ^ 28 % 2 ^ 4 == 0) then len else rest

-- Eight shifts leave nothing of a word.
unfoldable pub hex_len : ℕ → ℕ
unfolding hex_len_from
hex_len v = hex_len_from 9 v 8

-- `snprintf(&out[at], room, text)`
abbrev pub print_at : ℕ → ℕ → List ℕ → List ℕ → List ℕ
print_at at zero text out = out
print_at at (suc room) text out = blit at (snprintf (suc room) text ++ (0 ∷ [])) out

abbrev pub is_last_place : ℕ → Bool
is_last_place i = i == Bip32.path_len - 1

-- What is printed for place `i` of a path.
unfoldable pub piece : ℕ → ℕ → List ℕ
piece i word = print_x (word % 2 ^ 31) ++ (if is_last_place i then codes "'" else codes "'/")

-- The length that is reckoned with.
unfoldable pub piece_len : ℕ → ℕ → ℕ
piece_len i word = hex_len (word % 2 ^ 31) + (if is_last_place i then 1 else 2)

-- The variables of the loop.
pub record LineState : Type 0 where
  pub out : List ℕ
  pub ofs : ℕ
  pub curlen : ℕ
  pub lines : ℕ
  pub out_max_len : ℕ

-- The start of a new line, if the piece does not fit.
abbrev pub break_line : ℕ → LineState → LineState
break_line len s =
    if ltb bip32_line_length (s.curlen + len)
    then record s { curlen = 0; lines = s.lines + 1 }
    else s

-- The body of the loop, where `&out[0]` is at place `at` of the buffer.
unfoldable pub format_piece : ℕ → ℕ → ℕ → ℕ → LineState → LineState
format_piece linenr at i word s =
    let len = piece_len i word in
    let s' = break_line len s in
    let printed =
      if s'.lines == linenr
      then record s' {
        out = print_at (at + s'.ofs) s'.out_max_len (piece i word) s'.out;
        ofs = s'.ofs + len;
        out_max_len = u32 (s'.out_max_len + 2 ^ 32 - len);
      }
      else s' in
    record printed { curlen = printed.curlen + len }

-- The loop from place `i` of the path.
unfoldable pub format_pieces : ℕ → ℕ → ℕ → List ℕ → LineState → LineState
format_pieces linenr at i [] s = s
format_pieces linenr at i (word ∷ words) s =
    format_pieces linenr at (i + 1) words (format_piece linenr at i word s)

-- One line of a path, with the number of characters; `out` is never NULL.
unfoldable pub format_bip32 : List ℕ → ℕ → ℕ → ℕ → List ℕ → ℕ × List ℕ
format_bip32 b32 linenr at out_max_len out =
    let s =
      format_pieces linenr at 0 b32 (record {
        out = set out at 0;
        ofs = 0;
        curlen = 0;
        lines = 0;
        out_max_len = out_max_len;
      }) in
    (s.ofs, s.out)

-- The loop from line `i`, with `left` rounds to go; the last zero becomes a line break.
unfoldable pub format_lines : List ℕ → ℕ → ℕ → ℕ → ℕ → ℕ → List ℕ → ℕ × List ℕ
format_lines b32 zero i ofs last_zero out_max_len out = (ofs, out)
format_lines b32 (suc left) i ofs last_zero out_max_len out =
    let (written, line) = format_bip32 b32 i ofs out_max_len out in
    let joined = if last_zero == 0 then line else set line last_zero b'\n' in
    let end = ofs + written in
    let rest =
      format_lines b32 left (i + 1) (end + 1) end (u32 (out_max_len + 2 ^ 32 - (written + 1)))
        joined in
    if written == 0 then (ofs, line) else rest

-- At most three lines.
unfoldable pub format_bip32_with_line_breaks : List ℕ → ℕ → List ℕ → ℕ × List ℕ
format_bip32_with_line_breaks b32 out_max_len out =
    let (ofs, written) = format_lines b32 3 0 0 0 out_max_len out in (ofs, set written ofs 0)

-- The loop: `c` behind every `insert_after` characters, `count` times at most.
unfoldable pub insert_chars : ℕ → ℕ → ℕ → ℕ → List ℕ → List ℕ
insert_chars insert_after count c ctr [] = []
insert_chars insert_after count c ctr (x ∷ src) =
    let with_char = insert_chars insert_after (count - 1) c 0 src in
    let without = insert_chars insert_after count c (ctr + 1) src in
    if ltb 0 count && ctr + 1 == insert_after then x ∷ c ∷ with_char else x ∷ without

-- `none` is a return value of 0.
unfoldable pub string_insert_chars_each : List ℕ → ℕ → ℕ → ℕ → ℕ → Option (List ℕ)
string_insert_chars_each src dst_size insert_after count c =
    if ltb dst_size (length src + length src / insert_after + 1)
    then none
    else some (insert_chars insert_after count c 0 src)
