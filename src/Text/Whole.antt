-- ===== src/Text/Whole.antt =====
-- The lines of a path make up the path: `format_bip32` of src/ui/ui_common.c, line by line.
use ledger_iota_app.Prelude.{
  append_assoc, ℕ, zero, suc, ◌+◌, ◌*◌, ◌^◌, ◌≤◌, ◌<◌, ◌≡◌, ◌≢◌, refl, sym, ◌∙◌, ap, true, List, [],
  ◌∷◌, ◌++◌, length, length-append, drop, set, ◌==◌, arith, Bool-cases, inl, inr, ltb→lt,
}
use ledger_iota_app.Text.Paths.{piece, piece_len, format_bip32, bip32_line_length}
use ledger_iota_app.Text.Lines.{piece_len_le}
use ledger_iota_app.Text.Wrap.{
  length-piece, path_text, line_text, line_text_nil, line_at, place_at, breaks, line_text_hits,
  line_text_misses, format_pieces_lem,
}

-- A line that is over gets nothing more.
line_text_over :
    (l i curlen lines : ℕ) (words : List ℕ) → l < lines → line_text l i curlen lines words ≡ []
line_text_over l i curlen lines [] h = line_text_nil l i curlen lines
line_text_over l i curlen lines (word ∷ words) h =
    let off : line_at curlen lines i word ≢ l = ground arith in
    let still : l < line_at curlen lines i word = ground arith in
    line_text_misses l i curlen lines word words off
    ∙ line_text_over l (i + 1) (place_at curlen i word) (line_at curlen lines i word) words still

-- A line has at most 22 characters.
length-line_text :
    (l i curlen lines : ℕ) (words : List ℕ)
    → curlen ≤ bip32_line_length
    → (lines ≡ l → length (line_text l i curlen lines words) + curlen ≤ bip32_line_length)
      × (length (line_text l i curlen lines words) ≤ bip32_line_length)
length-line_text l i curlen lines [] h =
    let nil = ap length (line_text_nil l i curlen lines) in
    (λ e. omega (arith, nil, h), omega (arith, nil))
length-line_text l i curlen lines (word ∷ words) h =
    let few = piece_len_le i word in
    let long = length-piece i word in
    let place : place_at curlen i word ≤ bip32_line_length = ground arith in
    let (on, any) =
      length-line_text l (i + 1) (place_at curlen i word) (line_at curlen lines i word) words
        place in
    let rest = line_text l (i + 1) (place_at curlen i word) (line_at curlen lines i word) words in
    let sum = length-append (piece i word) rest in
    elim (Bool-cases (line_at curlen lines i word == l)) [
      | inl hit ↦
          let e : line_at curlen lines i word ≡ l = ground arith in
          let is = ap length (line_text_hits l i curlen lines word words e) in
          let whole = on e in (λ same. ground arith, ground arith)
      | inr miss ↦
          let n : line_at curlen lines i word ≢ l = ground arith in
          let is = ap length (line_text_misses l i curlen lines word words n) in
          let over =
            line_text_over l (i + 1) (place_at curlen i word) (line_at curlen lines i word) words in
          let none : lines ≡ l → length rest ≡ 0 = λ same. ap length (over (ground arith)) in
          (λ same. omega (arith, is, none same, h), ground arith)
    ]

-- The lines from `l` on, `k` of them behind the first.
joined : ℕ → ℕ → ℕ → ℕ → ℕ → List ℕ → List ℕ
joined zero l i curlen lines words = line_text l i curlen lines words
joined (suc k) l i curlen lines words =
    line_text l i curlen lines words ++ joined k (l + 1) i curlen lines words

joined_nil : (k l i curlen lines : ℕ) → joined k l i curlen lines [] ≡ []
unfolding joined
joined_nil zero l i curlen lines = line_text_nil l i curlen lines
joined_nil (suc k) l i curlen lines =
    rw (line_text_nil l i curlen lines) (joined_nil k (l + 1) i curlen lines)

module _ (i curlen lines word : ℕ) (words : List ℕ) where
  abbrev rest_of : ℕ → ℕ → List ℕ
  rest_of k l = joined k l (i + 1) (place_at curlen i word) (line_at curlen lines i word) words

  joined_later :
      (k l : ℕ)
      → line_at curlen lines i word < l
      → joined k l i curlen lines (word ∷ words) ≡ rest_of k l
  unfolding joined
  joined_later zero l h = line_text_misses l i curlen lines word words (λ e. omega (arith, e, h))
  joined_later (suc k) l h =
      rw
        (
          line_text_misses l i curlen lines word words (λ e. omega (arith, e, h)),
          joined_later k (l + 1) (omega (arith, h)),
        )
        refl

  joined_here :
      (k l : ℕ)
      → line_at curlen lines i word ≡ l
      → joined k l i curlen lines (word ∷ words) ≡ piece i word ++ rest_of k l
  unfolding joined
  joined_here zero l h = line_text_hits l i curlen lines word words h
  joined_here (suc k) l h =
      rw (line_text_hits l i curlen lines word words h, joined_later k (l + 1) (omega (arith, h)))
        (append_assoc (piece i word) _ _)

-- A piece that does not fit is on the next line.
joined_new :
    (k i curlen lines word : ℕ) (words text : List ℕ)
    → breaks curlen i word ≡ true
    → curlen + 10 * suc (length words) ≤ bip32_line_length + 20 * k
    → ((k' : ℕ) → k ≡ suc k' → joined k' (lines + 1) i curlen lines (word ∷ words) ≡ text)
    → joined k lines i curlen lines (word ∷ words) ≡ text
unfolding joined
joined_new zero i curlen lines word words text new fits h =
    let few = piece_len_le i word in absurd (omega (arith, few, fits, ltb→lt _ _ new))
joined_new (suc k) i curlen lines word words text new fits h =
    let next : line_at curlen lines i word ≡ lines + 1 = rw new refl in
    let none =
      line_text_misses lines i curlen lines word words (λ e. omega (arith, e, next))
      ∙ line_text_over lines (i + 1) (place_at curlen i word) (line_at curlen lines i word) words
          (omega (arith, next)) in
    ap (λ line. line ++ joined k (lines + 1) i curlen lines (word ∷ words)) none ∙ h k refl

joined_lem :
    (words : List ℕ) (k i curlen lines : ℕ)
    → curlen ≤ bip32_line_length
    → curlen + 10 * length words ≤ bip32_line_length + 20 * k
    → joined k lines i curlen lines words ≡ path_text i words
unfolding path_text
joined_lem [] k i curlen lines within fits = joined_nil k lines i curlen lines
joined_lem (word ∷ words) k i curlen lines within fits =
    let few = piece_len_le i word in
    let line' = line_at curlen lines i word in
    let place' = place_at curlen i word in
    let place : place' ≤ bip32_line_length = ground arith in
    let here : (j : ℕ)
        → place' + 10 * length words ≤ bip32_line_length + 20 * j
        → joined j line' i curlen lines (word ∷ words) ≡ piece i word ++ path_text (i + 1) words =
      λ j enough.
        joined_here i curlen lines word words j line' refl
        ∙ ap (λ rest. piece i word ++ rest)
            (joined_lem words j (i + 1) place' line' place enough) in
    elim (Bool-cases (breaks curlen i word)) [
      | inr same ↦
          let on : line' ≡ lines = rw same refl in
          let at : place' ≡ curlen + piece_len i word = rw same refl in
          ap (λ l. joined k l i curlen lines (word ∷ words)) (sym on)
          ∙ here k (omega (arith, at, few, fits))
      | inl new ↦
          let on : line' ≡ lines + 1 = rw new refl in
          let at : place' ≡ 0 + piece_len i word = rw new refl in
          joined_new k i curlen lines word words _ new fits (λ j e.
            ap (λ l. joined j l i curlen lines (word ∷ words)) (sym on)
            ∙ here j (omega (arith, at, few, fits, e, ltb→lt _ _ new)))
    ]

-- A line of a path.
abbrev pub line : List ℕ → ℕ → List ℕ
line b32 n = line_text n 0 0 0 b32

set-append : (t r : List ℕ) (x v : ℕ) → set (t ++ (x ∷ r)) (length t) v ≡ t ++ (v ∷ r)
set-append [] r x v = refl
set-append (y ∷ t) r x v = ap (λ ys. y ∷ ys) (set-append t r x v)

both : {a a' : ℕ} {bs bs' : List ℕ} → a ≡ a' → bs ≡ bs' → ◌≡◌ {A = ℕ × List ℕ} (a, bs) (a', bs')
both e f = rw (e, f) refl

-- For a path of at most five words: its text is that of three lines, of at most 22 characters each,
-- one behind the other; and in a buffer with room for 22 characters and a zero, the code for a line
-- writes it behind what stands before, with its zero, and tells its length.
pub format_bip32_lem :
    (b32 : List ℕ) (n x room : ℕ) (t r : List ℕ)
    → length b32 ≤ 5
    → bip32_line_length < room
    → room < 2 ^ 32
    → (path_text 0 b32 ≡ line b32 0 ++ (line b32 1 ++ line b32 2))
      × (length (line b32 n) ≤ bip32_line_length)
      × (format_bip32 b32 n (length t) room (t ++ (x ∷ r))
          ≡ (length (line b32 n), (t ++ line b32 n) ++ (0 ∷ drop (length (line b32 n)) r)))
unfolding format_bip32 joined
format_bip32_lem b32 n x room t r few enough word_room =
    let short : length (line b32 n) ≤ bip32_line_length =
      (length-line_text n 0 0 0 b32 (omega arith)).1 in
    let (out, end) =
      format_pieces_lem n (length t) 0 b32 0 0 0 room t r (omega arith)
        (omega (arith, short, enough)) word_room in
    (
      sym (joined_lem b32 2 0 0 0 (omega arith) (omega (arith, few))),
      short,
      rw (set-append t r x 0) (both (end ∙ omega arith) out),
    )
