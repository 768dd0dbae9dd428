-- ===== src/Blindsigning/Layout.antt =====
-- `parse_and_validate_blindsigning` (src/iota/blindsigning_stardust.c) against the layout of its
-- buffer, stated by offsets: the hash of an essence, a count, and a BIP32 index for each input.
use ledger_iota_app.Prelude.{
  ℕ, ◌+◌, ◌*◌, ◌<◌, ◌≡◌, ◌&&◌, some, List, arith, All, length, slice, le, u16, leb,
}
use ledger_iota_app.Exec.Laws.{
  Yields, Settles, Settles-iff, Settles-lift, Settles-bind, Settles-must, Settles-pure,
}
use ledger_iota_app.Constants.{Target, api_buffer_size_bytes, api_buffer_size_bytes_bounds}
use ledger_iota_app.Types.{ApiCtx, sizeof_bip32_index}
use ledger_iota_app.Reader.{records}
use ledger_iota_app.Reader.Laws.{get_uint16_lem, read_in_range}
use ledger_iota_app.Essence.{on_essence}
use ledger_iota_app.Essence.Records.{IsHardened}
use ledger_iota_app.Essence.Validators.{IsCount, IsCount-test, validate_inputs_bip32_lem}
use ledger_iota_app.Blindsigning.{validate_essence_hash, parse_and_validate_blindsigning}

-- The number of inputs stands behind the hash of 32 bytes.
abbrev pub blind_inputs_number : List ℕ → ℕ
blind_inputs_number bytes = le (slice 32 2 bytes)

abbrev pub blind_end : List ℕ → ℕ
blind_end bytes = 34 + sizeof_bip32_index * blind_inputs_number bytes

-- A buffer that can be signed blindly.
pub record IsBlind (t : Target) (bytes : List ℕ) : Type 0 where
  pub inputs_counted : IsCount (blind_inputs_number bytes)
  pub fits : blind_end bytes < api_buffer_size_bytes t
  pub paths_hardened :
      All IsHardened (records bytes sizeof_bip32_index 34 (blind_inputs_number bytes))

-- The hash, the lengths, the count and the pointer that the parser stores.
abbrev pub parsed_blindly : ApiCtx → ApiCtx
parsed_blindly c =
    let bytes = c.api_data.buffer in
    record c {
      essence = record c.essence {
        hash = slice 0 32 bytes;
        length = 32;
        inputs_count = blind_inputs_number bytes;
        inputs_bip32_index = some 34;
      };
      api_data = record c.api_data { length = u16 (blind_end bytes) };
    }

-- The context before the BIP32 indices are read.
abbrev counted : ApiCtx → ApiCtx
counted c =
    let bytes = c.api_data.buffer in
    on_essence
      (λ e. record e {
        hash = slice 0 32 bytes;
        length = 32;
        inputs_count = blind_inputs_number bytes;
      })
      c

hash_read :
    (t : Target) (bytes : List ℕ)
    → length bytes ≡ api_buffer_size_bytes t
    → Yields Unit (slice 0 32 bytes, 32) (validate_essence_hash t bytes 0)
unfolding validate_essence_hash
hash_read t bytes full =
    let bounds = api_buffer_size_bytes_bounds t in
    let r = read_in_range bytes 0 32 (omega arith) in ground arith

-- On a buffer of the full size, the parser for blind signing returns 1, with the context that
-- `parsed_blindly` describes, if the count is between 1 and 128, the indices end below the size of
-- the buffer and both words of each are hardened; on any other it returns 0. It neither throws nor
-- reads outside the buffer.
pub parse_and_validate_blindsigning_lem :
    (t : Target) (c : ApiCtx)
    → length c.api_data.buffer ≡ api_buffer_size_bytes t
    → Settles
        (IsBlind t c.api_data.buffer)
        tt
        (parsed_blindly c)
        (parse_and_validate_blindsigning t c)
unfolding parse_and_validate_blindsigning
parse_and_validate_blindsigning_lem t c full =
    let bytes = c.api_data.buffer in
    let n = blind_inputs_number bytes in
    let bounds = api_buffer_size_bytes_bounds t in
    Settles-iff _ (IsBlind t bytes) _
      (λ p. record { inputs_counted = p.1.1.0; fits = p.1.1.1.0.0; paths_hardened = p.1.1.1.0.1 })
      (λ q. (tt, (omega (arith, bounds), (q.inputs_counted, ((q.fits, q.paths_hardened), tt)))))
      (Settles-lift _ _ (hash_read t bytes full) (λ _.
        Settles-lift _ _ (get_uint16_lem t bytes full 32 (omega arith)) (λ h.
          Settles-must (leb 1 n && leb n 128) _ _ (IsCount-test n).0 (IsCount-test n).1 (λ _.
            Settles-bind _ _ (validate_inputs_bip32_lem t (counted c) full 34 h)
              (λ _. Settles-pure)))))
