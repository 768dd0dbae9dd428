-- ===== src/Parse/Layout.antt =====
-- The reading half of `essence_parse_and_validate_stardust` (src/iota/essence_stardust.c) against
-- the layout of an essence, stated by offsets into the buffer.
use ledger_iota_app.Prelude.{
  ℕ, ◌+◌, ◌*◌, ◌^◌, ◌<◌, ◌≡◌, some, List, arith, All, length, slice, le, u16, ◌==◌, ==_iff,
  AreBytes,
}
use ledger_iota_app.Exec.Laws.{
  Settles, Settles-iff, Settles-lift, Settles-bind, Settles-must, Settles-pure,
}
use ledger_iota_app.Constants.{Target, api_buffer_size_bytes, api_buffer_size_bytes_bounds}
use ledger_iota_app.Types.{ApiCtx, sizeof_utxo_input, sizeof_basic_output, sizeof_bip32_index}
use ledger_iota_app.Reader.{records}
use ledger_iota_app.Reader.Laws.{get_uint8_lem}
use ledger_iota_app.Essence.{on_essence}
use ledger_iota_app.Essence.Records.{IsInput, IsOutput, IsHardened, total_of}
use ledger_iota_app.Essence.Validators.{
  IsCount, validate_skip_bytes_lem, validate_payload_lem, inputs_read, outputs_read,
  validate_inputs_lem, validate_outputs_lem, validate_inputs_bip32_lem,
}
use ledger_iota_app.Parse.{parse_layout}

-- Where the parts of an essence stand. The essence type, one byte, and the network id, eight, come
-- first.
abbrev pub inputs_start : ℕ
inputs_start = 11

module _ (bytes : List ℕ) where
  abbrev pub inputs_number : ℕ
  inputs_number = le (slice 9 2 bytes)

  -- Behind the inputs and the inputs commitment.
  abbrev pub outputs_count_at : ℕ
  outputs_count_at = inputs_start + sizeof_utxo_input * inputs_number + 32

  abbrev pub outputs_start : ℕ
  outputs_start = outputs_count_at + 2

  abbrev pub outputs_number : ℕ
  outputs_number = le (slice outputs_count_at 2 bytes)

  abbrev pub payload_at : ℕ
  payload_at = outputs_start + sizeof_basic_output * outputs_number

  -- Behind the payload, which its length stands before.
  abbrev pub essence_end : ℕ
  essence_end = payload_at + 4 + le (slice payload_at 4 bytes)

  -- Behind the BIP32 indices, one for each input.
  abbrev pub layout_end : ℕ
  layout_end = essence_end + sizeof_bip32_index * inputs_number

  abbrev pub input_records : List (List ℕ)
  input_records = records bytes sizeof_utxo_input inputs_start inputs_number

  abbrev pub output_records : List (List ℕ)
  output_records = records bytes sizeof_basic_output outputs_start outputs_number

  abbrev pub bip32_records : List (List ℕ)
  bip32_records = records bytes sizeof_bip32_index essence_end inputs_number

-- A buffer that holds an essence which the app can sign.
pub record IsEssence (t : Target) (bytes : List ℕ) : Type 0 where
  pub essence_type : le (slice 0 1 bytes) ≡ 1
  pub inputs_counted : IsCount (inputs_number bytes)
  pub inputs_valid : All IsInput (input_records bytes)
  pub outputs_counted : IsCount (outputs_number bytes)
  pub outputs_valid : All IsOutput (output_records bytes)
  pub amounts_fit : total_of (output_records bytes) < 2 ^ 64
  pub paths_hardened : All IsHardened (bip32_records bytes)
  pub fits : layout_end bytes < api_buffer_size_bytes t

-- What the parser makes of a context: the counts, the pointers and the two lengths.
abbrev pub parsed : ApiCtx → ApiCtx
parsed c =
    let bytes = c.api_data.buffer in
    record c {
      essence = record c.essence {
        inputs_count = inputs_number bytes;
        length = u16 (essence_end bytes);
        inputs = some inputs_start;
        outputs_count = outputs_number bytes;
        outputs = some (outputs_start bytes);
        inputs_bip32_index = some (essence_end bytes);
      };
      api_data = record c.api_data { length = u16 (layout_end bytes) };
    }

-- The context before the BIP32 indices are read.
abbrev measured :
    (t : Target) (c : ApiCtx) → length c.api_data.buffer ≡ api_buffer_size_bytes t → ApiCtx
measured t c full =
    let bytes = c.api_data.buffer in
    on_essence (λ e. record e { length = u16 (essence_end bytes) })
      (outputs_read t (inputs_read t c full 9 (inputs_number bytes)) full (outputs_count_at bytes)
        (outputs_number bytes))

-- On a buffer of bytes of the full size: one that holds an essence is read to its end, with the context that `parsed` describes, and
-- any other is refused with 0. The code neither throws nor reads outside the buffer.
pub parse_layout_lem :
    (t : Target) (c : ApiCtx)
    → length c.api_data.buffer ≡ api_buffer_size_bytes t
    → AreBytes c.api_data.buffer
    → Settles (IsEssence t c.api_data.buffer) tt (parsed c) (parse_layout t c)
unfolding parse_layout
parse_layout_lem t c full are =
    let bytes = c.api_data.buffer in
    let bounds = api_buffer_size_bytes_bounds t in
    let essence_type = le (slice 0 1 bytes) in
    Settles-iff _ (IsEssence t bytes) _
      (λ p.
        let ins = p.1.1.1.0 in
        let outs = p.1.1.1.1.1.0 in
        let bip32 = p.1.1.1.1.1.1.1.0 in
        record {
          essence_type = p.1.0;
          inputs_counted = ins.0;
          inputs_valid = ins.2;
          outputs_counted = outs.0;
          outputs_valid = outs.2.0;
          amounts_fit = omega (arith, outs.2.1);
          paths_hardened = bip32.1;
          fits = bip32.0;
        })
      (λ q.
        let end = q.fits in
        (
          omega (arith, end),
          (
            q.essence_type,
            (
              omega (arith, end),
              (
                (q.inputs_counted, omega (arith, end), q.inputs_valid),
                (
                  omega (arith, end),
                  (
                    (
                      q.outputs_counted,
                      omega (arith, end),
                      (q.outputs_valid, omega (arith, q.amounts_fit)),
                    ),
                    (omega (arith, end), ((end, q.paths_hardened), tt)),
                  ),
                ),
              ),
            ),
          ),
        ))
      (Settles-lift _ _ (get_uint8_lem t bytes full 0 (omega arith)) (λ _.
        Settles-must (essence_type == 1) _ _ (==_iff essence_type 1).0 (==_iff essence_type 1).1
          (λ _. Settles-lift _ _ (validate_skip_bytes_lem t 1 8 (omega arith) (omega arith)) (λ p9.
            Settles-bind _ _ (validate_inputs_lem t c full 9 p9) (λ ins.
              Settles-lift _ _
                (validate_skip_bytes_lem t (inputs_start + sizeof_utxo_input * inputs_number bytes)
                  32 (omega (arith, ins.1)) (omega arith))
                (λ p.
                  Settles-bind _ _
                    (validate_outputs_lem t (inputs_read t c full 9 (inputs_number bytes)) full
                      (outputs_count_at bytes) are p)
                    (λ outs.
                      Settles-lift _ _
                        (validate_payload_lem t bytes full (payload_at bytes)
                          (omega (arith, outs.1)))
                        (λ e.
                          Settles-bind _ _
                            (validate_inputs_bip32_lem t (measured t c full) full
                              (essence_end bytes) e)
                            (λ _. Settles-pure)))))))))
