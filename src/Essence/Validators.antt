-- ===== src/Essence/Validators.antt =====
-- What each validator of src/iota/essence_stardust.c accepts, where it goes on, and what it writes.
use ledger_iota_app.Prelude.{
  ℕ, ◌+◌, ◌*◌, ◌^◌, ◌≤◌, ◌<◌, ◌≡◌, true, ◌&&◌, some, List, arith, All, length, slice, le, u32, ltb,
  leb, lt→ltb, ltb→lt, AreBytes,
}
use ledger_iota_app.Exec.Laws.{
  Yields, Yields-iff, Yields-⟫, Settles, Settles-iff, Settles-lift, Settles-must, Settles-pure,
}
use ledger_iota_app.Constants.{Target, api_buffer_size_bytes, api_buffer_size_bytes_bounds}
use ledger_iota_app.Types.{ApiCtx, sizeof_utxo_input, sizeof_basic_output, sizeof_bip32_index}
use ledger_iota_app.Reader.{records}
use ledger_iota_app.Reader.Laws.{
  Yields-guard, Yields-guarded, get_uint32_lem, get_uint16_lem, scan-Yields,
}
use ledger_iota_app.Essence.{
  on_essence, validate_inputs, validate_outputs, validate_payload, validate_skip_bytes,
  validate_inputs_bip32, check_input, check_output, check_bip32_index, sum_lower_than,
}
use ledger_iota_app.Essence.Records.{
  IsInput, AreOutputs, IsHardened, All-FitsAmount, over_inputs, over_outputs, over_bip32,
}

-- `validate_skip_bytes` succeeds exactly when the skipped bytes end before the last byte.
pub validate_skip_bytes_lem :
    (t : Target) (idx n : ℕ)
    → idx < 2 ^ 16
    → n < 2 ^ 16
    → Yields (idx + n < api_buffer_size_bytes t) (idx + n) (validate_skip_bytes t idx n)
unfolding validate_skip_bytes
validate_skip_bytes_lem t idx n h k =
    let small : u32 (idx + n) ≡ idx + n = omega arith in
    rw small (Yields-guard (ltb (idx + n) (api_buffer_size_bytes t)) _ _ (ltb→lt _ _) (lt→ltb _ _))

-- The sum test sees through the wrap-around.
sum_lower_than_iff :
    (a b sum : ℕ)
    → sum < 2 ^ 16
    → (sum_lower_than a b sum ≡ true → a + b < sum) × (a + b < sum → sum_lower_than a b sum ≡ true)
sum_lower_than_iff a b sum h = ground arith

module _ (t : Target) (bytes : List ℕ) (full : length bytes ≡ api_buffer_size_bytes t) where
  -- `validate_payload` succeeds exactly when the payload ends inside the buffer.
  pub validate_payload_lem :
      (idx : ℕ)
      → idx < 2 ^ 16
      → Yields
          (idx + 4 + le (slice idx 4 bytes) < api_buffer_size_bytes t)
          (idx + 4 + le (slice idx 4 bytes))
          (validate_payload t bytes idx)
  unfolding validate_payload
  validate_payload_lem idx h =
      let p = le (slice idx 4 bytes) in
      let test =
        sum_lower_than_iff (idx + 4) p (api_buffer_size_bytes t)
          (omega (arith, api_buffer_size_bytes_bounds t)) in
      Yields-iff (idx + 4 < api_buffer_size_bytes t × idx + 4 + p < api_buffer_size_bytes t) _ _
        (λ both. both.1) (λ q. (omega arith, q))
        (Yields-⟫ _ (idx + 4 + p < api_buffer_size_bytes t) _ _ (get_uint32_lem t bytes full idx h)
          (λ _.
            Yields-guarded (sum_lower_than (idx + 4) p (api_buffer_size_bytes t)) (idx + 4 + p)
              (u32 (idx + 4 + p)) _ test.0 test.1
              (λ q. omega (arith, q, api_buffer_size_bytes_bounds t))))

-- A count that the code accepts.
abbrev pub IsCount : ℕ → Type 0
IsCount n = (1 ≤ n) × (n ≤ 128)

pub IsCount-test :
    (n : ℕ)
    → ((leb 1 n && leb n 128) ≡ true → IsCount n) × (IsCount n → (leb 1 n && leb n 128) ≡ true)
IsCount-test n = ground arith

module _ (t : Target) (c : ApiCtx) (full : length c.api_data.buffer ≡ api_buffer_size_bytes t) where
  abbrev bytes : List ℕ
  bytes = c.api_data.buffer

  -- `n` inputs behind a count at `idx`.
  abbrev pub InputsAt : ℕ → ℕ → Type 0
  InputsAt idx n =
      IsCount n
      × (idx + 2 + sizeof_utxo_input * n < api_buffer_size_bytes t)
      × All IsInput (records bytes sizeof_utxo_input (idx + 2) n)

  abbrev pub inputs_read : ℕ → ℕ → ApiCtx
  inputs_read idx n = on_essence (λ e. record e { inputs_count = n; inputs = some (idx + 2) }) c

  pub validate_inputs_lem :
      (idx : ℕ)
      → idx < api_buffer_size_bytes t
      → let n = le (slice idx 2 bytes) in
        Settles
          (InputsAt idx n)
          (idx + 2 + sizeof_utxo_input * n)
          (inputs_read idx n)
          (validate_inputs t idx c)
  unfolding validate_inputs
  validate_inputs_lem idx h =
      let n = le (slice idx 2 bytes) in
      let small : idx < 2 ^ 16 = omega (arith, api_buffer_size_bytes_bounds t) in
      Settles-iff _ (InputsAt idx n) _ (λ p. (p.1.0, p.1.1.0.0, p.1.1.0.1))
        (λ q. (omega (arith, q.1), (q.0, ((q.1, q.2), tt))))
        (Settles-lift _ _ (get_uint16_lem t bytes full idx small) (λ q.
          Settles-must (leb 1 n && leb n 128) _ _ (IsCount-test n).0 (IsCount-test n).1 (λ ok'.
            Settles-lift _ _
              (scan-Yields t bytes full sizeof_utxo_input check_input (omega arith) n (idx + 2) tt q
                (over_inputs _))
              (λ _. Settles-pure))))

  -- `n` outputs behind a count at `idx`, whose amounts add up below 2 ^ 64.
  abbrev pub OutputsAt : ℕ → ℕ → Type 0
  OutputsAt idx n =
      IsCount n
      × (idx + 2 + sizeof_basic_output * n < api_buffer_size_bytes t)
      × AreOutputs 0 (records bytes sizeof_basic_output (idx + 2) n)

  abbrev pub outputs_read : ℕ → ℕ → ApiCtx
  outputs_read idx n = on_essence (λ e. record e { outputs_count = n; outputs = some (idx + 2) }) c

  -- On a buffer of bytes of the full size and an index inside it, `validate_outputs` returns 1, with
  -- the index behind the outputs, the count and the pointer stored, if the count is between 1 and
  -- 128, the outputs end below the size of the buffer, each is one that the app accepts, and their
  -- amounts add up below 2 ^ 64; otherwise it returns 0. It neither throws nor reads outside.
  pub validate_outputs_lem :
      (idx : ℕ)
      → AreBytes bytes
      → idx < api_buffer_size_bytes t
      → let n = le (slice idx 2 bytes) in
        Settles
          (OutputsAt idx n)
          (idx + 2 + sizeof_basic_output * n)
          (outputs_read idx n)
          (validate_outputs t idx c)
  unfolding validate_outputs
  validate_outputs_lem idx are h =
      let n = le (slice idx 2 bytes) in
      let small : idx < 2 ^ 16 = omega (arith, api_buffer_size_bytes_bounds t) in
      let rs = records bytes sizeof_basic_output (idx + 2) n in
      Settles-iff _ (OutputsAt idx n) _ (λ p. (p.1.0, p.1.1.0.0, p.1.1.0.1))
        (λ q. (omega (arith, q.1), (q.0, ((q.1, q.2), tt))))
        (Settles-lift _ _ (get_uint16_lem t bytes full idx small) (λ q.
          Settles-must (leb 1 n && leb n 128) _ _ (IsCount-test n).0 (IsCount-test n).1 (λ ok'.
            Settles-lift _ _
              (scan-Yields t bytes full sizeof_basic_output check_output (omega arith) n (idx + 2) 0
                q (over_outputs 0 rs (omega arith) (All-FitsAmount bytes (idx + 2) n are)))
              (λ _. Settles-pure))))

  -- As many BIP32 indices as inputs, from `idx` on.
  abbrev pub Bip32At : ℕ → Type 0
  Bip32At idx =
      (idx + sizeof_bip32_index * c.essence.inputs_count < api_buffer_size_bytes t)
      × All IsHardened (records bytes sizeof_bip32_index idx c.essence.inputs_count)

  abbrev pub bip32_read : ℕ → ApiCtx
  bip32_read idx = on_essence (λ e. record e { inputs_bip32_index = some idx }) c

  pub validate_inputs_bip32_lem :
      (idx : ℕ)
      → idx < api_buffer_size_bytes t
      → Settles
          (Bip32At idx)
          (idx + sizeof_bip32_index * c.essence.inputs_count)
          (bip32_read idx)
          (validate_inputs_bip32 t idx c)
  unfolding validate_inputs_bip32
  validate_inputs_bip32_lem idx h =
      Settles-iff _ (Bip32At idx) _ (λ p. p.0) (λ q. (q, tt))
        (Settles-lift _ _
          (scan-Yields t bytes full sizeof_bip32_index check_bip32_index (omega arith)
            c.essence.inputs_count idx tt h (over_bip32 _))
          (λ _. Settles-pure))
