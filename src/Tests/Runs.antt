-- ===== src/Tests/Runs.antt =====
-- The theorems on whole runs of the app, on a device that is started and told to set the account.
use ledger_iota_app.Prelude.{[], ◌<◌, ◌⊎◌, ◌++◌, ℕ, ◌≡◌, false, List, ◌∷◌, AreBytes, arith}
use ledger_iota_app.Exec.{ok}
use ledger_iota_app.Constants.Ins
use ledger_iota_app.Device.{Device}
use ledger_iota_app.Main.{main_step, round, start}
use ledger_iota_app.Safety.{IsSound, IsSdk}
use ledger_iota_app.Safety.Runs.{Runs, started, packet, runs_lem}
use ledger_iota_app.Safety.Restarts.{main_step_lem}
use ledger_iota_app.Exchange.{AnsweredOnce}
use ledger_iota_app.Exchange.Timeout.{ticks, at_tick, IsTimedOut, answer_lem}
use ledger_iota_app.Tests.{build, sdk, device, hardened_zero}

pub sdk-IsSdk : IsSdk sdk
sdk-IsSdk = record {
  hash_length = λ bytes hash e. ground arith;
  hash_bytes = λ bytes hash e. ground arith;
}

-- `INS_SET_ACCOUNT` for Shimmer
abbrev set_account_packet : List ℕ
set_account_packet = Ins.cla ∷ Ins.set_account ∷ 3 ∷ 0 ∷ 4 ∷ hardened_zero

set_account_packet-AreBytes : AreBytes set_account_packet
set_account_packet-AreBytes = ground arith

abbrev pub ran : Device
ran = (round build sdk set_account_packet false (start build device).1).1

pub ran-Runs : Runs build sdk ran
ran-Runs = packet set_account_packet false set_account_packet-AreBytes (started device)

runs_example : IsSound build ran.api
runs_example = runs_lem build sdk ran (omega arith) sdk-IsSdk ran-Runs

-- `INS_GENERATE_ADDRESS` for one address that is to be shown
abbrev address_packet : List ℕ
address_packet =
    Ins.cla
    ∷ Ins.generate_address
    ∷ 1
    ∷ 0
    ∷ 12
    ∷ (hardened_zero ++ (hardened_zero ++ (1 ∷ 0 ∷ 0 ∷ 0 ∷ [])))

address_packet-AreBytes : AreBytes address_packet
address_packet-AreBytes = ground arith

abbrev showing : Device
showing = (round build sdk address_packet false ran).1

answer_example :
    AnsweredOnce ran.sent showing.sent
    ⊎ ((showing.sent ≡ ran.sent)
        × ((n : ℕ) → n < 1000 → ticks build sdk n showing ≡ at_tick n showing)
        × IsTimedOut showing (ticks build sdk 1000 showing))
answer_example =
    answer_lem build sdk ran address_packet false (omega arith) sdk-IsSdk ran-Runs
      address_packet-AreBytes (λ e. omega (arith, e))

main_step_example :
    ((main_step build sdk [] false ran).0 ≡ ok tt)
    × Runs build sdk (main_step build sdk [] false ran).1
main_step_example = main_step_lem build sdk ran [] false (omega arith) sdk-IsSdk ran-Runs tt
