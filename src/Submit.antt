-- ===== src/Submit.antt =====
-- crates/solver/src/executor/executor.rs: `submit_with_rpc_backoff`. The node's answer to each
-- attempt, whether the shutdown token fires during the sleep after it, and whether the transaction
-- builder takes the batch's components are inputs; times are in milliseconds.
pub mod Attempts
use solver.Prelude.{
  ℕ, zero, suc, ◌+◌, ◌*◌, ◌-◌, Bool, Option, none, some, List, [], ◌∷◌, min, ◌==◌, nat_eq,
  if◌then◌else◌,
}

abbrev pub max_rpc_retries : ℕ
max_rpc_retries = 5

abbrev pub initial_rpc_backoff : ℕ
initial_rpc_backoff = 500

abbrev pub max_rpc_backoff : ℕ
max_rpc_backoff = 30 * 1000

pub data SubmitOutcome : Type 0 where
  success rpc_exhausted tx_error build_failed cancelled : SubmitOutcome

-- `submit_new_transaction`: a transaction id, or an error that `is_transient_rpc_error` or not.
pub data SubmitResult : Type 0 where
  accepted transient rejected : SubmitResult

pub record Chain : Type 0 where
  pub builds : Bool
  pub submit : ℕ → SubmitResult
  pub shutdown : ℕ → Bool

-- The outcome, `none` for the `unreachable!` behind the loop, the number of submits and the sleeps.
pub record Submitted : Type 0 where
  pub outcome : Option SubmitOutcome
  pub submits : ℕ
  pub sleeps : List ℕ

unfoldable pub returns : SubmitOutcome → ℕ → Submitted
returns outcome submits = record { outcome = some outcome; submits = submits; sleeps = [] }

unfoldable pub after_sleep : ℕ → Submitted → Submitted
after_sleep backoff r = record r { submits = suc r.submits; sleeps = backoff ∷ r.sleeps }

-- The `match` on the answer to an attempt, with the run that follows a sleep.
unfoldable pub after_answer : Chain → ℕ → ℕ → Submitted → SubmitResult → Submitted
after_answer chain attempt backoff later accepted = returns success 1
after_answer chain attempt backoff later transient =
    if attempt == max_rpc_retries
    then returns rpc_exhausted 1
    else if chain.shutdown attempt
    then record { outcome = some cancelled; submits = 1; sleeps = backoff ∷ [] }
    else after_sleep backoff later
after_answer chain attempt backoff later rejected = returns tx_error 1

-- `for attempt in 0..=MAX_RPC_RETRIES`, with the number of attempts that are left.
unfoldable pub submit_loop : Chain → ℕ → ℕ → ℕ → Submitted
submit_loop chain zero attempt backoff = record { outcome = none; submits = 0; sleeps = [] }
submit_loop chain (suc left) attempt backoff =
    let later = submit_loop chain left (suc attempt) (min (backoff * 2) max_rpc_backoff) in
    if chain.builds
    then after_answer chain attempt backoff later (chain.submit attempt)
    else returns build_failed 0

unfoldable pub submit_with_rpc_backoff : Chain → Submitted
submit_with_rpc_backoff chain = submit_loop chain (suc max_rpc_retries) 0 initial_rpc_backoff
