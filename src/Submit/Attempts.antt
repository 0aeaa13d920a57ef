-- ===== src/Submit/Attempts.antt =====
-- How often a batch is submitted, how long the loop sleeps, and that it always returns.
use solver.Prelude.{
  ℕ, zero, suc, ◌+◌, ◌*◌, ◌<◌, ◌≤◌, ◌≡◌, refl, ap, ◌∙◌, true, false, some, List, [], ◌∷◌, inl, inr,
  ◌≢◌, ◌⊎◌, Bool-cases, if◌then◌else◌, ◌==◌, nat_eq, min, arith, is_some,
}
use solver.Submit.{
  max_rpc_retries, initial_rpc_backoff, max_rpc_backoff, SubmitOutcome, success, rpc_exhausted,
  tx_error, build_failed, SubmitResult, accepted, transient, rejected, Chain, Submitted, returns,
  after_sleep, after_answer, submit_loop, submit_with_rpc_backoff,
}

abbrev pub sum : List ℕ → ℕ
sum [] = 0
sum (n ∷ ns) = n + sum ns

-- The longest time that a run with `left` retries sleeps from a backoff of `b` on.
abbrev longest : ℕ → ℕ → ℕ
longest zero b = 0
longest (suc left) b = b + longest left (min (b * 2) max_rpc_backoff)

abbrev Bounded : ℕ → ℕ → Submitted → Type 0
Bounded left b r =
    (is_some r.outcome ≡ true) × (r.submits ≤ suc left) × (sum r.sleeps ≤ longest left b)

after_answer-Bounded :
    (chain : Chain) (left attempt b : ℕ) (later : Submitted) (answer : SubmitResult)
    → attempt + suc left ≡ max_rpc_retries
    → Bounded left (min (b * 2) max_rpc_backoff) later
    → Bounded (suc left) b (after_answer chain attempt b later answer)
unfolding after_answer returns after_sleep
after_answer-Bounded chain left attempt b later accepted h rest = (refl, omega arith, omega arith)
after_answer-Bounded chain left attempt b later rejected h rest = (refl, omega arith, omega arith)
after_answer-Bounded chain left attempt b later transient h rest =
    let more : (attempt == max_rpc_retries) ≡ false = ground arith in
    elim (Bool-cases (chain.shutdown attempt)) [
      | inl stops ↦ rw (more, stops) (refl, omega arith, omega arith)
      | inr goes ↦ rw (more, goes) (rest.0, omega (arith, rest.1), omega (arith, rest.2))
    ]

after_answer-Bounded_last :
    (chain : Chain) (attempt b : ℕ) (later : Submitted) (answer : SubmitResult)
    → attempt ≡ max_rpc_retries
    → Bounded 0 b (after_answer chain attempt b later answer)
unfolding after_answer returns
after_answer-Bounded_last chain attempt b later accepted h = (refl, omega arith, omega arith)
after_answer-Bounded_last chain attempt b later rejected h = (refl, omega arith, omega arith)
after_answer-Bounded_last chain attempt b later transient h =
    let last : (attempt == max_rpc_retries) ≡ true = ground arith in
    rw last (refl, omega arith, omega arith)

-- A turn of the loop where the transaction can be built.
submit_loop_step :
    (chain : Chain) (left attempt b : ℕ)
    → chain.builds ≡ true
    → submit_loop chain (suc left) attempt b
      ≡ after_answer chain attempt b
          (submit_loop chain left (suc attempt) (min (b * 2) max_rpc_backoff))
          (chain.submit attempt)
unfolding submit_loop
submit_loop_step chain left attempt b builds =
    ap
      (λ t.
        if t
        then after_answer chain attempt b
            (submit_loop chain left (suc attempt) (min (b * 2) max_rpc_backoff))
            (chain.submit attempt)
        else returns build_failed 0)
      builds

submit_loop-Bounded :
    (chain : Chain) (left attempt b : ℕ)
    → attempt + left ≡ max_rpc_retries
    → Bounded left b (submit_loop chain (suc left) attempt b)
unfolding submit_loop returns
submit_loop-Bounded chain zero attempt b h = elim (Bool-cases chain.builds) [
  | inr fails ↦ rw (submit_loop, fails) (refl, omega arith, omega arith)
  | inl builds ↦
      rw (submit_loop_step chain zero attempt b builds)
        (after_answer-Bounded_last chain attempt b _ (chain.submit attempt) (omega arith))
]
submit_loop-Bounded chain (suc left) attempt b h =
    let rest =
      submit_loop-Bounded chain left (suc attempt) (min (b * 2) max_rpc_backoff) (omega arith) in
    elim (Bool-cases chain.builds) [
      | inr fails ↦ rw (submit_loop, fails) (refl, omega arith, omega arith)
      | inl builds ↦
          rw (submit_loop_step chain (suc left) attempt b builds)
            (after_answer-Bounded chain left attempt b _ (chain.submit attempt) h rest)
    ]

-- Whatever the node answers and whenever the shutdown comes, the loop returns an outcome (the
-- `unreachable!` behind it is never reached) after at most six submits and sleeps of at most 15.5
-- seconds in all.
pub submit_with_rpc_backoff-Bounded :
    (chain : Chain)
    → (is_some (submit_with_rpc_backoff chain).outcome ≡ true)
      × ((submit_with_rpc_backoff chain).submits ≤ 6)
      × (sum (submit_with_rpc_backoff chain).sleeps ≤ 15500)
unfolding submit_with_rpc_backoff
submit_with_rpc_backoff-Bounded chain = submit_loop-Bounded chain 5 0 initial_rpc_backoff refl

-- What the loop makes of the answer to its last attempt.
abbrev verdict : SubmitResult → SubmitOutcome
verdict accepted = success
verdict transient = rpc_exhausted
verdict rejected = tx_error

abbrev IsDecided : SubmitResult → ℕ → Type 0
IsDecided answer attempt = (answer ≢ transient) ⊎ (attempt ≡ max_rpc_retries)

after_answer-verdict :
    (chain : Chain) (attempt b : ℕ) (later : Submitted) (answer : SubmitResult)
    → IsDecided answer attempt
    → (after_answer chain attempt b later answer).outcome ≡ some (verdict answer)
unfolding after_answer returns
after_answer-verdict chain attempt b later accepted decided = refl
after_answer-verdict chain attempt b later rejected decided = refl
after_answer-verdict chain attempt b later transient (inl other) = absurd (other refl)
after_answer-verdict chain attempt b later transient (inr last) = ground arith

after_answer-waits :
    (chain : Chain) (attempt b : ℕ) (later : Submitted) (answer : SubmitResult)
    → answer ≡ transient
    → chain.shutdown attempt ≡ false
    → (attempt == max_rpc_retries) ≡ false
    → (after_answer chain attempt b later answer).outcome ≡ later.outcome
unfolding after_answer after_sleep
after_answer-waits chain attempt b later answer e goes more = rw (e, after_answer, more, goes) refl

submit_loop-verdict :
    (chain : Chain) (m left attempt b k : ℕ)
    → attempt + left ≡ max_rpc_retries
    → attempt + m ≡ k
    → chain.builds ≡ true
    → k ≤ max_rpc_retries
    → ((j : ℕ) → j < k → (chain.submit j ≡ transient) × (chain.shutdown j ≡ false))
    → IsDecided (chain.submit k) k
    → (submit_loop chain (suc left) attempt b).outcome ≡ some (verdict (chain.submit k))
submit_loop-verdict chain zero left attempt b k h at builds most waits decided =
    let here : attempt ≡ k = omega arith in
    rw (submit_loop_step chain left attempt b builds, here)
      (after_answer-verdict chain k b _ (chain.submit k) decided)
submit_loop-verdict chain (suc m) zero attempt b k h at builds most waits decided =
    absurd (omega arith)
submit_loop-verdict chain (suc m) (suc left) attempt b k h at builds most waits decided =
    let more : (attempt == max_rpc_retries) ≡ false = ground arith in
    let (failed, goes) = waits attempt (omega arith) in
    let rest =
      submit_loop-verdict chain m left (suc attempt) (min (b * 2) max_rpc_backoff) k (omega arith)
        (omega arith) builds most waits decided in
    rw (submit_loop_step chain (suc left) attempt b builds)
      (after_answer-waits chain attempt b _ (chain.submit attempt) failed goes more ∙ rest)

-- Where the transaction can be built, the attempts before the k-th one fail for the connection
-- alone and no shutdown comes in the sleeps after them, the batch is submitted again up to the
-- k-th attempt, and the answer to that one decides: an answer of the chain is what is returned,
-- and the sixth failure of the connection gives up.
pub submit_with_rpc_backoff-verdict :
    (chain : Chain) (k : ℕ)
    → chain.builds ≡ true
    → k ≤ max_rpc_retries
    → ((j : ℕ) → j < k → (chain.submit j ≡ transient) × (chain.shutdown j ≡ false))
    → IsDecided (chain.submit k) k
    → (submit_with_rpc_backoff chain).outcome ≡ some (verdict (chain.submit k))
unfolding submit_with_rpc_backoff
submit_with_rpc_backoff-verdict chain k builds most waits decided =
    submit_loop-verdict chain k 5 0 initial_rpc_backoff k refl (omega arith) builds most waits
      decided
