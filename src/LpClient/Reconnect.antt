-- ===== src/LpClient/Reconnect.antt =====
-- The delays between attempts to reconnect, and that no stale quote is sent.
use solver.Prelude.{
  ℕ, zero, suc, ◌≤◌, ◌≡◌, refl, sym, ap, subst, Bool, true, false, some, List, [], ◌∷◌, ◌++◌, inl,
  inr, Option-cases, if◌then◌else◌, leb, arith, All, All-append, eq_of_some,
}
use solver.Wire.{ClientMsg}
use solver.LpClient.{
  reconnect_min, reconnect_max, LpEvent, Backoff, first_backoff, after_uptime, next_attempt,
  Attempt, client_dropped, connected, auth_rejected, transport_error, Reconnection, after_attempt,
  ends, reconnect, Connection, write_out, Supervised, drain, resume, supervise_loop, supervise,
  read_frames,
}

abbrev pub IsDelay : ℕ → Type 0
IsDelay n = (reconnect_min ≤ n) × (n ≤ reconnect_max)

next_attempt-IsDelay : (b : Backoff) → IsDelay b.delay → IsDelay (next_attempt b).delay
unfolding next_attempt
next_attempt-IsDelay b h = (omega (arith, h.0), omega arith)

after_uptime-IsDelay :
    (uptime : ℕ) (b : Backoff) → IsDelay b.delay → IsDelay (after_uptime uptime b).delay
unfolding after_uptime first_backoff
after_uptime-IsDelay uptime b h = go (leb 10000 uptime)
  where
    go : (t : Bool) → IsDelay (if t then first_backoff else b).delay
    go true = (omega arith, omega arith)
    go false = h

-- What a backoff sleeps is in bounds, and so is the delay that it leaves.
abbrev IsPaced : {Note : Type 0} → Reconnection Note → Type 0
IsPaced r = All IsDelay r.slept × ((b : Backoff) → r.live ≡ some b → IsDelay b.delay)

reconnect-IsPaced :
    (Note : Type 0) (attempts : List Attempt) (b : Backoff)
    → IsDelay b.delay
    → IsPaced (reconnect {Note = Note} b attempts)
unfolding reconnect after_attempt ends
reconnect-IsPaced Note [] b h = (tt, λ b' e. absurd (cc (e)))
reconnect-IsPaced Note (client_dropped ∷ attempts) b h = (tt, λ b' e. absurd (cc (e)))
reconnect-IsPaced Note (connected ∷ attempts) b h = ((h, tt), λ b' e. live b' e)
  where
    live : (b' : Backoff) → some (next_attempt b) ≡ some b' → IsDelay b'.delay
    live b' e = subst (λ (x : Backoff). IsDelay x.delay) (eq_of_some e) (next_attempt-IsDelay b h)
reconnect-IsPaced Note (auth_rejected ∷ attempts) b h = ((h, tt), λ b' e. absurd (cc (e)))
reconnect-IsPaced Note (transport_error ∷ attempts) b h =
    let rest = reconnect-IsPaced Note attempts (next_attempt b) (next_attempt-IsDelay b h) in
    ((h, rest.0), rest.1)

-- A message that was sent on a connection was posted while that connection was up.
abbrev IsPrefix : List ClientMsg → List ClientMsg → Type 0
IsPrefix sent posted = (rest : List ClientMsg) × (sent ++ rest ≡ posted)

abbrev pub IsFresh : {Note : Type 0} → List (Connection Note) → List (List ClientMsg) → Type 0
IsFresh connections [] = Unit
IsFresh [] (sent ∷ more) = ⊥
IsFresh (c ∷ connections) (sent ∷ more) = IsPrefix sent c.posted × IsFresh connections more

write_out-IsPrefix : (n : ℕ) (queue : List ClientMsg) → IsPrefix (write_out n queue).0 queue
unfolding write_out
write_out-IsPrefix zero queue = (queue, refl)
write_out-IsPrefix (suc n) [] = ([], refl)
write_out-IsPrefix (suc n) (m ∷ queue) =
    let (rest, e) = write_out-IsPrefix n queue in (rest, ap (λ q. m ∷ q) e)

drain_all : (queue : List ClientMsg) → drain queue ≡ []
unfolding drain
drain_all [] = refl
drain_all (m ∷ queue) = drain_all queue

abbrev IsSteady : {Note : Type 0} → List (Connection Note) → Supervised Note → Type 0
IsSteady connections r = All IsDelay r.slept × IsFresh connections r.sent

resume-IsSteady :
    {Note : Type 0} (c : Connection Note) (connections : List (Connection Note))
    (sent : List ClientMsg) (seen : List (LpEvent Note)) (r : Reconnection Note)
    (again : Backoff → Supervised Note)
    → IsPrefix sent c.posted
    → IsPaced r
    → ((b : Backoff) → IsDelay b.delay → IsSteady connections (again b))
    → IsSteady (c ∷ connections) (resume sent seen r again)
unfolding resume
resume-IsSteady c connections sent seen r again prefix paced later = elim (Option-cases r.live) [
  | inl e ↦ rw (resume, e) (paced.0, (prefix, tt))
  | inr (b, e) ↦
      let rest = later b (paced.1 b e) in
      rw (resume, e) (All-append IsDelay r.slept (again b).slept paced.0 rest.0, (prefix, rest.1))
]

supervise_loop-IsSteady :
    {Note : Type 0} (connections : List (Connection Note)) (b : Backoff)
    → IsDelay b.delay
    → IsSteady connections (supervise_loop b [] connections)
unfolding supervise_loop
supervise_loop-IsSteady [] b h = (tt, tt)
supervise_loop-IsSteady {Note} (c ∷ connections) b h =
    let paced =
      reconnect-IsPaced Note c.attempts (after_uptime c.uptime b)
        (after_uptime-IsDelay c.uptime b h) in
    let prefix = write_out-IsPrefix c.written c.posted in
    let queue = (write_out c.written c.posted).1 ++ c.posted_meanwhile in
    let again = λ (b' : Backoff). supervise_loop b' (drain queue) connections in
    let resumed =
      resume-IsSteady c connections (write_out c.written c.posted).0 (read_frames c.frames)
        (reconnect (after_uptime c.uptime b) c.attempts) again prefix paced
        (λ b' d.
          subst (λ q. IsSteady connections (supervise_loop b' q connections))
            (sym (drain_all queue)) (supervise_loop-IsSteady connections b' d)) in
    either c.client_gone _ _ (tt, (prefix, tt)) resumed
  where
    either :
        (t : Bool) (x y : Supervised Note)
        → IsSteady (c ∷ connections) x
        → IsSteady (c ∷ connections) y
        → IsSteady (c ∷ connections) (if t then x else y)
    either true x y u v = u
    either false x y u v = v

-- However the connections of a client end, every sleep before an attempt to reconnect is between
-- half a second and thirty seconds, and a connection carries only messages that were posted while
-- it was up, the first of them in their order: what was queued before it or while the link was
-- down is never sent, so no quote priced before a drop reaches the router after it.
pub supervise-IsSteady :
    {Note : Type 0} (connections : List (Connection Note))
    → All IsDelay (supervise connections).slept × IsFresh connections (supervise connections).sent
unfolding supervise first_backoff
supervise-IsSteady connections =
    supervise_loop-IsSteady connections first_backoff (omega arith, omega arith)
