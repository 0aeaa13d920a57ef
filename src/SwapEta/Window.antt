-- ===== src/SwapEta/Window.antt =====
-- The window of settlement samples under a clock that does not run backwards.
use solver.Prelude.{
  In-append_right, ◌<◌, ℕ, suc, ◌-◌, ◌≤◌, ◌≡◌, refl, List, [], ◌∷◌, ◌++◌, inl, inr, arith,
  Bool-cases, length, ltb, In, false,
}
use solver.SwapEta.{
  Sample, drop_older, drop_excess, record_queue, window_secs, max_samples_per_pair,
}

-- The samples stand in the order of their times, from `lo` on and up to `hi`.
abbrev pub Within : ℕ → ℕ → List Sample → Type 0
Within lo hi [] = Unit
Within lo hi (s ∷ q) = (lo ≤ s.at_unix) × (s.at_unix ≤ hi) × Within s.at_unix hi q

Within-weaken : (lo lo' hi : ℕ) (q : List Sample) → lo' ≤ lo → Within lo hi q → Within lo' hi q
Within-weaken lo lo' hi [] h w = tt
Within-weaken lo lo' hi (s ∷ q) h w = (omega arith, w.1, w.2)

Within-push :
    (lo hi now : ℕ) (q : List Sample) (s : Sample)
    → lo ≤ now
    → hi ≤ now
    → s.at_unix ≡ now
    → Within lo hi q
    → Within lo now (q ++ s ∷ [])
Within-push lo hi now [] s h k e w = (omega arith, omega arith, tt)
Within-push lo hi now (x ∷ q) s h k e w =
    (w.0, omega arith, Within-push x.at_unix hi now q s (omega arith) k e w.2)

drop_older-Within :
    (cutoff lo hi : ℕ) (q : List Sample) → Within lo hi q → Within cutoff hi (drop_older cutoff q)
unfolding drop_older
drop_older-Within cutoff lo hi [] w = tt
drop_older-Within cutoff lo hi (s ∷ q) w = elim (Bool-cases (ltb s.at_unix cutoff)) [
  | inl old ↦ rw (old, drop_older) (drop_older-Within cutoff s.at_unix hi q w.2)
  | inr fresh ↦ rw (fresh, drop_older) (ground arith, w.1, w.2)
]

drop_excess-Within :
    (limit lo hi : ℕ) (q : List Sample) → Within lo hi q → Within lo hi (drop_excess limit q)
unfolding drop_excess
drop_excess-Within limit lo hi [] w = tt
drop_excess-Within limit lo hi (s ∷ q) w = elim (Bool-cases (ltb limit (suc (length q)))) [
  | inl more ↦
      rw (more, drop_excess)
        (drop_excess-Within limit lo hi q (Within-weaken s.at_unix lo hi q w.0 w.2))
  | inr fits ↦ rw (fits, drop_excess) w
]

length-drop_excess-le : (limit : ℕ) (q : List Sample) → length (drop_excess limit q) ≤ limit
unfolding drop_excess
length-drop_excess-le limit [] = omega arith
length-drop_excess-le limit (s ∷ q) = ground (arith, length-drop_excess-le limit q)

-- A sample that is not too old stays at the back.
drop_older-append :
    (cutoff : ℕ) (q : List Sample) (s : Sample)
    → cutoff ≤ s.at_unix
    → drop_older cutoff (q ++ s ∷ []) ≡ drop_older cutoff q ++ s ∷ []
unfolding drop_older
drop_older-append cutoff [] s h =
    let fresh : ltb s.at_unix cutoff ≡ false = ground arith in rw (fresh, drop_older)
drop_older-append cutoff (x ∷ q) s h = elim (Bool-cases (ltb x.at_unix cutoff)) [
  | inl old ↦ rw (old, drop_older) (drop_older-append cutoff q s h)
  | inr fresh ↦ rw (fresh, drop_older)
]

drop_excess-In :
    (limit : ℕ) (q : List Sample) (s : Sample) → 0 < limit → In s (drop_excess limit (q ++ s ∷ []))
unfolding drop_excess
drop_excess-In limit [] s pos =
    let fits : ltb limit 1 ≡ false = ground arith in rw (fits, drop_excess) (inl refl)
drop_excess-In limit (x ∷ q) s pos = elim (Bool-cases (ltb limit (suc (length (q ++ s ∷ []))))) [
  | inl more ↦ rw (more, drop_excess) (drop_excess-In limit q s pos)
  | inr fits ↦ rw (fits, drop_excess) (inr (In-append_right s q (s ∷ []) (inl refl)))
]

-- A settlement recorded at a time not before those of the queue stands in the queue that it leaves,
-- which has at most the cap of samples, in the order of their times, none older than the window.
pub record_queue-Within :
    (q : List Sample) (lo hi now_unix duration_secs : ℕ)
    → lo ≤ now_unix
    → hi ≤ now_unix
    → Within lo hi q
    → Within (now_unix - window_secs) now_unix (record_queue q now_unix duration_secs)
      × (length (record_queue q now_unix duration_secs) ≤ max_samples_per_pair)
      × In
          (record { at_unix = now_unix; duration_secs = duration_secs })
          (record_queue q now_unix duration_secs)
unfolding record_queue
record_queue-Within q lo hi now_unix duration_secs h k w =
    let s : Sample = record { at_unix = now_unix; duration_secs = duration_secs } in
    let cutoff : ℕ = now_unix - window_secs in
    let pushed = Within-push lo hi now_unix q s h k refl w in
    let kept = drop_older-Within cutoff lo now_unix (q ++ s ∷ []) pushed in
    (
      drop_excess-Within max_samples_per_pair _ now_unix _ kept,
      length-drop_excess-le max_samples_per_pair _,
      rw (drop_older-append cutoff q s (omega arith))
          (drop_excess-In max_samples_per_pair (drop_older cutoff q) s (omega arith)),
    )
