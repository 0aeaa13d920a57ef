-- ===== src/Server/Opening.antt =====
-- The three updates with which a connection opens.
use solver.Prelude.{
  ℕ, suc, ◌≤◌, ◌<◌, ◌≡◌, refl, true, none, [], inl, inr, Bool, Option-cases, nat_eq, arith, is_some,
  u64_mod,
}
use solver.Prelude.Maps.{get, insert, remove, get-remove_self}
use solver.Prelude.Entries.{
  insert-AllEntries, remove-AllEntries, get-AllEntries, insert-UniqueKeys, remove-UniqueKeys,
  length-insert_new, length-remove_old,
}
use solver.Order.{DexId}
use solver.Server.{Server, take_dex, count_conn, store_conn, Begun}
use solver.Server.Ids.{
  Frames, IsCounted, is_some-cases, fresh_id, below_suc, AreApart-remove, AreApart-insert_left,
  AreApart-insert_right, AreApart-remove_right,
}

pub take_dex-IsCounted :
    (n : ℕ) (taken counted : Begun) (s : Server)
    → suc n < u64_mod
    → IsCounted n taken counted s
    → IsCounted (suc n) (insert s.next_dex true taken) counted (take_dex s)
unfolding take_dex
take_dex-IsCounted n taken counted s small h =
    let id : s.next_dex ≡ suc n = omega (arith, h.next_lem) in
    let new = fresh_id n taken h.taken_below in
    rw id (record {
      next_lem = omega arith;
      taken_below =
          insert-AllEntries (λ (dex : DexId) (b : Bool). dex ≤ suc n) (suc n) true taken
            (omega arith) (below_suc n taken h.taken_below);
      counted_below = below_suc n counted h.counted_below;
      conns_below = below_suc n s.router.conns h.conns_below;
      taken_unique = insert-UniqueKeys (suc n) true taken h.taken_unique;
      counted_unique = h.counted_unique;
      conns_unique = h.conns_unique;
      taken_counted =
          AreApart-insert_left (suc n) taken counted (fresh_id n counted h.counted_below)
            h.taken_counted;
      taken_conns =
          AreApart-insert_left (suc n) taken s.router.conns
            (fresh_id n s.router.conns h.conns_below) h.taken_conns;
      counted_conns = h.counted_conns;
      few = omega (arith, h.few, length-insert_new (suc n) true taken new);
      count_lem = h.count_lem;
    })

pub count_conn-IsCounted :
    (n : ℕ) (taken counted : Begun) (s : Server) (dex : DexId)
    → n < u64_mod
    → is_some (get dex taken) ≡ true
    → IsCounted n taken counted s
    → IsCounted n (remove dex taken) (insert dex true counted) (count_conn s)
unfolding count_conn
count_conn-IsCounted n taken counted s dex small there h =
    let (b, at) = is_some-cases (get dex taken) there in
    let free = h.taken_counted dex there in
    let fewer = length-remove_old dex taken h.taken_unique at in
    let more = length-insert_new dex true counted free in
    record {
      next_lem = h.next_lem;
      taken_below = remove-AllEntries (λ (dex : DexId) (b : Bool). dex ≤ n) dex taken h.taken_below;
      counted_below =
          insert-AllEntries (λ (dex : DexId) (b : Bool). dex ≤ n) dex true counted
            (get-AllEntries (λ (dex : DexId) (b : Bool). dex ≤ n) dex taken h.taken_below at)
            h.counted_below;
      conns_below = h.conns_below;
      taken_unique = remove-UniqueKeys dex taken h.taken_unique;
      counted_unique = insert-UniqueKeys dex true counted h.counted_unique;
      conns_unique = h.conns_unique;
      taken_counted =
          AreApart-insert_right dex true (remove dex taken) counted (get-remove_self dex taken)
            (AreApart-remove dex taken counted h.taken_counted);
      taken_conns = AreApart-remove dex taken s.router.conns h.taken_conns;
      counted_conns =
          AreApart-insert_left dex counted s.router.conns (h.taken_conns dex there) h.counted_conns;
      few = omega (arith, h.few, fewer, more);
      count_lem = omega (arith, h.few, h.count_lem, fewer, more);
    }

pub store_conn-IsCounted :
    (n : ℕ) (taken counted : Begun) (s : Server) (dex : DexId)
    → is_some (get dex counted) ≡ true
    → IsCounted n taken counted s
    → IsCounted n taken (remove dex counted) (store_conn s dex)
unfolding store_conn
store_conn-IsCounted n taken counted s dex there h =
    let (b, at) = is_some-cases (get dex counted) there in
    let free = h.counted_conns dex there in
    let fewer = length-remove_old dex counted h.counted_unique at in
    let more = length-insert_new dex [] s.router.conns free in
    record {
      next_lem = h.next_lem;
      taken_below = h.taken_below;
      counted_below =
          remove-AllEntries (λ (dex : DexId) (b : Bool). dex ≤ n) dex counted h.counted_below;
      conns_below =
          insert-AllEntries (λ (dex : DexId) (frames : Frames). dex ≤ n) dex [] s.router.conns
            (get-AllEntries (λ (dex : DexId) (b : Bool). dex ≤ n) dex counted h.counted_below at)
            h.conns_below;
      taken_unique = h.taken_unique;
      counted_unique = remove-UniqueKeys dex counted h.counted_unique;
      conns_unique = insert-UniqueKeys dex [] s.router.conns h.conns_unique;
      taken_counted = AreApart-remove_right dex taken counted h.taken_counted;
      taken_conns =
          AreApart-insert_right dex [] taken s.router.conns (not_taken dex there) h.taken_conns;
      counted_conns =
          AreApart-insert_right dex [] (remove dex counted) s.router.conns
            (get-remove_self dex counted)
            (AreApart-remove dex counted s.router.conns h.counted_conns);
      few = omega (arith, h.few, fewer, more);
      count_lem = omega (arith, h.count_lem, fewer, more);
    }
  where
    not_taken : (dex : DexId) → is_some (get dex counted) ≡ true → get dex taken ≡ none
    not_taken dex there = elim (Option-cases (get dex taken)) [
      | inl e ↦ e
      | inr (b, e) ↦ absurd (cc (rw (h.taken_counted dex (rw e refl)) at there))
    ]
