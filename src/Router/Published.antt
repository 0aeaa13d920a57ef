-- ===== src/Router/Published.antt =====
-- The snapshot that the router publishes: it holds the quotes that the connections have registered
-- and that were not used since, well-formed, and the most generous first.
use solver.Prelude.{
  ℕ, ◌<◌, ◌≡◌, refl, sym, ◌∙◌, ap, Bool, true, false, ◌||◌, Option, none, some, List, [], ◌∷◌, ◌++◌,
  inl, inr, arith, Bool-cases, Option-cases, All, All-append, get_or, is_some, ◌==◌, nat_eq,
  pair_eq,
}
use solver.Prelude.Maps.{Map, get, insert, remove}
use solver.Prelude.Entries.{
  AllEntries, insert-AllEntries, remove-AllEntries, get-AllEntries, insert_same, remove_absent,
}
use solver.Order.{TokenId, DexId, Amount}
use solver.Book.{Pair}
use solver.Select.{Quote}
use solver.Matcher.{QuotesSnapshot, RoutedNote}
use solver.Router.{
  RouterState, new_router, group_quotes, group_all, sort_values, republish, quote_of,
  register_quote, send_frames, use_quotes, deliver, deregister,
}
use solver.Router.Sorting.{IsDescending, AreDemanding, sort_quotes-All, sort_quotes-IsDescending}

-- A quote stored for a DEX and a pair carries both, and its amounts are positive.
pub record IsOffered (dex : DexId) (pair : Pair) (q : Quote) : Type 0 where
  pub own_dex : q.dex ≡ dex
  pub own_pair : q.pair ≡ pair
  pub supply_pos : 0 < q.supply
  pub demand_pos : 0 < q.demand

-- The quotes of one DEX, and of all.
abbrev pub AreOffered : DexId → Map Pair Quote → Type 0
AreOffered dex m = AllEntries (IsOffered dex) m

abbrev pub AllOffered : Map DexId (Map Pair Quote) → Type 0
AllOffered quotes = AllEntries AreOffered quotes

-- A published quote is one of its pair, with positive amounts.
pub record IsListed (pair : Pair) (q : Quote) : Type 0 where
  pub own_pair : q.pair ≡ pair
  pub supply_pos : 0 < q.supply
  pub demand_pos : 0 < q.demand

abbrev pub AreListed : Pair → List Quote → Type 0
AreListed pair qs = All (IsListed pair) qs

-- What a subscriber may rely on.
abbrev pub IsPublished : QuotesSnapshot → Type 0
IsPublished snapshot = AllEntries (λ pair qs. AreListed pair qs × IsDescending qs) snapshot

get_or-AreListed :
    (pair : Pair) (by_pair : QuotesSnapshot)
    → AllEntries AreListed by_pair
    → AreListed pair (get_or (get pair by_pair) [])
get_or-AreListed pair by_pair a = go (get pair by_pair) refl
  where
    go : (found : Option (List Quote)) → get pair by_pair ≡ found → AreListed pair (get_or found [])
    go none g = tt
    go (some qs) g = get-AllEntries AreListed pair by_pair a g

group_quotes-AllEntries :
    (dex : DexId) (m : Map Pair Quote) (by_pair : QuotesSnapshot)
    → AreOffered dex m
    → AllEntries AreListed by_pair
    → AllEntries AreListed (group_quotes m by_pair)
unfolding group_quotes
group_quotes-AllEntries dex [] by_pair o a = a
group_quotes-AllEntries dex ((pair, q) ∷ m) by_pair o a =
    let listed : IsListed pair q = record {
      own_pair = o.0.own_pair;
      supply_pos = o.0.supply_pos;
      demand_pos = o.0.demand_pos;
    } in
    let before = get_or-AreListed pair by_pair a in
    group_quotes-AllEntries dex m _ o.1 (
      insert-AllEntries AreListed pair (get_or (get pair by_pair) [] ++ q ∷ []) by_pair
        (All-append (IsListed pair) (get_or (get pair by_pair) []) (q ∷ []) before (listed, tt)) a)

group_all-AllEntries :
    (quotes : Map DexId (Map Pair Quote)) (by_pair : QuotesSnapshot)
    → AllOffered quotes
    → AllEntries AreListed by_pair
    → AllEntries AreListed (group_all quotes by_pair)
unfolding group_all
group_all-AllEntries [] by_pair o a = a
group_all-AllEntries ((dex, m) ∷ quotes) by_pair o a =
    group_all-AllEntries quotes _ o.1 (group_quotes-AllEntries dex m by_pair o.0 a)

demanding : (pair : Pair) (qs : List Quote) → AreListed pair qs → AreDemanding qs
demanding pair [] a = tt
demanding pair (q ∷ qs) a = (a.0.demand_pos, demanding pair qs a.1)

sort_values-IsPublished :
    (by_pair : QuotesSnapshot) → AllEntries AreListed by_pair → IsPublished (sort_values by_pair)
unfolding sort_values
sort_values-IsPublished [] a = tt
sort_values-IsPublished ((pair, qs) ∷ by_pair) a = (
  (sort_quotes-All (IsListed pair) qs a.0, sort_quotes-IsDescending qs (demanding pair qs a.0)),
  sort_values-IsPublished by_pair a.1,
)

-- The snapshot of the quotes that are stored.
abbrev pub snapshot_of : Map DexId (Map Pair Quote) → QuotesSnapshot
snapshot_of quotes = sort_values (group_all quotes [])

-- Stored quotes are well-formed, and the snapshot is theirs.
pub record IsCurrent (s : RouterState) : Type 0 where
  pub offered : AllOffered s.quotes
  pub published : s.published ≡ snapshot_of s.quotes

republish-IsCurrent : (s : RouterState) → AllOffered s.quotes → IsCurrent (republish s)
unfolding republish
republish-IsCurrent s o = record { offered = o; published = refl }

new_router-IsCurrent : (ttl : ℕ) → IsCurrent (new_router ttl)
unfolding new_router sort_values group_all
new_router-IsCurrent ttl = record { offered = tt; published = refl }

register_quote-IsCurrent :
    (s : RouterState) (dex : DexId) (offered : TokenId × Amount) (requested : TokenId × Amount)
    (valid_for_ms : Option ℕ) (now : ℕ)
    → IsCurrent s
    → IsCurrent (register_quote s dex offered requested valid_for_ms now).0
unfolding register_quote quote_of
register_quote-IsCurrent s dex offered requested valid_for_ms now c =
    elim (Bool-cases (offered.1 == 0 || requested.1 == 0)) [
      | inl e ↦ rw (e, register_quote) c
      | inr e ↦
          let q = quote_of s dex offered requested valid_for_ms now in
          let new : IsOffered dex q.pair q = record {
            own_dex = refl;
            own_pair = refl;
            supply_pos = ground arith;
            demand_pos = ground arith;
          } in
          let held = get_or (get dex s.quotes) [] in
          rw (e, register_quote)
            (republish-IsCurrent (record s { quotes = insert dex (insert q.pair q held) s.quotes })
              (insert-AllEntries AreOffered dex (insert q.pair q held) s.quotes
                (insert-AllEntries (IsOffered dex) q.pair q held new
                  (held-AreOffered dex s.quotes c.offered))
                c.offered))
    ]
  where
    held-AreOffered :
        (dex : DexId) (quotes : Map DexId (Map Pair Quote))
        → AllOffered quotes
        → AreOffered dex (get_or (get dex quotes) [])
    held-AreOffered dex quotes o = go (get dex quotes) refl
      where
        go :
            (found : Option (Map Pair Quote))
            → get dex quotes ≡ found
            → AreOffered dex (get_or found [])
        go none g = tt
        go (some m) g = get-AllEntries AreOffered dex quotes o g

use_quotes-AllOffered :
    (quotes : Map DexId (Map Pair Quote)) (consumed : Bool) (items : List RoutedNote)
    → AllOffered quotes
    → AllOffered (use_quotes quotes consumed items).0
unfolding use_quotes
use_quotes-AllOffered quotes consumed [] o = o
use_quotes-AllOffered quotes consumed (item ∷ items) o = elim (Option-cases (get item.dex quotes)) [
  | inl e ↦ rw (e, use_quotes) (use_quotes-AllOffered quotes consumed items o)
  | inr (m, e) ↦
      rw (e, use_quotes)
        (use_quotes-AllOffered (insert item.dex (remove item.pair m) quotes)
          (consumed || is_some (get item.pair m)) items
          (insert-AllEntries AreOffered item.dex (remove item.pair m) quotes
            (remove-AllEntries (IsOffered item.dex) item.pair m
              (get-AllEntries AreOffered item.dex quotes o e))
            o))
]

-- Once the flag is up it stays.
use_quotes-flag :
    (quotes : Map DexId (Map Pair Quote)) (items : List RoutedNote)
    → (use_quotes quotes true items).1 ≡ true
unfolding use_quotes
use_quotes-flag quotes [] = refl
use_quotes-flag quotes (item ∷ items) = elim (Option-cases (get item.dex quotes)) [
  | inl e ↦ rw (e, use_quotes) (use_quotes-flag quotes items)
  | inr (m, e) ↦
      rw (e, use_quotes) (use_quotes-flag (insert item.dex (remove item.pair m) quotes) items)
]

-- Where the flag stays down, no quote went.
use_quotes-unused :
    (quotes : Map DexId (Map Pair Quote)) (items : List RoutedNote)
    → (use_quotes quotes false items).1 ≡ false
    → (use_quotes quotes false items).0 ≡ quotes
unfolding use_quotes
use_quotes-unused quotes [] f = refl
use_quotes-unused quotes (item ∷ items) f = elim (Option-cases (get item.dex quotes)) [
  | inl e ↦ rw (e, use_quotes) (use_quotes-unused quotes items (rw (e, use_quotes) at f))
  | inr (m, e) ↦ elim (Option-cases (get item.pair m)) [
    | inr (q, h) ↦ absurd (
        cc (
          use_quotes-flag (insert item.dex (remove item.pair m) quotes) items,
          rw (e, h, use_quotes) at f,
        ))
    | inl h ↦
        let kept : insert item.dex (remove item.pair m) quotes ≡ quotes =
          rw (remove_absent item.pair m h) (insert_same item.dex m quotes e) in
        let rest =
          use_quotes-unused (insert item.dex (remove item.pair m) quotes) items
            (rw (e, h, use_quotes) at f) in
        rw (e, h, use_quotes) (rest ∙ kept)
  ]
]

deliver-IsCurrent :
    (s : RouterState) (items : List RoutedNote) → IsCurrent s → IsCurrent (deliver s items)
unfolding deliver
deliver-IsCurrent s items c =
    let offered = use_quotes-AllOffered s.quotes false items c.offered in
    elim (Bool-cases (use_quotes s.quotes false items).1) [
      | inl e ↦
          rw (e, deliver)
            (republish-IsCurrent
              (record s {
                conns = send_frames s.conns items;
                quotes = (use_quotes s.quotes false items).0;
              })
              offered)
      | inr e ↦
          rw (e, deliver)
            (record {
              offered = offered;
              published = c.published ∙ ap snapshot_of (sym (use_quotes-unused s.quotes items e));
            })
    ]

deregister-IsCurrent : (s : RouterState) (dex : DexId) → IsCurrent s → IsCurrent (deregister s dex)
unfolding deregister
deregister-IsCurrent s dex c =
    republish-IsCurrent
      (record s { conns = remove dex s.conns; quotes = remove dex s.quotes; conn_count = _ })
      (remove-AllEntries AreOffered dex s.quotes c.offered)

-- The states of the router from its start on, whatever the connections send.
pub data Reachable : RouterState → Type 0 where
  started : (ttl : ℕ) → Reachable (new_router ttl)
  registered :
      {s : RouterState} (dex : DexId) (offered : TokenId × Amount) (requested : TokenId × Amount)
      (valid_for_ms : Option ℕ) (now : ℕ)
      → Reachable s
      → Reachable (register_quote s dex offered requested valid_for_ms now).0
  delivered :
      {s : RouterState} (items : List RoutedNote) → Reachable s → Reachable (deliver s items)
  deregistered : {s : RouterState} (dex : DexId) → Reachable s → Reachable (deregister s dex)

Reachable-IsCurrent : {s : RouterState} → Reachable s → IsCurrent s
Reachable-IsCurrent (started ttl) = new_router-IsCurrent ttl
Reachable-IsCurrent (registered {s} dex offered requested valid_for_ms now r) =
    register_quote-IsCurrent s dex offered requested valid_for_ms now (Reachable-IsCurrent r)
Reachable-IsCurrent (delivered {s} items r) = deliver-IsCurrent s items (Reachable-IsCurrent r)
Reachable-IsCurrent (deregistered {s} dex r) = deregister-IsCurrent s dex (Reachable-IsCurrent r)

-- Whatever is registered, delivered and disconnected, the published snapshot is that of the stored
-- quotes, and in it each list holds quotes of its pair with positive amounts, none of them more
-- generous than one before it.
pub Reachable-IsPublished :
    {s : RouterState}
    → Reachable s
    → (s.published ≡ sort_values (group_all s.quotes [])) × IsPublished s.published
Reachable-IsPublished {s} r =
    let c = Reachable-IsCurrent r in
    (
      c.published,
      rw (c.published) (
          sort_values-IsPublished (group_all s.quotes [])
            (group_all-AllEntries s.quotes [] c.offered tt)),
    )
