-- ===== src/Server/Connections.antt =====
-- The ids and the number of the connections.
use solver.Prelude.{
  ℕ, ◌≤◌, ◌<◌, ◌≡◌, refl, true, false, ◌||◌, Option, some, List, [], ◌∷◌, ◌++◌, inl, inr,
  Bool-cases, Option-cases, ◌==◌, nat_eq, arith, is_some, u64_mod,
}
use solver.Prelude.Maps.{Map, get, insert}
use solver.Prelude.Entries.{
  insert-AllEntries, remove-AllEntries, get-AllEntries, insert-UniqueKeys, remove-UniqueKeys,
  length-insert_old, length-remove_old,
}
use solver.Order.{DexId, TokenId, Amount}
use solver.Matcher.{Bytes, RoutedNote}
use solver.Wire.{MidenLib, ClientMsg, quote, read_client}
use solver.Router.{
  RouterState, new_router, republish, register_quote, send_frames, use_quotes, deliver, deregister,
  handle_client_msg,
}
use solver.Server.{
  Server, new_server, read_message, close_conn, Begun, Reachable, started, took_dex, counted_conn,
  stored_conn, received, delivered, closed,
}
use solver.Server.Ids.{
  Frames, AreCounted, IsCounted, is_some-cases, AreApart-insert_right, AreApart-remove_right,
  AreApart-absent,
}
use solver.Server.Opening.{take_dex-IsCounted, count_conn-IsCounted, store_conn-IsCounted}

-- What leaves the connections alone.
abbrev KeepsConns : RouterState → RouterState → Type 0
KeepsConns r q = (q.conns ≡ r.conns) × (q.conn_count ≡ r.conn_count)

register_quote-KeepsConns :
    (r : RouterState) (dex : DexId) (offered requested : TokenId × Amount) (valid_for_ms : Option ℕ)
    (now : ℕ)
    → KeepsConns r (register_quote r dex offered requested valid_for_ms now).0
unfolding register_quote republish
register_quote-KeepsConns r dex offered requested valid_for_ms now =
    elim (Bool-cases (offered.1 == 0 || requested.1 == 0)) [
      | inl e ↦ rw (register_quote, e) (refl, refl)
      | inr e ↦ rw (register_quote, e) (refl, refl)
    ]

handle_client_msg-KeepsConns :
    (lib : MidenLib) (r : RouterState) (dex : DexId) (bytes : Bytes) (now : ℕ)
    → KeepsConns r (handle_client_msg lib r dex bytes now).0
unfolding handle_client_msg
handle_client_msg-KeepsConns lib r dex bytes now = elim (Option-cases (read_client lib bytes)) [
  | inl e ↦ rw (handle_client_msg, e) (refl, refl)
  | inr (m, e) ↦ read m e
]
  where
    read :
        (m : ClientMsg × Bytes)
        → read_client lib bytes ≡ some m
        → KeepsConns r (handle_client_msg lib r dex bytes now).0
    read (quote offered requested valid_for_ms, rest) e =
        rw (handle_client_msg, e)
          (register_quote-KeepsConns r dex offered requested valid_for_ms now)

send_frames-AreCounted :
    (items : List RoutedNote) (n : ℕ) (taken counted : Begun) (next : DexId)
    (conns : Map DexId Frames) (count : ℕ)
    → AreCounted n taken counted next conns count
    → AreCounted n taken counted next (send_frames conns items) count
unfolding send_frames
send_frames-AreCounted [] n taken counted next conns count h = h
send_frames-AreCounted (item ∷ items) n taken counted next conns count h =
    elim (Option-cases (get item.dex conns)) [
      | inl e ↦
          rw (send_frames, e) (send_frames-AreCounted items n taken counted next conns count h)
      | inr (frames, e) ↦
          let more = frames ++ (item.note_bytes, item.fill) ∷ [] in
          let same = length-insert_old item.dex more conns e in
          rw (send_frames, e)
            (send_frames-AreCounted items n taken counted next (insert item.dex more conns) count
              (record {
                next_lem = h.next_lem;
                taken_below = h.taken_below;
                counted_below = h.counted_below;
                taken_unique = h.taken_unique;
                counted_unique = h.counted_unique;
                taken_counted = h.taken_counted;
                conns_below =
                    insert-AllEntries (λ (dex : DexId) (frames : Frames). dex ≤ n) item.dex more
                      conns
                      (get-AllEntries (λ (dex : DexId) (frames : Frames). dex ≤ n) item.dex conns
                        h.conns_below e)
                      h.conns_below;
                conns_unique = insert-UniqueKeys item.dex more conns h.conns_unique;
                taken_conns =
                    AreApart-insert_right item.dex more taken conns
                      (AreApart-absent item.dex taken conns h.taken_conns e) h.taken_conns;
                counted_conns =
                    AreApart-insert_right item.dex more counted conns
                      (AreApart-absent item.dex counted conns h.counted_conns e) h.counted_conns;
                few = omega (arith, h.few, same);
                count_lem = omega (arith, h.count_lem, same);
              }))
    ]

deliver-IsCounted :
    (n : ℕ) (taken counted : Begun) (s : Server) (items : List RoutedNote)
    → IsCounted n taken counted s
    → IsCounted n taken counted (record s { router = deliver s.router items })
unfolding deliver republish
deliver-IsCounted n taken counted s items h =
    let sent =
      send_frames-AreCounted items n taken counted s.next_dex s.router.conns s.router.conn_count
        h in
    elim (Bool-cases (use_quotes s.router.quotes false items).1) [
      | inl e ↦ rw (deliver, e) sent
      | inr e ↦ rw (deliver, e) sent
    ]

close_conn-IsCounted :
    (n : ℕ) (taken counted : Begun) (s : Server) (dex : DexId)
    → is_some (get dex s.router.conns) ≡ true
    → IsCounted n taken counted s
    → IsCounted n taken counted (close_conn s dex)
unfolding close_conn deregister republish
close_conn-IsCounted n taken counted s dex there h =
    let (frames, at) = is_some-cases (get dex s.router.conns) there in
    let fewer = length-remove_old dex s.router.conns h.conns_unique at in
    record {
      next_lem = h.next_lem;
      taken_below = h.taken_below;
      counted_below = h.counted_below;
      conns_below =
          remove-AllEntries (λ (dex : DexId) (frames : Frames). dex ≤ n) dex s.router.conns
            h.conns_below;
      taken_unique = h.taken_unique;
      counted_unique = h.counted_unique;
      conns_unique = remove-UniqueKeys dex s.router.conns h.conns_unique;
      taken_counted = h.taken_counted;
      taken_conns = AreApart-remove_right dex taken s.router.conns h.taken_conns;
      counted_conns = AreApart-remove_right dex counted s.router.conns h.counted_conns;
      few = omega (arith, h.few, fewer);
      count_lem = omega (arith, h.count_lem, fewer);
    }

-- While fewer than `2 ^ 64` connections have ever begun, and however the steps of their openings
-- interleave: each of the connections that are there, whether it has only taken its id, is counted or
-- is stored, has an id of its own, which is at most the number of those that have begun; and the
-- counter of the capacity check is the number of the connections that are counted or stored.
pub Reachable-IsCounted :
    {n : ℕ} {taken counted : Begun} {s : Server}
    → n < u64_mod
    → Reachable n taken counted s
    → IsCounted n taken counted s
unfolding new_server new_router read_message get
Reachable-IsCounted small (started ttl max_connections auth_tokens) = record {
  next_lem = omega arith;
  taken_below = tt;
  counted_below = tt;
  conns_below = tt;
  taken_unique = tt;
  counted_unique = tt;
  conns_unique = tt;
  taken_counted = λ dex there. refl;
  taken_conns = λ dex there. cc;
  counted_conns = λ dex there. cc;
  few = omega arith;
  count_lem = refl;
}
Reachable-IsCounted small (took_dex {n} {taken} {counted} {s} r) =
    take_dex-IsCounted n taken counted s small (Reachable-IsCounted (omega (arith, small)) r)
Reachable-IsCounted small (counted_conn {n} {taken} {counted} {s} dex there r) =
    count_conn-IsCounted n taken counted s dex small there (Reachable-IsCounted small r)
Reachable-IsCounted small (stored_conn {n} {taken} {counted} {s} dex there r) =
    store_conn-IsCounted n taken counted s dex there (Reachable-IsCounted small r)
Reachable-IsCounted small (received {s} lib dex bytes now r) =
    let (conns, count) = handle_client_msg-KeepsConns lib s.router dex bytes now in
    rw (conns, count) (Reachable-IsCounted small r)
Reachable-IsCounted small (delivered {n} {taken} {counted} {s} items r) =
    deliver-IsCounted n taken counted s items (Reachable-IsCounted small r)
Reachable-IsCounted small (closed {n} {taken} {counted} {s} dex there r) =
    close_conn-IsCounted n taken counted s dex there (Reachable-IsCounted small r)
