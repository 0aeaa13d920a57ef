-- ===== src/Examples/Links.antt =====
-- A client whose link drops once, a nullifier check, and a server with one connection.
use solver.Prelude.{
  ℕ, ◌≡◌, refl, true, false, Option, none, some, List, [], ◌∷◌, inl, All, nat_eq, arith,
}
use solver.Prelude.Maps.{get, insert, remove}
use solver.Order.{OrderId}
use solver.Wire.{ClientMsg, quote}
use solver.Ingest.{Note}
use solver.LpClient.{Connection, connected, transport_error, supervise}
use solver.LpClient.Reconnect.{IsDelay, IsFresh, supervise-IsSteady}
use solver.Adapter.{
  Nullifier, nullifier_to_id, nullifiers_of, consumed_of, check_consumed_notes, IsConsumed,
  check_consumed_notes-IsConsumed,
}
use solver.Router.{new_router}
use solver.Server.{
  Server, new_server, take_dex, count_conn, Begun, Reachable, started, took_dex, counted_conn,
}
use solver.Server.Connections.{Reachable-IsCounted}
use solver.Server.Ids.{IsCounted}

program : Unit {0}
unfolding get insert remove nullifier_to_id nullifiers_of consumed_of check_consumed_notes
    new_router new_server take_dex count_conn
program = tt

abbrev first_quote : ClientMsg
first_quote = quote (7, 10) (8, 5) none

abbrev stale_quote : ClientMsg
stale_quote = quote (7, 10) (8, 6) none

abbrev connections : List (Connection ℕ)
connections =
    record {
      posted = first_quote ∷ stale_quote ∷ [];
      written = 1;
      frames = none ∷ [];
      uptime = 400;
      client_gone = false;
      attempts = transport_error ∷ connected ∷ [];
      posted_meanwhile = stale_quote ∷ [];
    }
    ∷ record {
      posted = first_quote ∷ [];
      written = 3;
      frames = [];
      uptime = 20000;
      client_gone = true;
      attempts = [];
      posted_meanwhile = [];
    }
    ∷ []

supervise-IsSteady_example :
    All IsDelay (supervise connections).slept × IsFresh connections (supervise connections).sent
supervise-IsSteady_example = supervise-IsSteady connections

abbrev note_of : OrderId → Note
note_of id = record { id = id; is_pswap_script = true; pswap = none; bytes = [] }

abbrev notes : List Note
notes = note_of 1 ∷ note_of 2 ∷ []

-- The nullifier of a note is its id here, and the second note is consumed.
abbrev nullifier : Note → Nullifier
nullifier note = note.id

abbrev heights : List (Nullifier × Option ℕ)
heights = (1, none) ∷ (2, some 30) ∷ []

reported : check_consumed_notes nullifier (λ asked. some heights) notes ≡ some (2 ∷ [])
unfolding program
reported = refl

check_consumed_notes-IsConsumed_example : IsConsumed nullifier notes heights 2
check_consumed_notes-IsConsumed_example =
    check_consumed_notes-IsConsumed nullifier (λ asked. some heights) notes heights (2 ∷ []) 2 refl
      reported (inl refl)

-- The second connection takes its id while the first one is counted and not stored.
abbrev begun : Server
begun = take_dex (count_conn (take_dex (new_server 1000 4 [])))

abbrev taken : Begun
taken = insert 2 true (remove 1 (insert 1 true []))

reached : Reachable 2 taken (insert 1 true []) begun
unfolding program
reached = took_dex (counted_conn 1 refl (took_dex (started 1000 4 [])))

Reachable-IsCounted_example : IsCounted 2 taken (insert 1 true []) begun
Reachable-IsCounted_example = Reachable-IsCounted (omega arith) reached
