-- ===== src/Wire/RoundTrip.antt =====
-- Messages read back as what was written, in front of whatever follows.
use mathlib.Core.List.{append_assoc}
use solver.Prelude.{ℕ, ◌<◌, ◌≡◌, none, some, ◌++◌, nat_eq, u64_mod, arith}
use solver.Matcher.{Bytes}
use solver.Wire.{
  ClientMsg, quote, ServerMsg, auth_ok, ask, handover, error, FitsWord, MidenLib, write_client,
  read_client, pair_codec, write_server, read_server, read_ask, read_handover, read_error,
  handover_frame,
}

-- The amounts of a message are `u64`s.
abbrev pub Fits : ClientMsg → Type 0
Fits (quote offered requested valid_for_ms) =
    (offered.1 < u64_mod) × (requested.1 < u64_mod) × FitsWord valid_for_ms

abbrev pub FitsServer : {Note : Type 0} → ServerMsg Note → Type 0
FitsServer auth_ok = Unit
FitsServer (ask pairs) = Unit
FitsServer (handover note fill_amount) = fill_amount < u64_mod
FitsServer (error code msg) = Unit

module _ (lib : MidenLib) where
  -- A client's message whose numbers fit their words is read back from its bytes, whatever follows
  -- them.
  pub read_client-write_client :
      (m : ClientMsg) (rest : Bytes)
      → Fits m
      → read_client lib (write_client lib m ++ rest) ≡ some (m, rest)
  unfolding read_client write_client
  read_client-write_client (quote offered requested valid) rest (fo, fr, fv) = rw (
    append_assoc (lib.byte.write 0)
        (lib.asset.write offered ++ (lib.asset.write requested ++ lib.maybe_word.write valid)) rest,
    append_assoc (lib.asset.write offered) (lib.asset.write requested ++ lib.maybe_word.write valid)
        rest,
    append_assoc (lib.asset.write requested) (lib.maybe_word.write valid) rest,
    lib.byte.round_trip 0
        (lib.asset.write offered
          ++ (lib.asset.write requested ++ (lib.maybe_word.write valid ++ rest)))
        (omega arith),
    lib.asset.round_trip offered (lib.asset.write requested ++ (lib.maybe_word.write valid ++ rest))
        fo,
    lib.asset.round_trip requested (lib.maybe_word.write valid ++ rest) fr,
    lib.maybe_word.round_trip valid rest fv,
  )

  -- A server's message whose numbers fit their words is read back from its bytes, whatever follows
  -- them.
  pub read_server-write_server :
      (m : ServerMsg lib.Note) (rest : Bytes)
      → FitsServer m
      → read_server lib (write_server lib m ++ rest) ≡ some (m, rest)
  unfolding read_server write_server read_ask read_handover read_error
  read_server-write_server auth_ok rest fits = rw (lib.byte.round_trip 0 rest (omega arith))
  read_server-write_server (ask pairs) rest fits = rw (
    append_assoc (lib.byte.write 1) ((lib.list_of (pair_codec lib)).write pairs) rest,
    lib.byte.round_trip 1 ((lib.list_of (pair_codec lib)).write pairs ++ rest) (omega arith),
    (lib.list_of (pair_codec lib)).round_trip pairs rest tt,
  )
  read_server-write_server (handover note fill_amount) rest fits = rw (
    append_assoc (lib.byte.write 2) (lib.note.write note ++ lib.word.write fill_amount) rest,
    append_assoc (lib.note.write note) (lib.word.write fill_amount) rest,
    lib.byte.round_trip 2 (lib.note.write note ++ (lib.word.write fill_amount ++ rest))
        (omega arith),
    lib.note.round_trip note (lib.word.write fill_amount ++ rest) tt,
    lib.word.round_trip fill_amount rest fits,
  )
  read_server-write_server (error code msg) rest fits = rw (
    append_assoc (lib.byte.write 3) (lib.text.write code ++ lib.text.write msg) rest,
    append_assoc (lib.text.write code) (lib.text.write msg) rest,
    lib.byte.round_trip 3 (lib.text.write code ++ (lib.text.write msg ++ rest)) (omega arith),
    lib.text.round_trip code (lib.text.write msg ++ rest) tt,
    lib.text.round_trip msg rest tt,
  )

  -- The frame that the router builds from the bytes of a note and a word is read as the handover of
  -- that note with that fill, whatever follows it.
  pub read_server-handover_frame :
      (note : lib.Note) (fill_amount : ℕ) (rest : Bytes)
      → fill_amount < u64_mod
      → read_server lib (handover_frame lib (lib.note.write note) fill_amount ++ rest)
        ≡ some (handover note fill_amount, rest)
  unfolding handover_frame write_server
  read_server-handover_frame note fill_amount rest fits =
      read_server-write_server (handover note fill_amount) rest fits

  -- A tag above those of the messages is refused, by either side.
  pub read_unknown :
      (tag : ℕ) (body : Bytes)
      → 3 < tag
      → tag < 256
      → (read_server lib (lib.byte.write tag ++ body) ≡ none)
        × (read_client lib (lib.byte.write tag ++ body) ≡ none)
  unfolding read_server read_client
  read_unknown tag body above fits =
      let back = lib.byte.round_trip tag body fits in
      (rw back (ground arith), rw back (ground arith))
