-- ===== src/Examples/Wire.antt =====
-- A serialisation that meets the laws, and messages in it: a number is one unit, and a list is its
-- length and its members.
use mathlib.Core.List.{append_assoc}
use solver.Prelude.{
  ℕ, zero, suc, ◌≡◌, refl, Option, none, some, List, [], ◌∷◌, ◌++◌, ◌>>=◌, arith, length, nat_eq,
}
use solver.Matcher.{Bytes}
use solver.Wire.{
  Codec, Asset, ClientMsg, quote, handover, Anything, MidenLib, write_client, read_client,
  write_server, read_server, handover_frame, read_ask, read_handover, read_error,
}
use solver.Wire.RoundTrip.{read_client-write_client, read_server-handover_frame}

abbrev read_number : Bytes → Option (ℕ × Bytes)
read_number [] = none
read_number (b ∷ bytes) = some (b, bytes)

abbrev number : {P : ℕ → Type 0} → Codec ℕ P
number = record { write = λ n. n ∷ []; read = read_number; round_trip = λ n rest fits. refl }

-- An asset, and a number that may be missing.
abbrev read_asset : Bytes → Option (Asset × Bytes)
read_asset [] = none
read_asset (t ∷ []) = none
read_asset (t ∷ x ∷ rest) = some ((t, x), rest)

abbrev write_maybe : Option ℕ → Bytes
write_maybe none = 0 ∷ []
write_maybe (some n) = 1 ∷ n ∷ []

abbrev read_maybe : Bytes → Option (Option ℕ × Bytes)
read_maybe [] = none
read_maybe (zero ∷ rest) = some (none, rest)
read_maybe (suc k ∷ []) = none
read_maybe (suc k ∷ n ∷ rest) = some (some n, rest)

maybe_round_trip :
    (a : Option ℕ) (rest : Bytes) → read_maybe (write_maybe a ++ rest) ≡ some (a, rest)
maybe_round_trip none rest = refl
maybe_round_trip (some n) rest = refl

module _ {A : Type 0} (c : Codec A Anything) where
  write_all : List A → Bytes
  write_all [] = []
  write_all (x ∷ xs) = c.write x ++ write_all xs

  read_all : ℕ → Bytes → Option (List A × Bytes)
  read_all zero bytes = some ([], bytes)
  read_all (suc n) bytes =
      c.read bytes >>= λ first. read_all n first.1 >>= λ others. some (first.0 ∷ others.0, others.1)

  all_round_trip :
      (xs : List A) (rest : Bytes) → read_all (length xs) (write_all xs ++ rest) ≡ some (xs, rest)
  unfolding write_all read_all
  all_round_trip [] rest = refl
  all_round_trip (x ∷ xs) rest = rw (
    append_assoc (c.write x) (write_all xs) rest,
    c.round_trip x (write_all xs ++ rest) tt,
    all_round_trip xs rest,
  )

  read_list : Bytes → Option (List A × Bytes)
  read_list [] = none
  read_list (n ∷ bytes) = read_all n bytes

  list_round_trip :
      (xs : List A) (rest : Bytes)
      → read_list ((length xs ∷ write_all xs) ++ rest) ≡ some (xs, rest)
  unfolding read_list
  list_round_trip xs rest = all_round_trip xs rest

  list_codec : Codec (List A) Anything
  list_codec = record {
    write = λ xs. length xs ∷ write_all xs;
    read = read_list;
    round_trip = λ xs rest fits. list_round_trip xs rest;
  }

abbrev plain_lib : MidenLib
plain_lib = record {
  Note = ℕ;
  byte = number;
  word = number;
  maybe_word = record {
    write = write_maybe;
    read = read_maybe;
    round_trip = λ a rest fits. maybe_round_trip a rest;
  };
  text = list_codec number;
  account = number;
  asset = record {
    write = λ a. a.0 ∷ a.1 ∷ [];
    read = read_asset;
    round_trip = λ a rest fits. refl;
  };
  note = number;
  list_of = list_codec;
}

program : Unit {0}
unfolding write_client read_client write_server read_server handover_frame read_ask read_handover
    read_error
program = tt

-- A quote of 50 of token 1 for 90 of token 0, for five seconds.
abbrev offer : ClientMsg
offer = quote (1, 50) (0, 90) (some 5000)

offer_bytes : write_client plain_lib offer ≡ 0 ∷ 1 ∷ 50 ∷ 0 ∷ 90 ∷ 1 ∷ 5000 ∷ []
unfolding program
offer_bytes = refl

read_client-write_client_example :
    read_client plain_lib (write_client plain_lib offer ++ 7 ∷ []) ≡ some (offer, 7 ∷ [])
read_client-write_client_example = read_client-write_client plain_lib offer (7 ∷ []) (omega arith)

read_server-handover_frame_example :
    read_server plain_lib (handover_frame plain_lib (77 ∷ []) 42 ++ []) ≡ some (handover 77 42, [])
read_server-handover_frame_example = read_server-handover_frame plain_lib 77 42 [] (omega arith)
