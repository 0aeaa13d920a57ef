-- ===== src/Wire.antt =====
-- crates/lp-sdk/src/protocol.rs: the messages between a filler and the router, and their bytes. The
-- serialisation of numbers, texts, accounts, assets and notes is that of the Miden crates: it enters
-- as the record `MidenLib` of codecs (a text is the list of its bytes), with the law that a value reads back from what it is written as.
pub mod RoundTrip
use solver.Prelude.{
  ℕ, ◌<◌, ◌≡◌, Option, none, some, List, [], ◌∷◌, ◌++◌, ◌==◌, nat_eq, if◌then◌else◌, ◌>>=◌, u64_mod,
}
use mathlib.Core.List.{append_assoc}
use solver.Order.{TokenId, Amount}
use solver.Matcher.{Bytes}

-- `Serializable` and `Deserializable` of a type: a value that fits is read back, and the rest stays.
pub record Codec (A : Type 0) (Fits : A → Type 0) : Type 0 where
  pub write : A → Bytes
  pub read : Bytes → Option (A × Bytes)
  pub round_trip : (a : A) (rest : Bytes) → Fits a → read (write a ++ rest) ≡ some (a, rest)

-- `FungibleAsset`: the faucet and the amount.
abbrev pub Asset : Type 0
Asset = TokenId × Amount

pub record PairSpec : Type 0 where
  pub offered : TokenId
  pub requested : TokenId

pub data ClientMsg : Type 0 where
  quote : Asset → Asset → Option ℕ → ClientMsg

pub data ServerMsg (Note : Type 0) : Type 0 where
  auth_ok : ServerMsg Note
  ask : List PairSpec → ServerMsg Note
  handover : Note → ℕ → ServerMsg Note
  error : Bytes → Bytes → ServerMsg Note

abbrev pub Anything {ℓ} : {A : Type ℓ} → A → Type 0
Anything a = Unit

-- A word that is there fits `u64`.
abbrev pub FitsWord : Option ℕ → Type 0
FitsWord none = Unit
FitsWord (some n) = n < u64_mod

pub record MidenLib : Type 1 where
  pub Note : Type 0
  pub byte : Codec ℕ (λ b. b < 256)
  pub word : Codec ℕ (λ n. n < u64_mod)
  pub maybe_word : Codec (Option ℕ) FitsWord
  pub text : Codec Bytes Anything
  pub account : Codec TokenId Anything
  pub asset : Codec Asset (λ a. a.1 < u64_mod)
  pub note : Codec Note Anything
  pub list_of : Codec PairSpec Anything → Codec (List PairSpec) Anything

abbrev pub quote_tag : ℕ
quote_tag = 0

abbrev pub auth_ok_tag : ℕ
auth_ok_tag = 0

abbrev pub ask_tag : ℕ
ask_tag = 1

abbrev pub handover_tag : ℕ
handover_tag = 2

abbrev pub error_tag : ℕ
error_tag = 3

module _ (lib : MidenLib) where
  unfoldable pub write_pair : PairSpec → Bytes
  write_pair p = lib.account.write p.offered ++ lib.account.write p.requested

  unfoldable pub read_pair : Bytes → Option (PairSpec × Bytes)
  read_pair bytes = do
    (offered, after_offered) ← lib.account.read bytes
    (requested, rest) ← lib.account.read after_offered
    some (record { offered = offered; requested = requested }, rest)

  unfoldable pub write_client : ClientMsg → Bytes
  write_client (quote offered requested valid_for_ms) =
      lib.byte.write quote_tag
      ++ (lib.asset.write offered
          ++ (lib.asset.write requested ++ lib.maybe_word.write valid_for_ms))

  unfoldable pub read_client : Bytes → Option (ClientMsg × Bytes)
  read_client bytes = do
    (tag, body) ← lib.byte.read bytes
    if tag == quote_tag
        then (do
          (offered, after_offered) ← lib.asset.read body
          (requested, after_requested) ← lib.asset.read after_offered
          (valid_for_ms, rest) ← lib.maybe_word.read after_requested
          some (quote offered requested valid_for_ms, rest))
        else none

  pub pair_round_trip :
      (p : PairSpec) (rest : Bytes) → read_pair (write_pair p ++ rest) ≡ some (p, rest)
  unfolding read_pair write_pair
  pair_round_trip p rest = rw (
    append_assoc (lib.account.write p.offered) (lib.account.write p.requested) rest,
    lib.account.round_trip p.offered (lib.account.write p.requested ++ rest) tt,
    lib.account.round_trip p.requested rest tt,
  )

  abbrev pub pair_codec : Codec PairSpec Anything
  pair_codec = record {
    write = write_pair;
    read = read_pair;
    round_trip = λ p rest fits. pair_round_trip p rest;
  }

  unfoldable pub write_server : ServerMsg lib.Note → Bytes
  write_server auth_ok = lib.byte.write auth_ok_tag
  write_server (ask pairs) = lib.byte.write ask_tag ++ (lib.list_of pair_codec).write pairs
  write_server (handover note fill_amount) =
      lib.byte.write handover_tag ++ (lib.note.write note ++ lib.word.write fill_amount)
  write_server (error code msg) =
      lib.byte.write error_tag ++ (lib.text.write code ++ lib.text.write msg)

  -- The frame of a handover, from the bytes of a note that was serialised before.
  unfoldable pub handover_frame : Bytes → ℕ → Bytes
  handover_frame note_bytes fill_amount =
      lib.byte.write handover_tag ++ (note_bytes ++ lib.word.write fill_amount)

  unfoldable pub read_ask : Bytes → Option (ServerMsg lib.Note × Bytes)
  read_ask body = do (pairs, rest) ← (lib.list_of pair_codec).read body; some (ask pairs, rest)

  unfoldable pub read_handover : Bytes → Option (ServerMsg lib.Note × Bytes)
  read_handover body = do
    (note, after_note) ← lib.note.read body
    (fill_amount, rest) ← lib.word.read after_note
    some (handover note fill_amount, rest)

  unfoldable pub read_error : Bytes → Option (ServerMsg lib.Note × Bytes)
  read_error body = do
    (code, after_code) ← lib.text.read body
    (msg, rest) ← lib.text.read after_code
    some (error code msg, rest)

  unfoldable pub read_server : Bytes → Option (ServerMsg lib.Note × Bytes)
  read_server bytes = do
    (tag, body) ← lib.byte.read bytes
    if tag == auth_ok_tag
        then some (auth_ok, body)
        else if tag == ask_tag
        then read_ask body
        else if tag == handover_tag
        then read_handover body
        else if tag == error_tag
        then read_error body
        else none
