-- ===== src/Flow/Terms.antt =====
-- What the notes of a batch release of a token, and what settling them pays out.
use solver.Prelude.{
  ◌+◌, ◌≡◌, refl, Option, none, some, List, [], ◌∷◌, if◌then◌else◌, ◌==◌, nat_eq, ◌>>=◌,
}
use solver.Order.{TokenId, Amount}
use solver.Matcher.{FilledNote}
use solver.Wire.{Asset}
use solver.Db.{AccountId}
use solver.Ingest.{Note, Pswap}
use solver.Flow.{OutNote, PswapLib, note_asset_amount}

pub bind-some {ℓ κ} :
    {A : Type ℓ} {B : Type κ} (o : Option A) (f : A → Option B) {b : B}
    → (o >>= f) ≡ some b
    → (a : A) × (o ≡ some a) × (f a ≡ some b)
bind-some none f h = absurd (cc (h))
bind-some (some a) f h = (a, refl, h)

abbrev pub at_token : TokenId → TokenId → Amount → Amount
at_token t u n = if t == u then n else 0

-- What a filled note of the batch releases of a token, and what settling it pays out of the token.
abbrev pub released_by : PswapLib → TokenId → FilledNote → Amount
released_by lib t filled = elim (lib.read_note filled.raw_note_data >>= λ note. note.pswap) [
  | none ↦ 0
  | some pswap ↦ at_token t pswap.offered_asset.0 pswap.offered_asset.1
]

abbrev pub remainder_of : TokenId → TokenId → Option OutNote → Amount
remainder_of t u none = 0
remainder_of t u (some note) = at_token t u (note_asset_amount note)

abbrev pub outs_of :
    PswapLib → AccountId → FilledNote → Note → Pswap → Option (OutNote × Option OutNote)
outs_of lib solver_id filled note pswap =
    lib.new_asset pswap.requested_asset.0 filled.requested_filled >>= λ fill.
    lib.execute note solver_id fill

abbrev pub paid_of : TokenId → Pswap → Option (OutNote × Option OutNote) → Amount
paid_of t pswap none = 0
paid_of t pswap (some outs) =
    at_token t pswap.requested_asset.0 (note_asset_amount outs.0)
    + remainder_of t pswap.offered_asset.0 outs.1

abbrev pub paid_parsed : PswapLib → AccountId → TokenId → FilledNote → Note → Option Pswap → Amount
paid_parsed lib solver_id t filled note none = 0
paid_parsed lib solver_id t filled note (some pswap) =
    paid_of t pswap (outs_of lib solver_id filled note pswap)

abbrev pub paid_by : PswapLib → AccountId → TokenId → FilledNote → Amount
paid_by lib solver_id t filled = elim (lib.read_note filled.raw_note_data) [
  | none ↦ 0
  | some note ↦ paid_parsed lib solver_id t filled note note.pswap
]

abbrev pub released : PswapLib → TokenId → List FilledNote → Amount
released lib t [] = 0
released lib t (f ∷ fs) = released_by lib t f + released lib t fs

abbrev pub paid : PswapLib → AccountId → TokenId → List FilledNote → Amount
paid lib solver_id t [] = 0
paid lib solver_id t (f ∷ fs) = paid_by lib solver_id t f + paid lib solver_id t fs

abbrev pub asset_total : TokenId → List Asset → Amount
asset_total t [] = 0
asset_total t (a ∷ rest) = at_token t a.0 a.1 + asset_total t rest
