-- ===== src/Cycle/Canonical.antt =====
-- The canonical form of a triangle does not depend on where the cycle is entered.
use solver.Prelude.{◌≡◌, ◌≢◌, ◌≤◌, ◌⊎◌, arith}
use solver.Order.{TokenId}
use solver.Cycle.Entries.{canonical}

-- The three rotations of a triangle of distinct tokens have one canonical form, which is one of
-- them and begins with the least token; so `seen` holds a cycle once.
pub canonical-rotate :
    (a b c : TokenId)
    → a ≢ b
    → b ≢ c
    → c ≢ a
    → (canonical a b c ≡ canonical b c a)
      × (canonical a b c ≡ canonical c a b)
      × ((canonical a b c ≡ (a, b, c))
          ⊎ (canonical a b c ≡ (b, c, a))
          ⊎ (canonical a b c ≡ (c, a, b)))
      × ((canonical a b c).0 ≤ a)
      × ((canonical a b c).0 ≤ b)
      × ((canonical a b c).0 ≤ c)
unfolding canonical
canonical-rotate a b c h i j = ground arith
