-- ===== src/Status.antt =====
-- crates/solver/src/types.rs: the life cycle of an order in the database.
use Prim.Native.String.{String}
use text.Mathlib.Text.{◌==◌ as str_eq}
use text.Mathlib.TextEquality.{eq_iff}
use solver.Prelude.{
  Bool, true, sym, ◌∙◌, eq_of_some, ◌≡◌, refl, ◌↔◌, Option, some, none, if◌then◌else◌, arith,
}

pub data OrderStatus : Type 0 where
  active settling executed onchain_nullified : OrderStatus

unfoldable pub as_str : OrderStatus → String
as_str active = "active"
as_str settling = "settling"
as_str executed = "executed"
as_str onchain_nullified = "onchain_nullified"

unfoldable pub from_str : String → Option OrderStatus
from_str s =
    if str_eq s "active"
    then some active
    else if str_eq s "settling"
    then some settling
    else if str_eq s "executed"
    then some executed
    else if str_eq s "onchain_nullified"
    then some onchain_nullified
    else none

-- A text is read as a status exactly when it is what the status is written as.
pub from_str-as_str : (s : String) (o : OrderStatus) → (from_str s ≡ some o) ↔ (s ≡ as_str o)
unfolding from_str as_str
from_str-as_str s o = (reads s o, λ e. rw e (prints o))
  where
    reads : (s : String) (o : OrderStatus) → from_str s ≡ some o → s ≡ as_str o
    reads s o = ground (
      arith,
      eq_iff s "active",
      eq_iff s "settling",
      eq_iff s "executed",
      eq_iff s "onchain_nullified",
    )

    prints : (o : OrderStatus) → from_str (as_str o) ≡ some o
    prints active = refl
    prints settling = refl
    prints executed = refl
    prints onchain_nullified = refl

-- The comparison of two statuses by their texts.
unfoldable pub same_status : OrderStatus → OrderStatus → Bool
same_status a b = str_eq (as_str a) (as_str b)

pub same_status_self : (a : OrderStatus) → same_status a a ≡ true
unfolding same_status as_str
same_status_self active = refl
same_status_self settling = refl
same_status_self executed = refl
same_status_self onchain_nullified = refl

pub same_status_iff : (a b : OrderStatus) → (same_status a b ≡ true) ↔ (a ≡ b)
unfolding same_status
same_status_iff a b =
    (λ h. same a b ((eq_iff (as_str a) (as_str b)).0 h), λ h. rw h (same_status_self b))
  where
    same : (a b : OrderStatus) → as_str a ≡ as_str b → a ≡ b
    same a b h =
        eq_of_some
          (sym ((from_str-as_str (as_str a) a).1 refl) ∙ (from_str-as_str (as_str a) b).1 h)
