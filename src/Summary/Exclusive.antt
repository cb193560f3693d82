-- ===== src/Summary/Exclusive.antt =====
-- Which labels exclude each other by the groups of app/context/summary/facts.py.
use customer_service.Prelude.{◌≡◌, refl, sym, Bool, true, false, ◌&&◌, ◌||◌, arith, if_neg, any}
use mathlib.Core.Path.{fun_ext, subst}
use customer_service.Prelude.Text.{Text, codes, Text-discrete, same}
use customer_service.Summary.{exclusive_label_groups, rivals_in, rivals_of, gives_way}

-- the same label, or one of a group that has both
unfoldable pub excludes : Text → Text → Bool
excludes label x =
    same x label
    || any (λ group. any (same label) group && any (same x) group) exclusive_label_groups

same_self : (t : Text) → same t t ≡ true
same_self t = ground arith

same_ne : (a b : Text) → (a ≡ b → ⊥) → same a b ≡ false
same_ne a b n = if_neg (Text-discrete a b) n _ _

agrees_unsuited : (x : Text) → gives_way (codes "已确认不适合零基础") x ≡ excludes (codes "已确认不适合零基础") x
unfolding gives_way rivals_of rivals_in excludes Text-discrete
agrees_unsuited x = ground arith

agrees_suited : (x : Text) → gives_way (codes "适合零基础") x ≡ excludes (codes "适合零基础") x
unfolding gives_way rivals_of rivals_in excludes Text-discrete
agrees_suited x = ground arith

agrees_refunded : (x : Text) → gives_way (codes "退款已完成") x ≡ excludes (codes "退款已完成") x
unfolding gives_way rivals_of rivals_in excludes Text-discrete
agrees_refunded x = ground arith

agrees_refunding : (x : Text) → gives_way (codes "退款审核中") x ≡ excludes (codes "退款审核中") x
unfolding gives_way rivals_of rivals_in excludes Text-discrete
agrees_refunding x = ground arith

agrees_other :
    (label x : Text)
    → same label (codes "已确认不适合零基础") ≡ false
    → same label (codes "适合零基础") ≡ false
    → same label (codes "退款已完成") ≡ false
    → same label (codes "退款审核中") ≡ false
    → gives_way label x ≡ excludes label x
unfolding gives_way rivals_of rivals_in excludes
agrees_other label x a b c d = rw (a, b, c, d) refl

gives_way-excludes_at : (label x : Text) → gives_way label x ≡ excludes label x
gives_way-excludes_at label x = elim (Text-discrete label (codes "已确认不适合零基础")) [
  | yes p ↦ subst (λ l. gives_way l x ≡ excludes l x) (sym p) (agrees_unsuited x)
  | no p ↦ elim (Text-discrete label (codes "适合零基础")) [
    | yes q ↦ subst (λ l. gives_way l x ≡ excludes l x) (sym q) (agrees_suited x)
    | no q ↦ elim (Text-discrete label (codes "退款已完成")) [
      | yes r ↦ subst (λ l. gives_way l x ≡ excludes l x) (sym r) (agrees_refunded x)
      | no r ↦ elim (Text-discrete label (codes "退款审核中")) [
        | yes s ↦ subst (λ l. gives_way l x ≡ excludes l x) (sym s) (agrees_refunding x)
        | no s ↦
            agrees_other label x (same_ne _ _ p) (same_ne _ _ q) (same_ne _ _ r) (same_ne _ _ s)
      ]
    ]
  ]
]

-- the code's rule is that one
pub gives_way-excludes : gives_way ≡ excludes
gives_way-excludes = fun_ext λ label. fun_ext λ x. gives_way-excludes_at label x
