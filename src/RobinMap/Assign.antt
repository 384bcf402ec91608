-- ===== src/RobinMap/Assign.antt =====
-- Copies and moves of the buckets of src/core/robin_map.hpp, and their values' lifetimes.
use braincells.Common.{
  ℕ, arith, subst, ◌≡◌, refl, sym, ap, ap₂, ◌∙◌, Bool, true, false, Option, none, some, ◌==◌,
  ==_iff, Bool-cases, inl, inr, not, ◌↔◌, ◌⊎◌,
}
use braincells.RobinMap.Buckets.{Bucket, new, empty, destroy, assign, copied, moved, swap}

unfoldable pub is_constructed : {V : Type 0} → Option V → Bool
is_constructed none = false
is_constructed (some v) = true

-- A value lives in a bucket exactly while its header is not zero.
abbrev pub IsSound : {V : Type 0} → Bucket V → Type 0
IsSound b = is_constructed b.value ≡ not (empty b)

-- An assignment between sound buckets ends with a sound one, except when an empty bucket is assigned to
-- one that is not: the header is overwritten first, and the old value is never destroyed.
pub assign-IsSound :
    {V : Type 0}
    → (it bucket : Bucket V) → IsSound it
    → IsSound bucket
    → IsSound (assign it bucket) ↔ ((empty it ≡ true) ⊎ (empty bucket ≡ false))
unfolding assign empty destroy is_constructed
assign-IsSound it bucket h k = elim (Bool-cases (bucket.header == 0)) [
  | inl none_there ↦ elim (Bool-cases (it.header == 0)) [
    | inl none_here ↦
        rw (none_there, none_here) (λ _. inl refl, λ _. h ∙ ap not (none_here ∙ sym none_there))
    | inr here ↦ rw (none_there, here) (λ e. inl (sym e ∙ h ∙ ap not here), grind arith)
  ]
  | inr there ↦ rw there (λ _. inr refl, λ _. k)
]

not_constructed : {V : Type 0} → (v : Option V) → is_constructed v ≡ false → v ≡ none
unfolding is_constructed
not_constructed none e = refl
not_constructed (some v) e = cc

pub empty-new : {V : Type 0} → (b : Bucket V) → IsSound b → b.header ≡ 0 → b ≡ new
unfolding new empty
empty-new b h e =
    ap₂ (λ (n : ℕ) v. record { header = n; value = v }) e
      (not_constructed b.value (h ∙ ap (λ (n : ℕ). not (n == 0)) e))

-- `swap` exchanges two buckets, empty or not.
pub swap_lem :
    {V : Type 0} → (lhs rhs : Bucket V) → IsSound lhs → IsSound rhs → swap lhs rhs ≡ (rhs, lhs)
unfolding swap assign copied moved destroy new empty
swap_lem lhs rhs h k = elim (Bool-cases (lhs.header == 0)) [
  | inl none_left ↦
      subst (λ l. swap l rhs ≡ (rhs, l)) (sym (empty-new lhs h ((==_iff lhs.header 0).0 none_left)))
        (elim (Bool-cases (rhs.header == 0)) [
          | inl none_right ↦
              subst (λ r. swap new r ≡ (r, new))
                (sym (empty-new rhs k ((==_iff rhs.header 0).0 none_right))) refl
          | inr right ↦ rw (right, right) refl
        ])
  | inr left ↦ elim (Bool-cases (rhs.header == 0)) [
    | inl none_right ↦
        subst (λ r. swap lhs r ≡ (r, lhs))
          (sym (empty-new rhs k ((==_iff rhs.header 0).0 none_right))) (rw left refl)
    | inr right ↦ rw (left, right, right) refl
  ]
]
