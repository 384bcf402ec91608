-- ===== src/Inp/RelativeState/Conservation.antt =====
-- No movement is lost or counted twice between the threads that handle and take it
-- (src/inp/relative_rt_state.hpp): each call is one atomic step on a block, in any order.
use mathlib.Core.Option.{some-injective}
use braincells.Common.{
  subst, ap₂, ℕ, zero, suc, ◌+◌, ◌%◌, ◌≡◌, ◌≢◌, ◌<◌, refl, sym, ap, ◌∙◌, Bool, true, false, List,
  [], ◌∷◌, map, Option, none, some, get_or, set, length, if◌then◌else◌, ◌==◌, ==_iff, word32, arith,
  length-set, get_or-set_self, get_or-set_ne, Bool-cases, inl, inr,
}
use braincells.Inp.{fetch_add}
use braincells.Inp.RelativeState.{
  first_idx, code_to_idx, load_at, add_at, reset_at, handle, get, take, take_all,
}

-- A call of the event thread or of the consumer.
pub data Step : Type 0 where
  handled : ℕ → ℕ → Step
  taken : ℕ → Step
  all_taken : Step

-- An index leads back to its code.
abbrev Locates : List ℕ → ℕ → ℕ → Type 0
Locates codes k i = (i < length codes) × (get_or codes i 0 ≡ k)

first_idx-Locates :
    (x k : ℕ) (codes : List ℕ) (r : Option ℕ) (i : ℕ)
    → ((j : ℕ) → r ≡ some j → Locates codes k j)
    → first_idx x k r ≡ some i
    → Locates (x ∷ codes) k i
unfolding first_idx
first_idx-Locates x k codes (some j) i ih e =
    let l = ih j refl in
    subst (λ (n : ℕ). Locates (x ∷ codes) k n) (some-injective (suc j) i e)
      (omega (arith, l.0), l.1)
first_idx-Locates x k codes none i ih e = elim (Bool-cases (x == k)) [
  | inl same ↦
      let at_front : some 0 ≡ some i =
        ap {A = Bool} {B = Option ℕ} (λ t. if t then some 0 else none) (sym same) ∙ e in
      subst (λ (n : ℕ). Locates (x ∷ codes) k n) (some-injective 0 i at_front)
        (omega arith, (==_iff x k).0 same)
  | inr other ↦
      let nowhere : none ≡ some i =
        ap {A = Bool} {B = Option ℕ} (λ t. if t then some 0 else none) (sym other) ∙ e in
      cc
]

code_to_idx-Locates : (codes : List ℕ) (k i : ℕ) → code_to_idx codes k ≡ some i → Locates codes k i
unfolding code_to_idx
code_to_idx-Locates [] k i e = cc
code_to_idx-Locates (x ∷ codes) k i e =
    first_idx-Locates x k codes (code_to_idx codes k) i (λ j e'. code_to_idx-Locates codes k j e') e

length-map-zero : (xs : List ℕ) → length (map (λ (_ : ℕ). zero) xs) ≡ length xs
length-map-zero [] = refl
length-map-zero (x ∷ xs) = ap suc (length-map-zero xs)

get_or-map-zero : (xs : List ℕ) (i : ℕ) → get_or (map (λ (_ : ℕ). zero) xs) i 0 ≡ 0
get_or-map-zero [] i = refl
get_or-map-zero (x ∷ xs) zero = refl
get_or-map-zero (x ∷ xs) (suc i) = get_or-map-zero xs i

module _ (codes : List ℕ) where
  unfoldable pub after : List ℕ → Step → List ℕ
  unfolding handle take take_all
  after states (handled code value) = (handle codes states code value).1
  after states (taken code) = (take codes states code).1
  after states all_taken = (take_all states).1

  -- What a step adds to the movement of `c`, and what it hands to the consumer.
  unfoldable pub produced : ℕ → Step → ℕ
  produced c (handled code value) = if code == c then value else 0
  produced c (taken code) = 0
  produced c all_taken = 0

  unfoldable pub consumed : ℕ → List ℕ → Step → ℕ
  unfolding take take_all
  consumed c states (handled code value) = 0
  consumed c states (taken code) = if code == c then (take codes states code).0 else 0
  consumed c states all_taken = load_at (take_all states).0 (code_to_idx codes c)

  unfoldable pub run : List ℕ → List Step → List ℕ
  unfolding after
  run states [] = states
  run states (s ∷ steps) = run (after states s) steps

  unfoldable pub produced_all : ℕ → List Step → ℕ
  unfolding produced
  produced_all c [] = 0
  produced_all c (s ∷ steps) = produced c s + produced_all c steps

  unfoldable pub consumed_all : ℕ → List ℕ → List Step → ℕ
  unfolding consumed after
  consumed_all c states [] = 0
  consumed_all c states (s ∷ steps) = consumed c states s + consumed_all c (after states s) steps

  other_code :
      (c i k : ℕ) → code_to_idx codes c ≡ some i → code_to_idx codes k ≡ none → (k == c) ≡ false
  other_code c i k e er = elim (Bool-cases (k == c)) [
    | inl same ↦
        let clash : none ≡ some i = sym er ∙ ap (code_to_idx codes) ((==_iff k c).0 same) ∙ e in cc
    | inr other ↦ other
  ]

  same_idx :
      (c i k j : ℕ)
      → code_to_idx codes c ≡ some i
      → code_to_idx codes k ≡ some j
      → (k == c) ≡ true
      → j ≡ i
  same_idx c i k j e er same =
      some-injective j i (sym er ∙ ap (code_to_idx codes) ((==_iff k c).0 same) ∙ e)

  -- The block of a handled code, and the blocks of the others.
  load_at-set :
      (states : List ℕ) (c k i j v : ℕ)
      → length states ≡ length codes
      → code_to_idx codes c ≡ some i
      → code_to_idx codes k ≡ some j
      → get_or (set states j v) i 0 ≡ (if k == c then v else get_or states i 0)
  load_at-set states c k i j v len e e' = elim (Bool-cases (k == c)) [
    | inl same ↦
        let here : j ≡ i = same_idx c i k j e e' same in
        rw same (
          ap (λ (n : ℕ). get_or (set states n v) i 0) here
          ∙ get_or-set_self states i v 0 (omega (arith, (code_to_idx-Locates codes c i e).0)))
    | inr other ↦
        let elsewhere : j ≢ i = λ q.
          let same : k ≡ c =
            sym (code_to_idx-Locates codes k j e').1
            ∙ ap (λ (n : ℕ). get_or codes n 0) q
            ∙ (code_to_idx-Locates codes c i e).1 in
          ground arith in
        rw other (get_or-set_ne states j i v 0 elsewhere)
  ]

  handled_lem :
      (c i k v : ℕ) (states : List ℕ) (r : Option ℕ)
      → length states ≡ length codes
      → code_to_idx codes c ≡ some i
      → code_to_idx codes k ≡ r
      → (length (add_at states r v).1 ≡ length codes)
        × (get_or (add_at states r v).1 i 0 % word32
            ≡ ((if k == c then v else 0) + get_or states i 0) % word32)
  unfolding add_at fetch_add
  handled_lem c i k v states none len e er = (len, ground (arith, other_code c i k e er))
  handled_lem c i k v states (some j) len e er =
      let added : ℕ = (get_or states j 0 + v % word32) % word32 in
      (
        length-set states j added ∙ len,
        ap (λ (n : ℕ). n % word32) (load_at-set states c k i j added len e er)
            ∙ elim (Bool-cases (k == c)) [
              | inl same ↦
                  let h = ap (λ (n : ℕ). get_or states n 0) (same_idx c i k j e er same) in
                  rw same (omega (arith, h))
              | inr other ↦ rw other (omega arith)
            ],
      )

  taken_lem :
      (c i k : ℕ) (states : List ℕ) (r : Option ℕ)
      → length states ≡ length codes
      → code_to_idx codes c ≡ some i
      → code_to_idx codes k ≡ r
      → (length (reset_at states r) ≡ length codes)
        × ((if k == c then load_at states r else 0) + get_or (reset_at states r) i 0
            ≡ get_or states i 0)
  unfolding reset_at load_at
  taken_lem c i k states none len e er = (len, ground arith)
  taken_lem c i k states (some j) len e er = (
    length-set states j 0 ∙ len,
    elim (Bool-cases (k == c)) [
      | inl same ↦
          let h = ap (λ (n : ℕ). get_or states n 0) (same_idx c i k j e er same) in
          let gone : get_or (set states j 0) i 0 ≡ 0 =
            load_at-set states c k i j 0 len e er ∙ rw same refl in
          rw same (omega (arith, h, gone))
      | inr other ↦
          let kept : get_or (set states j 0) i 0 ≡ get_or states i 0 =
            load_at-set states c k i j 0 len e er ∙ rw other refl in
          rw other (omega (arith, kept))
    ],
  )

  after_lem :
      (c i : ℕ) (states : List ℕ) (s : Step)
      → length states ≡ length codes
      → code_to_idx codes c ≡ some i
      → (length (after states s) ≡ length codes)
        × ((consumed c states s + get_or (after states s) i 0) % word32
            ≡ (produced c s + get_or states i 0) % word32)
  unfolding after consumed produced handle take take_all load_at reset_at
  after_lem c i states (handled k v) len e =
      let h = handled_lem c i k v states (code_to_idx codes k) len e refl in
      (h.0, omega (arith, h.1))
  after_lem c i states (taken k) len e =
      let t = taken_lem c i k states (code_to_idx codes k) len e refl in (t.0, omega (arith, t.1))
  after_lem c i states all_taken len e = (
    length-map-zero states ∙ len,
    ap₂ (λ (m n : ℕ). (m + n) % word32) (ap (load_at states) e) (get_or-map-zero states i)
        ∙ omega arith,
  )

  conserved :
      (c i : ℕ) (steps : List Step) (states : List ℕ)
      → length states ≡ length codes
      → code_to_idx codes c ≡ some i
      → (consumed_all c states steps + get_or (run states steps) i 0) % word32
        ≡ (produced_all c steps + get_or states i 0) % word32
  unfolding run consumed_all produced_all
  conserved c i [] states len e = refl
  conserved c i (s ∷ steps) states len e =
      let one = after_lem c i states s len e in
      let rest = conserved c i steps (after states s) one.0 e in omega (arith, one.1, rest)

  -- Whatever the order of the calls, what the consumer takes of a code and what is left of it add up to
  -- what was handled and what was there, modulo the width of a block.
  pub conservation :
      (c i : ℕ) (steps : List Step) (states : List ℕ)
      → length states ≡ length codes
      → code_to_idx codes c ≡ some i
      → (consumed_all c states steps + get codes (run states steps) c) % word32
        ≡ (produced_all c steps + get codes states c) % word32
  unfolding get load_at
  conservation c i steps states len e =
      ap (λ (r : Option ℕ). (consumed_all c states steps + load_at (run states steps) r) % word32) e
      ∙ conserved c i steps states len e
      ∙ ap (λ (r : Option ℕ). (produced_all c steps + load_at states r) % word32) (sym e)
