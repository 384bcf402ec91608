-- ===== src/Byteconv/RoundTrip.antt =====
-- core::from_bytes reads back what core::to_bytes wrote (src/core/byteconv.hpp).
use braincells.Common.{
  ℕ, ◌+◌, ◌*◌, ◌%◌, ◌≡◌, ◌<◌, refl, sym, ap, ap₂, ◌∙◌, List, [], ◌∷◌, ◌++◌, length, take, drop,
  word32, append-nil, append_assoc, take-length-append, drop-length-append, length-append, arith,
  false, ltb, subst,
}
use braincells.Byteconv.{
  Shape, trivial, span_like, range, no_fields, field, no_more, Value, u32_bytes, u32_value, concat,
  to_bytes, read, Reader, continue, from_trivial, and_then, finish, chunks, from_span,
  from_bytes_each, from_bytes,
}
use braincells.Byteconv.Encode.{encode, encode_each, to_bytes-encode}

unfoldable pub Each : {A : Type 0} → (A → Type 0) → List A → Type 0
Each P [] = List ℕ
Each P (v ∷ vs) = P v × Each P vs

-- The values of a shape: representations have the size of their type, and counts fit in 32 bits.
unfoldable pub Fits : (s : Shape) → Value s → Type 0
unfolding Value Each
Fits (trivial n) v = length v ≡ n
Fits (span_like n) v = (length v < word32) × Each (λ c. length c ≡ n) v
Fits (range s) v = (length v < word32) × Each (Fits s) v
Fits no_fields v = v ≡ no_more
Fits (field s r) (v, w) = Fits s v × Fits r w

-- The reader takes these bytes for this value, whatever follows them.
abbrev Decodes : {A : Type 0} → Reader A → List ℕ → A → Type 0
Decodes f bytes v =
    (rest : List ℕ) (debug_offset debug_size : ℕ)
    → f (bytes ++ rest) debug_offset debug_size ≡ read v (length bytes)

and_then-Decodes :
    {A B : Type 0}
    → (f : Reader A) (g : A → Reader B) (b c : List ℕ) (v : A) (w : B) → Decodes f b v
    → Decodes (g v) c w
    → Decodes (and_then f g) (b ++ c) w
unfolding and_then continue
and_then-Decodes f g b c v w hf hg rest o d =
    let e : f ((b ++ c) ++ rest) o d ≡ read v (length b) =
      ap (λ t. f t o d) (append_assoc b c rest) ∙ hf (c ++ rest) o d in
    let k : g v (drop (length b) ((b ++ c) ++ rest)) (o + length b) d ≡ read w (length c) =
      ap (λ t. g v t (o + length b) d)
        (ap (λ (t : List ℕ). drop (length b) t) (append_assoc b c rest)
          ∙ drop-length-append b (c ++ rest))
      ∙ hg rest (o + length b) d in
    ap
      (λ r.
        continue r
          (λ u n. continue (g u (drop n ((b ++ c) ++ rest)) (o + n) d) (λ x m. read x (n + m))))
      e
    ∙ ap (λ r. continue r (λ x m. read x (length b + m))) k
    ∙ ap (λ (n : ℕ). read w n) (sym (length-append b c))

mapped-Decodes :
    {A B : Type 0}
    → (f : Reader A) (g : A → B) (b : List ℕ) (v : A) → Decodes f b v
    → Decodes (and_then f (λ u. finish (g u))) b (g v)
unfolding finish
mapped-Decodes f g b v h =
    subst (λ t. Decodes (and_then f (λ u. finish (g u))) t (g v)) (append-nil b)
      (and_then-Decodes f (λ u. finish (g u)) b [] v (g v) h (λ rest o d. refl))

from_trivial-Decodes : (n : ℕ) (v : List ℕ) → length v ≡ n → Decodes (from_trivial n) v v
unfolding from_trivial
from_trivial-Decodes n v e rest o d =
    let enough : ltb (length (v ++ rest)) n ≡ false = ground (arith, length-append v rest, e) in
    rw enough (
      ap₂ (λ t (k : ℕ). read t k)
        (ap (λ (k : ℕ). take k (v ++ rest)) (sym e) ∙ take-length-append v rest) (sym e))

u32_value-u32_bytes : (n : ℕ) → n < word32 → u32_value (u32_bytes n) ≡ n
unfolding u32_value u32_bytes
u32_value-u32_bytes n h = omega arith

length-concat :
    (n : ℕ) (v : List (List ℕ)) → Each (λ c. length c ≡ n) v → length (concat v) ≡ length v * n
unfolding concat Each
length-concat n [] h = omega arith
length-concat n (c ∷ v) (e, h) =
    length-append c (concat v) ∙ ap₂ (λ (i j : ℕ). i + j) e (length-concat n v h) ∙ omega arith

chunks-concat :
    (n : ℕ) (v : List (List ℕ)) (rest : List ℕ)
    → Each (λ c. length c ≡ n) v
    → chunks n (length v) (concat v ++ rest) ≡ v
unfolding chunks concat Each
chunks-concat n [] rest h = refl
chunks-concat n (c ∷ v) rest (e, h) =
    let whole = append_assoc c (concat v) rest in
    ap₂ ◌∷◌ (ap₂ (λ (k : ℕ) t. take k t) (sym e) whole ∙ take-length-append c (concat v ++ rest)) (
      ap (λ t. chunks n (length v) t)
        (ap₂ (λ (k : ℕ) t. drop k t) (sym e) whole ∙ drop-length-append c (concat v ++ rest))
      ∙ chunks-concat n v rest h)

from_span-Decodes :
    (n : ℕ) (v : List (List ℕ))
    → Each (λ c. length c ≡ n) v
    → Decodes (from_span n (length v)) (concat v) v
unfolding from_span
from_span-Decodes n v h rest o d =
    let l = length-concat n v h in
    let enough : ltb (length (concat v ++ rest)) (length v * n) ≡ false =
      ground (arith, length-append (concat v) rest, l) in
    rw enough (ap₂ (λ t (k : ℕ). read t k) (chunks-concat n v rest h) (sym l))

from_bytes_each-Decodes :
    {A : Type 0}
    → (f : Reader A) (enc : A → List ℕ) (P : A → Type 0) → ((v : A) → P v → Decodes f (enc v) v)
    → (vs : List A) → Each P vs
    → Decodes (from_bytes_each f (length vs)) (encode_each enc vs) vs
unfolding from_bytes_each encode_each Each finish
from_bytes_each-Decodes f enc P k [] h = λ rest o d. refl
from_bytes_each-Decodes f enc P k (v ∷ vs) (p, h) =
    let ih = from_bytes_each-Decodes f enc P k vs h in
    and_then-Decodes f (λ u. and_then (from_bytes_each f (length vs)) (λ us. finish (u ∷ us)))
      (enc v) (encode_each enc vs) v (v ∷ vs) (k v p)
      (mapped-Decodes (from_bytes_each f (length vs)) (λ us. v ∷ us) (encode_each enc vs) vs ih)

-- The count that `from_trivial 4` reads.
counted-Decodes :
    {B : Type 0}
    → (g : ℕ → Reader B) (count : ℕ) (c : List ℕ) (w : B) → count < word32
    → Decodes (g count) c w
    → Decodes
        (and_then (from_trivial 4) (λ size. g (u32_value size)))
        (u32_bytes (count % word32) ++ c)
        w
unfolding u32_bytes
counted-Decodes g count c w h k =
    let e : u32_value (u32_bytes (count % word32)) ≡ count =
      u32_value-u32_bytes (count % word32) (omega arith) ∙ omega arith in
    and_then-Decodes (from_trivial 4) (λ size. g (u32_value size)) (u32_bytes (count % word32)) c
      (u32_bytes (count % word32)) w (from_trivial-Decodes 4 (u32_bytes (count % word32)) refl)
      (subst (λ (n : ℕ). Decodes (g n) c w) (sym e) k)

encode-Decodes : (s : Shape) (v : Value s) → Fits s v → Decodes (from_bytes s) (encode s v) v
unfolding from_bytes encode Fits Value finish
encode-Decodes (trivial n) v h = from_trivial-Decodes n v h
encode-Decodes (span_like n) v (small, h) =
    counted-Decodes (from_span n) (length v) (concat v) v small (from_span-Decodes n v h)
encode-Decodes (range s) v (small, h) =
    counted-Decodes (from_bytes_each (from_bytes s)) (length v) (encode_each (encode s) v) v small
      (from_bytes_each-Decodes (from_bytes s) (encode s) (Fits s) (λ w p. encode-Decodes s w p) v h)
encode-Decodes no_fields v h = λ rest o d. ap (λ u. read u 0) (sym h)
encode-Decodes (field s r) (v, w) (h, k) =
    and_then-Decodes (from_bytes s) (λ u. and_then (from_bytes r) (λ x. finish (u, x))) (encode s v)
      (encode r w) v (v, w) (encode-Decodes s v h)
      (mapped-Decodes (from_bytes r) (λ x. (v, x)) (encode r w) w (encode-Decodes r w k))

-- `from_bytes` reads back the value that `to_bytes` appended to an empty buffer, whatever bytes follow
-- it, and returns how many bytes that took.
pub from_bytes-to_bytes :
    (s : Shape) (v : Value s) (rest : List ℕ) (debug_offset debug_size : ℕ)
    → Fits s v
    → from_bytes s (to_bytes s v [] ++ rest) debug_offset debug_size
      ≡ read v (length (to_bytes s v []))
from_bytes-to_bytes s v rest o d h =
    subst (λ (t : List ℕ). from_bytes s (t ++ rest) o d ≡ read v (length t))
      (sym (to_bytes-encode s v [])) (encode-Decodes s v h rest o d)
