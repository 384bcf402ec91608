-- ===== src/Byteconv/Encode.antt =====
-- What core::to_bytes (src/core/byteconv.hpp) appends: a format without buffers and positions.
use braincells.Common.{
  ℕ, ◌+◌, ◌%◌, ◌≡◌, sym, ap, ap₂, ◌∙◌, List, [], ◌∷◌, ◌++◌, length, take, drop, word32, append-nil,
  append_assoc, take-length-append, drop-length-append, drop-drop,
}
use braincells.Io.{copy_at}
use braincells.Io.Memory.Laws.{copy_at-resize}
use braincells.Byteconv.{
  Shape, trivial, span_like, range, no_fields, field, Value, u32_bytes, put, concat, to_bytes_each,
  to_bytes,
}

unfoldable pub encode_each : {A : Type 0} → (A → List ℕ) → List A → List ℕ
encode_each f [] = []
encode_each f (v ∷ vs) = f v ++ encode_each f vs

unfoldable pub encode : (s : Shape) → Value s → List ℕ
unfolding Value
encode (trivial n) v = v
encode (span_like n) v = u32_bytes (length v % word32) ++ concat v
encode (range s) v = u32_bytes (length v % word32) ++ encode_each (encode s) v
encode no_fields v = []
encode (field s r) (v, w) = encode s v ++ encode r w

pub put_lem : (bytes out : List ℕ) → put bytes out ≡ out ++ bytes
unfolding put
put_lem bytes out = copy_at-resize out bytes

to_bytes_each_lem :
    {A : Type 0}
    → (f : A → List ℕ → List ℕ) (g : A → List ℕ) → ((v : A) (out : List ℕ) → f v out ≡ out ++ g v)
    → (vs : List A) (out : List ℕ) → to_bytes_each f vs out ≡ out ++ encode_each g vs
unfolding to_bytes_each encode_each
to_bytes_each_lem f g h [] out = sym (append-nil out)
to_bytes_each_lem f g h (v ∷ vs) out =
    to_bytes_each_lem f g h vs (f v out)
    ∙ ap (λ t. t ++ encode_each g vs) (h v out)
    ∙ append_assoc out (g v) (encode_each g vs)

-- The count is written over its place.
copy_at_count :
    (out rest : List ℕ) (count : ℕ)
    → copy_at ((out ++ u32_bytes 0) ++ rest) (length out) (u32_bytes count)
      ≡ out ++ (u32_bytes count ++ rest)
unfolding copy_at u32_bytes
copy_at_count out rest count =
    let whole : List ℕ = u32_bytes 0 ++ rest in
    ap (λ (t : List ℕ). take (length out) t ++ (u32_bytes count ++ drop (length out + 4) t))
      (append_assoc out (u32_bytes 0) rest)
    ∙ ap₂ (λ t u. t ++ (u32_bytes count ++ u)) (take-length-append out whole)
        (sym (drop-drop 4 (length out) (out ++ whole))
          ∙ ap (λ (t : List ℕ). drop 4 t) (drop-length-append out whole))

-- `to_bytes` appends the encoding of the value, whatever the buffer holds already.
pub to_bytes-encode :
    (s : Shape) (v : Value s) (out : List ℕ) → to_bytes s v out ≡ out ++ encode s v
unfolding to_bytes encode Value
to_bytes-encode (trivial n) v out = put_lem v out
to_bytes-encode (span_like n) v out =
    put_lem (concat v) (put (u32_bytes (length v % word32)) out)
    ∙ ap (λ t. t ++ concat v) (put_lem (u32_bytes (length v % word32)) out)
    ∙ append_assoc out (u32_bytes (length v % word32)) (concat v)
to_bytes-encode (range s) v out =
    ap (λ t. copy_at t (length out) (u32_bytes (length v % word32)))
      (to_bytes_each_lem (to_bytes s) (encode s) (λ w o. to_bytes-encode s w o) v
          (put (u32_bytes 0) out)
        ∙ ap (λ t. t ++ encode_each (encode s) v) (put_lem (u32_bytes 0) out))
    ∙ copy_at_count out (encode_each (encode s) v) (length v % word32)
to_bytes-encode no_fields v out = sym (append-nil out)
to_bytes-encode (field s r) (v, w) out =
    to_bytes-encode r w (to_bytes s v out)
    ∙ ap (λ t. t ++ encode r w) (to_bytes-encode s v out)
    ∙ append_assoc out (encode s v) (encode r w)
