-- ===== src/Export/Bytes.antt =====
-- `concatBytes` of web/src/lib/flow-export.ts, and the decimal digits of a number.
use mc_gantry.Base.{
  ℕ, zero, suc, ◌+◌, ◌≡◌, refl, sym, ap, ◌∙◌, List, [], ◌∷◌, ◌++◌, append_assoc, arith, length,
  take, drop, length-append, Text, digits_rev,
}
use mathlib.Core.List.{reverse}

abbrev pub Bytes : Type 0
Bytes = List ℕ

-- `new Uint8Array(n)`
unfoldable pub zeros : ℕ → Bytes
zeros zero = []
zeros (suc n) = 0 ∷ zeros n

-- `result.set(chunk, offset)`, within the bounds.
abbrev pub write_at : Bytes → ℕ → Bytes → Bytes
write_at result offset chunk = take offset result ++ (chunk ++ drop (offset + length chunk) result)

unfoldable pub total_length : List Bytes → ℕ
total_length [] = 0
total_length (chunk ∷ chunks) = length chunk + total_length chunks

copy_chunks : Bytes → ℕ → List Bytes → Bytes
copy_chunks result offset [] = result
copy_chunks result offset (chunk ∷ chunks) =
    copy_chunks (write_at result offset chunk) (offset + length chunk) chunks

unfoldable pub concat_bytes : List Bytes → Bytes
unfolding zeros total_length copy_chunks
concat_bytes chunks = copy_chunks (zeros (total_length chunks)) 0 chunks

-- The chunks one after the other.
unfoldable pub joined : List Bytes → Bytes
joined [] = []
joined (chunk ∷ chunks) = chunk ++ joined chunks

take-length : (xs ys : Bytes) → take (length xs) (xs ++ ys) ≡ xs
take-length [] ys = refl
take-length (x ∷ xs) ys = ap (◌∷◌ x) (take-length xs ys)

drop-add : (xs ys : Bytes) (n : ℕ) → drop (length xs + n) (xs ++ ys) ≡ drop n ys
drop-add [] ys n = rw (zero_add n)
  where
    zero_add : (n : ℕ) → 0 + n ≡ n
    zero_add n = omega arith
drop-add (x ∷ xs) ys n = rw (suc_add n) (drop-add xs ys n)
  where
    suc_add : (n : ℕ) → suc (length xs) + n ≡ suc (length xs + n)
    suc_add n = omega arith

drop-zeros : (a b : ℕ) → drop a (zeros (a + b)) ≡ zeros b
unfolding zeros
drop-zeros zero b = rw (zero_add b)
  where
    zero_add : (n : ℕ) → 0 + n ≡ n
    zero_add n = omega arith
drop-zeros (suc a) b = rw suc_add (drop-zeros a b)
  where
    suc_add : suc a + b ≡ suc (a + b)
    suc_add = omega arith

copy_chunks-front :
    (front : Bytes) (chunks : List Bytes) (offset : ℕ)
    → offset ≡ length front
    → copy_chunks (front ++ zeros (total_length chunks)) offset chunks ≡ front ++ joined chunks
unfolding copy_chunks joined total_length
copy_chunks-front front [] offset e = unfold zeros in refl
copy_chunks-front front (chunk ∷ chunks) offset e =
    let rest = zeros (length chunk + total_length chunks) in
    let written : write_at (front ++ rest) offset chunk
        ≡ (front ++ chunk) ++ zeros (total_length chunks) =
      rw
        (
          e,
          take-length front rest,
          drop-add front rest (length chunk),
          drop-zeros (length chunk) (total_length chunks),
        )
        (sym (append_assoc front chunk _)) in
    rw written (
      copy_chunks-front (front ++ chunk) chunks (offset + length chunk)
        (omega (arith, length-append front chunk))
      ∙ append_assoc front chunk (joined chunks))

-- The copying of all chunks into one array is their concatenation: nothing is overwritten and no
-- byte of the array is left at 0.
pub concat_bytes-eq-joined : (chunks : List Bytes) → concat_bytes chunks ≡ joined chunks
unfolding concat_bytes
concat_bytes-eq-joined chunks = copy_chunks-front [] chunks 0 refl

pub joined-append : (xs ys : List Bytes) → joined (xs ++ ys) ≡ joined xs ++ joined ys
unfolding joined
joined-append [] ys = refl
joined-append (x ∷ xs) ys = rw (joined-append xs ys) (sym (append_assoc x _ _))

-- `String(n)` for a whole number that is not negative.
unfoldable pub decimal : ℕ → Text
unfolding digits_rev
decimal n = reverse (digits_rev (suc n) n)
