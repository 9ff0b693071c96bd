-- ===== src/Backup/Buffer.antt =====
-- `limitedBuffer`: what a client process prints is kept up to 4096 bytes.
use Prim.Native.Nat.{min}
use mathlib.Core.List.{flatten, append_assoc, append-nil}
use base_guard.Base.{
  ℕ, zero, suc, ◌-◌, ◌≤◌, ◌≡◌, refl, ap, ◌∙◌, List, [], ◌∷◌, ◌++◌, ltb, length, take, sym, inl, inr,
  Bool-cases, if◌then◌else◌, arith,
}
use base_guard.Disk.{Bytes}

abbrev pub limit : ℕ
limit = 4096

-- `Write`: the new contents, and the count that it reports.
pub write : Bytes → Bytes → Bytes × ℕ
write b p =
    if ltb (length b) limit
    then (b ++ take (min (length p) (limit - length b)) p, length p)
    else (b, length p)

-- The contents after a sequence of writes.
pub write_all : Bytes → List Bytes → Bytes
write_all b [] = b
write_all b (p ∷ ps) = write_all (write b p).0 ps

take-min : (k : ℕ) (p : Bytes) → take (min (length p) k) p ≡ take k p
take-min zero [] = ap (λ n. take n []) (let e : min 0 0 ≡ 0 = omega arith in e)
take-min zero (x ∷ p) =
    ap (λ n. take n (x ∷ p)) (let e : min (length (x ∷ p)) 0 ≡ 0 = omega arith in e)
take-min (suc k) [] = ap (λ n. take n []) (let e : min 0 (suc k) ≡ 0 = omega arith in e)
take-min (suc k) (x ∷ p) =
    ap (λ n. take n (x ∷ p))
      (let e : min (suc (length p)) (suc k) ≡ suc (min (length p) k) = omega arith in e)
    ∙ ap (◌∷◌ x) (take-min k p)

-- What is kept of `b ++ p` when `b` fits.
take-append : (n : ℕ) (b p : Bytes) → length b ≤ n → take n (b ++ p) ≡ b ++ take (n - length b) p
take-append n [] p h = ap (λ k. take k p) (let e : n ≡ n - 0 = omega arith in e)
take-append zero (x ∷ b) p h = absurd (omega arith)
take-append (suc n) (x ∷ b) p h = ap (◌∷◌ x) (
    take-append n b p (omega arith)
    ∙ ap (λ k. b ++ take k p) (let e : n - length b ≡ suc n - suc (length b) = omega arith in e))

take-take-append : (n : ℕ) (xs ys : Bytes) → take n (take n xs ++ ys) ≡ take n (xs ++ ys)
take-take-append zero xs ys = refl
take-take-append (suc n) [] ys = refl
take-take-append (suc n) (x ∷ xs) ys = ap (◌∷◌ x) (take-take-append n xs ys)

length-take-le : (n : ℕ) (xs : Bytes) → length (take n xs) ≤ n
length-take-le zero xs = omega arith
length-take-le (suc n) [] = omega arith
length-take-le (suc n) (x ∷ xs) = omega (arith, length-take-le n xs)

take-zero : (n : ℕ) (p : Bytes) → n ≡ 0 → take n p ≡ []
take-zero n p e = ap (λ k. take k p) e

take-nil : (n : ℕ) → take {A = ℕ} n [] ≡ []
take-nil zero = refl
take-nil (suc n) = refl

-- One write keeps the first `limit` bytes of what was there and what came.
write-take : (b p : Bytes) → length b ≤ limit → (write b p).0 ≡ take limit (b ++ p)
unfolding write
write-take b p h = elim (Bool-cases (ltb (length b) limit)) [
  | inl e ↦ rw e (ap (◌++◌ b) (take-min (limit - length b) p) ∙ sym (take-append limit b p h))
  | inr e ↦ rw e (
      sym (append-nil b)
      ∙ ap (◌++◌ b) (sym (take-zero (limit - length b) p (ground arith)))
      ∙ sym (take-append limit b p h))
]

write_count : (b p : Bytes) → (write b p).1 ≡ length p
unfolding write
write_count b p = ground arith

write_all-take :
    (b : Bytes) (ps : List Bytes) → length b ≤ limit → write_all b ps ≡ take limit (b ++ flatten ps)
unfolding write_all flatten
write_all-take b [] h =
    sym (take-append limit b [] h ∙ ap (◌++◌ b) (take-nil (limit - length b)) ∙ append-nil b)
write_all-take b (p ∷ ps) h =
    write_all-take (write b p).0 ps (rw (write-take b p h) (length-take-le limit (b ++ p)))
    ∙ ap (λ x. take limit (x ++ flatten ps)) (write-take b p h)
    ∙ take-take-append limit (b ++ p) (flatten ps)
    ∙ ap (take limit) (append_assoc b p (flatten ps))

-- Whatever the sizes of the writes, an empty buffer ends with the first 4096 bytes of all that was
-- written, and each write reports all of its bytes as taken.
pub write_all-eq-take :
    (ps : List Bytes)
    → (write_all [] ps ≡ take limit (flatten ps)) × ((b p : Bytes) → (write b p).1 ≡ length p)
write_all-eq-take ps = (write_all-take [] ps (omega arith), write_count)
