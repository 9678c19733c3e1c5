-- ===== src/Prelude/Int.antt =====
-- Go's signed integers, without a bound on their size; `negsuc n` is -(n + 1).
use Prim.Native.Nat.{ℕ, zero, suc, ◌+◌, ◌*◌}
use nexus_ai_gateway.Prelude.{◌≡◌, refl, sym, ap, ◌∙◌, Bool, true, false, arith}

pub data ℤ : Type 0 where
  pos : ℕ → ℤ
  negsuc : ℕ → ℤ

-- The value of a positive integer, and 0 for any other.
abbrev pub pos_part : ℤ → ℕ
pos_part (pos n) = n
pos_part (negsuc n) = 0

-- The difference of two natural numbers.
abbrev pub minus : ℕ → ℕ → ℤ
minus m zero = pos m
minus zero (suc n) = negsuc n
minus (suc m) (suc n) = minus m n

infixl 6 ◌+ℤ◌
abbrev pub ◌+ℤ◌ : ℤ → ℤ → ℤ
pos m +ℤ pos n = pos (m + n)
pos m +ℤ negsuc n = minus m (suc n)
negsuc m +ℤ pos n = minus n (suc m)
negsuc m +ℤ negsuc n = negsuc (suc (m + n))

-- A multiple of an integer.
abbrev pub times : ℤ → ℕ → ℤ
times (pos m) n = pos (m * n)
times (negsuc m) n = minus zero (suc m * n)

abbrev pub is_negative : ℤ → Bool
is_negative (pos n) = false
is_negative (negsuc n) = true

minus-pos : (m n k : ℕ) → minus m n +ℤ pos k ≡ minus (m + k) n
minus-pos m zero k = refl
minus-pos zero (suc n) k = ap (λ x. minus x (suc n)) (omega arith)
minus-pos (suc m) (suc n) k =
    let e : suc (m + k) ≡ suc m + k = omega arith in minus-pos m n k ∙ ap (λ x. minus x (suc n)) e

minus-negsuc : (m n k : ℕ) → minus m n +ℤ negsuc k ≡ minus m (n + suc k)
minus-negsuc m zero k = let e : suc k ≡ 0 + suc k = omega arith in ap (minus m) e
minus-negsuc zero (suc n) k =
    let e : suc (suc (n + k)) ≡ suc n + suc k = omega arith in ap (minus zero) e
minus-negsuc (suc m) (suc n) k =
    let e : suc (n + suc k) ≡ suc n + suc k = omega arith in
    minus-negsuc m n k ∙ ap (minus (suc m)) e

+ℤ-comm : (x y : ℤ) → x +ℤ y ≡ y +ℤ x
+ℤ-comm (pos m) (pos n) = ap pos (omega arith)
+ℤ-comm (pos m) (negsuc n) = refl
+ℤ-comm (negsuc m) (pos n) = refl
+ℤ-comm (negsuc m) (negsuc n) = ap negsuc (omega arith)

pos-minus : (k m n : ℕ) → pos k +ℤ minus m n ≡ minus (k + m) n
pos-minus k m n =
    let e : m + k ≡ k + m = omega arith in
    +ℤ-comm (pos k) (minus m n) ∙ minus-pos m n k ∙ ap (λ x. minus x n) e

negsuc-minus : (k m n : ℕ) → negsuc k +ℤ minus m n ≡ minus m (suc k + n)
negsuc-minus k m n =
    let e : n + suc k ≡ suc k + n = omega arith in
    +ℤ-comm (negsuc k) (minus m n) ∙ minus-negsuc m n k ∙ ap (minus m) e

pub zero_addℤ : (x : ℤ) → pos 0 +ℤ x ≡ x
zero_addℤ (pos n) = ap pos (omega arith)
zero_addℤ (negsuc n) = refl

pub add_zeroℤ : (x : ℤ) → x +ℤ pos 0 ≡ x
add_zeroℤ x = +ℤ-comm x (pos 0) ∙ zero_addℤ x

pub add_assocℤ : (x y z : ℤ) → (x +ℤ y) +ℤ z ≡ x +ℤ (y +ℤ z)
add_assocℤ (pos m) (pos n) (pos k) = ap pos (omega arith)
add_assocℤ (pos m) (pos n) (negsuc k) = sym (pos-minus m n (suc k))
add_assocℤ (pos m) (negsuc n) (pos k) = minus-pos m (suc n) k ∙ sym (pos-minus m k (suc n))
add_assocℤ (pos m) (negsuc n) (negsuc k) =
    let e : suc n + suc k ≡ suc (suc (n + k)) = omega arith in
    minus-negsuc m (suc n) k ∙ ap (minus m) e
add_assocℤ (negsuc m) (pos n) (pos k) = minus-pos n (suc m) k
add_assocℤ (negsuc m) (pos n) (negsuc k) = minus-negsuc n (suc m) k ∙ sym (negsuc-minus m n (suc k))
add_assocℤ (negsuc m) (negsuc n) (pos k) =
    let e : suc (suc (m + n)) ≡ suc m + suc n = omega arith in
    ap (minus k) e ∙ sym (negsuc-minus m k (suc n))
add_assocℤ (negsuc m) (negsuc n) (negsuc k) = ap negsuc (omega arith)
