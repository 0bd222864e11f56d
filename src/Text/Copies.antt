-- ===== src/Text/Copies.antt =====
-- What the copies of `src/support/meshcore_txt_data.c` store.
use meshcore.Prelude.{
  ℕ, zero, suc, ◌≡◌, ◌≤◌, refl, ap, List, [], ◌∷◌, take, length, arith, length-replicate, ◌==◌,
  Bool-cases, inl, inr,
}
use meshcore.Hex.{c_string}
use meshcore.Text.{copied, filled_up}

-- A copy into `suc n` bytes reads as the first `n` characters of the text.
c_string-copied : (n : ℕ) (src : List ℕ) → c_string (copied (suc n) src) ≡ take n (c_string src)
unfolding copied c_string
c_string-copied zero src = refl
c_string-copied (suc n) [] = refl
c_string-copied (suc n) (c ∷ src) = elim (Bool-cases (c == 0)) [
  | inl e ↦ rw e refl
  | inr e ↦ rw e (simp e (ap (λ cs. c ∷ cs) (c_string-copied n src)))
]

-- So does a copy that is filled up with zeros, and it stores every byte of the array.
c_string-filled_up :
    (n : ℕ) (src : List ℕ) → c_string (filled_up (suc n) src) ≡ take n (c_string src)
unfolding filled_up c_string
c_string-filled_up zero src = refl
c_string-filled_up (suc n) [] = refl
c_string-filled_up (suc n) (c ∷ src) = elim (Bool-cases (c == 0)) [
  | inl e ↦ rw e refl
  | inr e ↦ rw e (simp e (ap (λ cs. c ∷ cs) (c_string-filled_up n src)))
]

length-filled_up : (n : ℕ) (src : List ℕ) → length (filled_up n src) ≡ n
unfolding filled_up
length-filled_up zero src = refl
length-filled_up (suc zero) src = refl
length-filled_up (suc (suc n)) [] = length-replicate (suc (suc n)) 0
length-filled_up (suc (suc n)) (c ∷ src) = elim (Bool-cases (c == 0)) [
  | inl e ↦ rw e (length-replicate (suc (suc n)) 0)
  | inr e ↦ rw e (omega (arith, length-filled_up (suc n) src))
]

-- A copy never stores more than the bytes of the array.
length-copied : (n : ℕ) (src : List ℕ) → length (copied n src) ≤ n
unfolding copied
length-copied zero src = omega arith
length-copied (suc zero) src = omega arith
length-copied (suc (suc n)) [] = omega arith
length-copied (suc (suc n)) (c ∷ src) = elim (Bool-cases (c == 0)) [
  | inl e ↦ rw e (omega arith)
  | inr e ↦ rw e (omega (arith, length-copied (suc n) src))
]
