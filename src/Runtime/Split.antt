-- ===== src/Runtime/Split.antt =====
-- `memchr` of `src/runtime/meshcore_runtime_event_publish.c` and
-- `src/runtime/meshcore_runtime_receive.c` on texts that were put together.
use meshcore.Prelude.{
  ℕ, zero, suc, ◌≡◌, refl, ap, false, some, List, [], ◌∷◌, ◌++◌, replicate, ◌==◌, eq→==, Bool-cases,
  inl, inr,
}
use meshcore.Hex.{c_string}
use meshcore.Runtime.Publish.{split_at_byte}

-- No byte of the text is `c`.
pub data Without (c : ℕ) : List ℕ → Type 0 where
  no_byte : Without c []
  and_byte : {b : ℕ} {bs : List ℕ} → (b == c) ≡ false → Without c bs → Without c (b ∷ bs)

-- What follows a text: nothing, or a terminator first.
pub data Ends : List ℕ → Type 0 where
  at_end : Ends []
  at_nul : {bs : List ℕ} → Ends (0 ∷ bs)

pub split_at_byte-append :
    (text rest : List ℕ) → Without 0 text → Ends rest → (split_at_byte 0 (text ++ rest)).0 ≡ text
unfolding split_at_byte
split_at_byte-append [] _ no_byte at_end = refl
split_at_byte-append [] _ no_byte at_nul = refl
split_at_byte-append (b ∷ bs) rest (and_byte e n) s =
    rw e (ap (λ xs. b ∷ xs) (split_at_byte-append bs rest n s))

pub zeros-Ends : (n : ℕ) → Ends (replicate n 0)
zeros-Ends zero = at_end
zeros-Ends (suc n) = at_nul

pub split_at_byte-found :
    (c : ℕ) (before behind : List ℕ)
    → Without c before
    → split_at_byte c (before ++ (c ∷ behind)) ≡ (before, some behind)
unfolding split_at_byte
split_at_byte-found c [] behind no_byte = rw (eq→== c c refl) refl
split_at_byte-found c (b ∷ bs) behind (and_byte e n) =
    rw (e, split_at_byte-found c bs behind n) refl

pub append-Without : {c : ℕ} (xs ys : List ℕ) → Without c xs → Without c ys → Without c (xs ++ ys)
append-Without [] ys no_byte s = s
append-Without (b ∷ xs) ys (and_byte e n) s = and_byte e (append-Without xs ys n s)

-- A text ends before its first terminator.
pub c_string-Without : (bytes : List ℕ) → Without 0 (c_string bytes)
unfolding c_string
c_string-Without [] = no_byte
c_string-Without (c ∷ cs) = elim (Bool-cases (c == 0)) [
  | inl e ↦ rw e no_byte
  | inr e ↦ rw e (and_byte e (c_string-Without cs))
]

pub c_string_self : (text : List ℕ) → Without 0 text → c_string text ≡ text
unfolding c_string
c_string_self [] no_byte = refl
c_string_self (b ∷ bs) (and_byte e n) = rw (e, c_string_self bs n) refl
