-- ===== src/Cipher/Blocks.antt =====
-- A text in blocks of 16 bytes, the last one filled up with zeros.
use meshcore.Prelude.{
  ℕ, zero, suc, ◌-◌, ◌*◌, ◌%◌, ◌≤◌, ◌<◌, ◌≡◌, refl, ap, sym, ◌∙◌, List, [], ◌∷◌, ◌++◌, length, take,
  drop, replicate, arith, if◌then◌else◌, Bool-cases, inl, inr, leb, ltb, length-take, length-drop,
  length-append, length-replicate, take_all, append_assoc, append-nil, lt→ltb, leb→le, ltb→le,
  ltb→lt, leb→lt,
}
use meshcore.Cipher.{block_size}

-- The blocks of a text, the last one filled up with zeros.
unfoldable pub chunks : ℕ → List ℕ → List (List ℕ)
chunks zero src = []
chunks (suc fuel) src =
    let rest = chunks fuel (drop block_size src) in
    if ltb 0 (length src)
    then (take block_size src ++ replicate (block_size - length src) 0) ∷ rest
    else []

abbrev pub joined : List (List ℕ) → List ℕ
joined [] = []
joined (b ∷ bs) = b ++ joined bs

abbrev pub encrypted : (List ℕ → List ℕ) → List (List ℕ) → List ℕ
encrypted f [] = []
encrypted f (b ∷ bs) = f b ++ encrypted f bs

pub data AreBlocks : List (List ℕ) → Type 0 where
  no_blocks : AreBlocks []
  more_blocks :
      {b : List ℕ} {bs : List (List ℕ)} → length b ≡ block_size → AreBlocks bs → AreBlocks (b ∷ bs)

length-chunk :
    (src : List ℕ)
    → length (take block_size src ++ replicate (block_size - length src) 0) ≡ block_size
length-chunk src = omega (
  arith,
  length-append (take block_size src) (replicate (block_size - length src) 0),
  length-take block_size src,
  length-replicate {A = ℕ} (block_size - length src) 0,
)

pub chunks-AreBlocks : (fuel : ℕ) (src : List ℕ) → AreBlocks (chunks fuel src)
unfolding chunks
chunks-AreBlocks zero src = no_blocks
chunks-AreBlocks (suc fuel) src = elim (Bool-cases (ltb 0 (length src))) [
  | inl e ↦ rw e (more_blocks (length-chunk src) (chunks-AreBlocks fuel (drop block_size src)))
  | inr e ↦ rw e no_blocks
]

chunks-nil : (fuel : ℕ) → chunks fuel [] ≡ []
unfolding chunks
chunks-nil zero = refl
chunks-nil (suc fuel) = refl

drop_past : (n : ℕ) (src : List ℕ) → length src ≤ n → drop n src ≡ []
drop_past zero [] h = refl
drop_past zero (x ∷ src) h = absurd (omega arith)
drop_past (suc n) [] h = refl
drop_past (suc n) (x ∷ src) h = drop_past n src (omega arith)

pub chunks_whole :
    (fuel : ℕ) (src : List ℕ)
    → block_size ≤ length src
    → chunks (suc fuel) src ≡ take block_size src ∷ chunks fuel (drop block_size src)
unfolding chunks
chunks_whole fuel src h =
    let z : block_size - length src ≡ 0 = omega arith in
    rw (lt→ltb 0 (length src) (omega arith), z, append-nil (take block_size src)) refl

pub chunks_part :
    (fuel : ℕ) (src : List ℕ)
    → 0 < length src
    → length src ≤ block_size
    → chunks (suc fuel) src ≡ (src ++ replicate (block_size - length src) 0) ∷ []
unfolding chunks
chunks_part fuel src p h =
    rw
      (
        lt→ltb 0 (length src) p,
        take_all block_size src h,
        drop_past block_size src h,
        chunks-nil fuel,
      )
      refl

pub chunks_none : (fuel : ℕ) (src : List ℕ) → length src ≡ 0 → chunks fuel src ≡ []
chunks_none fuel [] h = chunks-nil fuel
chunks_none fuel (x ∷ src) h = absurd (omega arith)

-- The text filled up with zeros to whole blocks.
abbrev pub padded : List ℕ → List ℕ
padded src = src ++ replicate ((block_size - length src % block_size) % block_size) 0

joined-nothing : (fuel : ℕ) (src : List ℕ) → length src ≡ 0 → joined (chunks fuel src) ≡ padded src
joined-nothing fuel [] h = rw (chunks-nil fuel) refl
joined-nothing fuel (x ∷ src) h = absurd (omega arith)

take-drop : (n : ℕ) (xs : List ℕ) → take n xs ++ drop n xs ≡ xs
take-drop zero xs = refl
take-drop (suc n) [] = refl
take-drop (suc n) (x ∷ xs) = ap (λ ys. x ∷ ys) (take-drop n xs)

pub joined-chunks :
    (fuel : ℕ) (src : List ℕ) → length src ≤ fuel → joined (chunks fuel src) ≡ padded src
joined-chunks zero [] h = rw (chunks-nil zero) refl
joined-chunks zero (x ∷ src) h = absurd (omega arith)
joined-chunks (suc fuel) src h = elim (Bool-cases (leb block_size (length src))) [
  | inl e ↦
      let size = leb→le block_size (length src) e in
      let ih =
        joined-chunks fuel (drop block_size src) (omega (arith, length-drop block_size src)) in
      let same : length (drop block_size src) % block_size ≡ length src % block_size =
        omega (arith, length-drop block_size src) in
      let zeros : List ℕ = replicate ((block_size - length src % block_size) % block_size) 0 in
      rw (chunks_whole fuel src size) (
        rw (ih, same)
          (sym (append_assoc (take block_size src) (drop block_size src) zeros)
            ∙ ap (λ xs. xs ++ zeros) (take-drop block_size src)))
  | inr e ↦ elim (Bool-cases (ltb 0 (length src))) [
    | inl some_left ↦
        let small = leb→lt block_size (length src) e in
        let n : (block_size - length src % block_size) % block_size ≡ block_size - length src =
          omega (arith, ltb→lt 0 (length src) some_left) in
        rw (chunks_part fuel src (ltb→lt 0 (length src) some_left) (omega arith), n)
          (append-nil (src ++ replicate (block_size - length src) 0))
    | inr nothing ↦ joined-nothing (suc fuel) src (omega (arith, ltb→le 0 (length src) nothing))
  ]
]

pub length-joined :
    (bs : List (List ℕ)) → AreBlocks bs → length (joined bs) ≡ block_size * length bs
length-joined [] v = refl
length-joined (b ∷ bs) (more_blocks h v) =
    omega (arith, length-append b (joined bs), h, length-joined bs v)
