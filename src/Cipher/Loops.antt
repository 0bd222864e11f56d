-- ===== src/Cipher/Loops.antt =====
-- The loops of `meshcore_utils_encrypt` and `meshcore_utils_decrypt` on the blocks of a text, with a
-- host whose calls succeed.
use meshcore.Prelude.{
  ℕ, zero, suc, ◌+◌, ◌-◌, ◌*◌, ◌≤◌, ◌<◌, ◌≡◌, refl, ap, ◌∙◌, some, List, [], ◌∷◌, ◌++◌, length,
  take, drop, replicate, arith, Bool-cases, inl, inr, leb, ltb, pos, length-take, length-drop,
  length-append, length-replicate, take-append, drop-append, take_all, append_assoc, append-nil,
  leb→le, ltb→le, ltb→lt, leb→lt,
}
use meshcore.Cipher.{Host, block_size, mac_size, encrypt_last, encrypt_loop, decrypt_loop}
use meshcore.Cipher.Blocks.{
  chunks, joined, encrypted, AreBlocks, more_blocks, chunks_whole, chunks_part, chunks_none,
}

-- A host whose calls succeed: the cipher on whole blocks is `enc` with the inverse `dec`, the tag
-- has two bytes.
pub record Works (c : Host) : Type 0 where
  pub enc : List ℕ → List ℕ → List ℕ
  pub tag : List ℕ → List ℕ → List ℕ
  pub encrypts :
      (key block : List ℕ)
      → length block ≡ block_size
      → c.encrypt_block key block ≡ some (enc key block)
  pub decrypts :
      (key block : List ℕ)
      → length block ≡ block_size
      → c.decrypt_block key (enc key block) ≡ some block
  pub fills : (key block : List ℕ) → length block ≡ block_size → length (enc key block) ≡ block_size
  pub tags : (key text : List ℕ) → c.hmac key text ≡ some (tag key text)
  pub tag_fills : (key text : List ℕ) → length (tag key text) ≡ mac_size

module _ (c : Host) (w : Works c) (key : List ℕ) where
  pub decrypt_loop-encrypted :
      (bs : List (List ℕ)) (done : ℕ) (dest : List ℕ)
      → AreBlocks bs
      → decrypt_loop (length bs) c key (encrypted (w.enc key) bs) done dest
        ≡ (pos (done + block_size * length bs), dest ++ joined bs)
  unfolding decrypt_loop
  decrypt_loop-encrypted [] done dest v =
      rw (append-nil dest) (ap (λ (n : ℕ). (pos n, dest)) (omega arith))
  decrypt_loop-encrypted (b ∷ bs) done dest (more_blocks h v) =
      let head : take block_size (encrypted (w.enc key) (b ∷ bs)) ≡ w.enc key b =
        take-append block_size (w.enc key b) (encrypted (w.enc key) bs) (w.fills key b h) in
      let tail : drop block_size (encrypted (w.enc key) (b ∷ bs)) ≡ encrypted (w.enc key) bs =
        drop-append block_size (w.enc key b) (encrypted (w.enc key) bs) (w.fills key b h) in
      let step : decrypt_loop (suc (length bs)) c key (encrypted (w.enc key) (b ∷ bs)) done dest
          ≡ decrypt_loop (length bs) c key (encrypted (w.enc key) bs) (done + block_size)
              (dest ++ b) =
        rw (decrypt_loop, head, w.decrypts key b h, tail) refl in
      step
      ∙ decrypt_loop-encrypted bs (done + block_size) (dest ++ b) v
      ∙ rw (append_assoc dest b (joined bs))
          (ap (λ (n : ℕ). (pos n, dest ++ (b ++ joined bs))) (omega arith))

  pub encrypt_last_lem :
      (fuel n : ℕ) (src : List ℕ) (done : ℕ) (dest : List ℕ)
      → length src ≡ n
      → n < block_size
      → encrypt_last c key src n done dest ≡ (
        pos (done + block_size * length (chunks (suc fuel) src)),
        dest ++ encrypted (w.enc key) (chunks (suc fuel) src),
      )
  unfolding encrypt_last
  encrypt_last_lem fuel n src done dest e h = elim (Bool-cases (ltb 0 n)) [
    | inl some_left ↦
        let pad : length (src ++ replicate (block_size - n) 0) ≡ block_size = omega (
          arith,
          length-append src (replicate (block_size - n) 0),
          length-replicate {A = ℕ} (block_size - n) 0,
        ) in
        rw
          (
            encrypt_last,
            some_left,
            chunks_part fuel src (omega (arith, ltb→lt 0 n some_left)) (omega arith),
            e,
            take_all n src (omega arith),
            w.encrypts key (src ++ replicate (block_size - n) 0) pad,
            append-nil,
          )
          (ap (λ (k : ℕ). (pos k, dest ++ w.enc key (src ++ replicate (block_size - n) 0)))
            (omega arith))
    | inr nothing ↦
        rw
          (
            encrypt_last,
            nothing,
            chunks_none (suc fuel) src (omega (arith, ltb→le 0 n nothing)),
            append-nil,
          )
          (ap (λ (k : ℕ). (pos k, dest)) (omega arith))
  ]

  pub encrypt_loop_lem :
      (fuel n : ℕ) (src : List ℕ) (done : ℕ) (dest : List ℕ)
      → length src ≡ n
      → n ≤ fuel
      → encrypt_loop fuel c key src n done dest ≡ (
        pos (done + block_size * length (chunks fuel src)),
        dest ++ encrypted (w.enc key) (chunks fuel src),
      )
  unfolding encrypt_loop encrypt_last chunks
  encrypt_loop_lem zero n [] done dest e h =
      let z : n ≡ 0 = omega arith in
      rw (z, append-nil dest) (ap (λ (k : ℕ). (pos k, dest)) (omega arith))
  encrypt_loop_lem zero n (x ∷ src) done dest e h = absurd (omega arith)
  encrypt_loop_lem (suc fuel) n src done dest e h = elim (Bool-cases (leb block_size n)) [
    | inl whole ↦
        let size = leb→le block_size n whole in
        let block : length (take block_size src) ≡ block_size =
          omega (arith, length-take block_size src) in
        rw
          (
            encrypt_loop,
            whole,
            chunks_whole fuel src (omega arith),
            w.encrypts key (take block_size src) block,
          )
          (encrypt_loop_lem fuel (n - block_size) (drop block_size src) (done + block_size)
              (dest ++ w.enc key (take block_size src)) (omega (arith, length-drop block_size src))
              (omega arith)
            ∙ rw (append_assoc dest) (
                ap
                  (λ (k : ℕ). (
                    pos k,
                    dest
                        ++ (w.enc key (take block_size src)
                            ++ encrypted (w.enc key) (chunks fuel (drop block_size src))),
                  ))
                  (omega arith)))
    | inr part ↦
        rw (encrypt_loop, part) (encrypt_last_lem fuel n src done dest e (leb→lt block_size n part))
  ]
