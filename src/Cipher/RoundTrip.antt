-- ===== src/Cipher/RoundTrip.antt =====
-- `meshcore_utils_mac_then_decrypt` after `meshcore_utils_encrypt_then_mac`.
use meshcore.Prelude.{
  same_bytes_self, ℕ, ◌+◌, ◌-◌, ◌*◌, ◌/◌, ◌%◌, ◌<◌, ◌≡◌, refl, ap, sym, ◌∙◌, List, [], ◌∷◌, ◌++◌,
  length, replicate, arith, pos, length-append, take-append, drop-append, lt→leb, lt→ltb, ne→==,
}
use meshcore.Cipher.{
  Host, Output, block_size, mac_size, encrypt, decrypt, add_mac, encrypt_then_mac, mac_then_decrypt,
}
use meshcore.Cipher.Blocks.{
  chunks, joined, encrypted, AreBlocks, no_blocks, more_blocks, chunks-AreBlocks, padded,
  joined-chunks, length-joined,
}
use meshcore.Cipher.Loops.{Works, decrypt_loop-encrypted, encrypt_loop_lem}

-- What the two calls return together.
abbrev pub there_and_back : Host → List ℕ → List ℕ → Output × Output
there_and_back c key src =
    let sent = encrypt_then_mac c key src (pos (length src)) in
    (sent, mac_then_decrypt c key sent.1 sent.0)

length-padded : (src : List ℕ) → length (padded src) ≡ block_size * length (chunks (length src) src)
length-padded src =
    ap length (sym (joined-chunks (length src) src (omega arith)))
    ∙ length-joined (chunks (length src) src) (chunks-AreBlocks (length src) src)

some_block : (src : List ℕ) → 0 < length src → 0 < length (chunks (length src) src)
some_block src h = omega (
  arith,
  length-padded src,
  length-append src (replicate ((block_size - length src % block_size) % block_size) 0),
)

module _ (c : Host) (w : Works c) (key : List ℕ) where
  length-encrypted :
      (bs : List (List ℕ))
      → AreBlocks bs
      → length (encrypted (w.enc key) bs) ≡ block_size * length bs
  length-encrypted [] no_blocks = refl
  length-encrypted (b ∷ bs) (more_blocks e v) = omega (
    arith,
    length-append (w.enc key b) (encrypted (w.enc key) bs),
    w.fills key b e,
    length-encrypted bs v,
  )

  encrypt_then_mac_lem :
      (src : List ℕ) (bs : List (List ℕ))
      → 0 < length src
      → bs ≡ chunks (length src) src
      → 0 < length bs
      → encrypt_then_mac c key src (pos (length src)) ≡ (
        pos (mac_size + block_size * length bs),
        w.tag key (encrypted (w.enc key) bs) ++ encrypted (w.enc key) bs,
      )
  unfolding encrypt_then_mac add_mac
  encrypt_then_mac_lem src bs h e more =
      let text = encrypted (w.enc key) bs in
      let sent : encrypt c key src (pos (length src)) ≡ (pos (block_size * length bs), text) =
        unfold encrypt in
        rw e (
          encrypt_loop_lem c w key (length src) (length src) src 0 [] refl (omega arith)
          ∙ ap (λ (k : ℕ). (pos k, encrypted (w.enc key) (chunks (length src) src)))
              (omega arith)) in
      rw
        (
          sent,
          ne→== (block_size * length bs) 0 (omega arith),
          lt→ltb 0 (length src) h,
          w.tags key text,
        )
        refl

  mac_then_decrypt_lem :
      (bs : List (List ℕ))
      → AreBlocks bs
      → 0 < length bs
      → mac_then_decrypt c key
          (w.tag key (encrypted (w.enc key) bs) ++ encrypted (w.enc key) bs)
          (pos (mac_size + block_size * length bs))
        ≡ (pos (block_size * length bs), joined bs)
  unfolding mac_then_decrypt decrypt
  mac_then_decrypt_lem bs v h =
      let text = encrypted (w.enc key) bs in
      let tag = w.tag key text in
      let full : mac_size + block_size * length bs - mac_size ≡ block_size * length bs =
        omega arith in
      let rounds : block_size * length bs / block_size ≡ length bs = omega arith in
      let whole : block_size * length bs % block_size ≡ 0 = omega arith in
      rw
        (
          lt→leb (mac_size + block_size * length bs) mac_size (omega arith),
          drop-append mac_size tag text (w.tag_fills key text),
          w.tags key text,
          take-append mac_size tag text (w.tag_fills key text),
          same_bytes_self tag,
          full,
          rounds,
          whole,
          ne→== (block_size * length bs) 0 (omega arith),
          drop-append mac_size tag text (w.tag_fills key text),
          decrypt_loop-encrypted c w key bs 0 [] v,
        )
        (ap (λ (k : ℕ). (pos k, joined bs)) (omega arith))

  -- With a host whose calls succeed, a text that is not empty is sent as two bytes more than its
  -- whole blocks, and comes back filled up with zeros to whole blocks.
  pub mac_then_decrypt-encrypt_then_mac :
      (src : List ℕ)
      → 0 < length src
      → ((there_and_back c key src).0.0 ≡ pos (mac_size + length (padded src)))
        × ((there_and_back c key src).1 ≡ (pos (length (padded src)), padded src))
  mac_then_decrypt-encrypt_then_mac src h =
      let bs = chunks (length src) src in
      let v = chunks-AreBlocks (length src) src in
      let text : joined bs ≡ padded src = joined-chunks (length src) src (omega arith) in
      let size = length-padded src in
      let more = some_block src h in
      rw (encrypt_then_mac_lem src bs h refl more, mac_then_decrypt_lem bs v more, size, text)
        (refl, refl)

  -- The text that is sent is as long as the returned count.
  pub length-encrypt_then_mac :
      (src : List ℕ)
      → 0 < length src
      → length (encrypt_then_mac c key src (pos (length src))).1 ≡ mac_size + length (padded src)
  length-encrypt_then_mac src h =
      let bs = chunks (length src) src in
      let text = encrypted (w.enc key) bs in
      rw (encrypt_then_mac_lem src bs h refl (some_block src h)) (
        omega (
          arith,
          length-append (w.tag key text) text,
          w.tag_fills key text,
          length-encrypted bs (chunks-AreBlocks (length src) src),
          length-padded src,
        ))
