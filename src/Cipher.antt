-- ===== src/Cipher.antt =====
-- The encryption of `src/core/meshcore_utils.c`. The block cipher and the tag are the host's
-- (`meshcore_platform_bridge_crypto_aes128_encrypt_block`, `..._decrypt_block`, `..._hmac_sha256`),
-- so they are parameters: `none` is a failed call.
pub mod Blocks
pub mod Loops
pub mod RoundTrip
use meshcore.Prelude.{
  same_bytes, ℕ, zero, suc, ◌+◌, ◌-◌, ◌/◌, ◌%◌, Bool, true, false, ◌&&◌, ◌||◌, not, List, [], ◌∷◌,
  ◌++◌, length, take, drop, replicate, ltb, leb, ◌==◌, if◌then◌else◌, ℤ, pos, negsuc, Option, none,
  some,
}

abbrev pub block_size : ℕ
block_size = 16

abbrev pub mac_size : ℕ
mac_size = 2

-- -EINVAL and -EIO.
abbrev pub einval : ℤ
einval = negsuc 21

abbrev pub eio : ℤ
eio = negsuc 4

pub record Host : Type 0 where
  pub encrypt_block : List ℕ → List ℕ → Option (List ℕ)
  pub decrypt_block : List ℕ → List ℕ → Option (List ℕ)
  pub hmac : List ℕ → List ℕ → Option (List ℕ)

-- A result of the source: the returned `int`, and the bytes of `dest` that it counts. A failed call
-- counts none.
abbrev pub Output : Type 0
Output = ℤ × List ℕ

-- The partial block at the end, filled up with zeros; `done` bytes stand in `dest`.
unfoldable pub encrypt_last : Host → List ℕ → List ℕ → ℕ → ℕ → List ℕ → Output
encrypt_last c key src src_len done dest = elim (ltb 0 src_len) [
  | true ↦ elim (c.encrypt_block key (take src_len src ++ replicate (block_size - src_len) 0)) [
    | none ↦ (eio, [])
    | some block ↦ (pos (done + block_size), dest ++ block)
  ]
  | false ↦ (pos done, dest)
]

-- The loop over whole blocks of `meshcore_utils_encrypt`, then what follows it. The fuel bounds the
-- rounds.
unfoldable pub encrypt_loop : ℕ → Host → List ℕ → List ℕ → ℕ → ℕ → List ℕ → Output
encrypt_loop zero c key src src_len done dest = encrypt_last c key src src_len done dest
encrypt_loop (suc fuel) c key src src_len done dest = elim (leb block_size src_len) [
  | true ↦ elim (c.encrypt_block key (take block_size src)) [
    | none ↦ (eio, [])
    | some block ↦
        encrypt_loop fuel c key (drop block_size src) (src_len - block_size) (done + block_size)
          (dest ++ block)
  ]
  | false ↦ encrypt_last c key src src_len done dest
]

-- `src_len` rounds are enough. No pointer is NULL.
unfoldable pub encrypt : Host → List ℕ → List ℕ → ℤ → Output
encrypt c key src (negsuc n) = (einval, [])
encrypt c key src (pos src_len) = encrypt_loop src_len c key src src_len 0 []

-- The loop of `meshcore_utils_decrypt`, which returns 0 at a block that fails.
unfoldable pub decrypt_loop : ℕ → Host → List ℕ → List ℕ → ℕ → List ℕ → Output
decrypt_loop zero c key src done dest = (pos done, dest)
decrypt_loop (suc rounds) c key src done dest = elim (c.decrypt_block key (take block_size src)) [
  | none ↦ (pos 0, [])
  | some block ↦ decrypt_loop rounds c key (drop block_size src) (done + block_size) (dest ++ block)
]

unfoldable pub decrypt : Host → List ℕ → List ℕ → ℤ → Output
decrypt c key src (negsuc n) = (pos 0, [])
decrypt c key src (pos src_len) =
    if src_len == 0 || not (src_len % block_size == 0)
    then (pos 0, [])
    else decrypt_loop (src_len / block_size) c key src 0 []

-- The tag goes before the text that was encrypted to `dest + 2`.
unfoldable pub add_mac : Host → List ℕ → ℕ → Output → Output
add_mac c key src_len (negsuc n, text) = (negsuc n, [])
add_mac c key src_len (pos enc_len, text) =
    if ltb 0 src_len && enc_len == 0 then (eio, []) else elim (c.hmac key text) [
      | none ↦ (eio, [])
      | some tag ↦ (pos (mac_size + enc_len), tag ++ text)
    ]

unfoldable pub encrypt_then_mac : Host → List ℕ → List ℕ → ℤ → Output
encrypt_then_mac c key src (negsuc n) = (einval, [])
encrypt_then_mac c key src (pos src_len) = add_mac c key src_len (encrypt c key src (pos src_len))

-- `src` is the array of `src_len` bytes.
unfoldable pub mac_then_decrypt : Host → List ℕ → List ℕ → ℤ → Output
mac_then_decrypt c key src (negsuc n) = (pos 0, [])
mac_then_decrypt c key src (pos src_len) =
    if leb src_len mac_size then (pos 0, []) else elim (c.hmac key (drop mac_size src)) [
      | none ↦ (pos 0, [])
      | some tag ↦
          if same_bytes tag (take mac_size src)
          then decrypt c key (drop mac_size src) (pos (src_len - mac_size))
          else (pos 0, [])
    ]
