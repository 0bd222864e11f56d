-- ===== src/Crypto.antt =====
-- `meshcore_utils_sha256` and `meshcore_utils_sha256_two_fragments` of `src/core/meshcore_utils.c`. The
-- digests themselves are the host's (`meshcore_platform_bridge_crypto_sha256`), so they are parameters:
-- `none` is a failed call.
use meshcore.Prelude.{ℕ, ◌≡◌, refl, Option, none, some, List, replicate, length, length-replicate}

-- The host's digest of a message, cut to a length, and its documented behaviour: a call that
-- succeeds fills the whole output.
pub record Sha256 : Type 0 where
  pub digest : ℕ → List ℕ → Option (List ℕ)
  pub digest_fills :
      (n : ℕ) (msg : List ℕ) (out : List ℕ) → digest n msg ≡ some out → length out ≡ n

-- A failed call leaves zeros.
unfoldable pub or_zeros : ℕ → Option (List ℕ) → List ℕ
or_zeros hash_len none = replicate hash_len 0
or_zeros hash_len (some hash) = hash

unfoldable pub sha256 : Sha256 → ℕ → List ℕ → List ℕ
sha256 s hash_len msg = or_zeros hash_len (s.digest hash_len msg)

-- Of two fragments, by the host's digest of such, which is a parameter of its own.
unfoldable pub sha256_two_fragments :
    (ℕ → List ℕ → List ℕ → Option (List ℕ)) → ℕ → List ℕ → List ℕ → List ℕ
sha256_two_fragments digest hash_len frag1 frag2 = or_zeros hash_len (digest hash_len frag1 frag2)

pub length-or_zeros :
    (n : ℕ) (r : Option (List ℕ))
    → ((out : List ℕ) → r ≡ some out → length out ≡ n)
    → length (or_zeros n r) ≡ n
unfolding or_zeros
length-or_zeros n none h = length-replicate n 0
length-or_zeros n (some hash) h = h hash refl

-- The output is filled in every case.
pub length-sha256 : (s : Sha256) (n : ℕ) (msg : List ℕ) → length (sha256 s n msg) ≡ n
unfolding sha256
length-sha256 s n msg = length-or_zeros n (s.digest n msg) (s.digest_fills n msg)
