-- ===== src/Identity/Hash.antt =====
-- The hashes of identities: prefixes of the public key.
use meshcore.Prelude.{
  ℕ, ◌≤◌, ◌≡◌, ◌↔◌, refl, ap, true, List, [], ◌∷◌, take, arith, same_bytes_self, same_bytes→eq,
  le→ltb, zero, suc,
}
use meshcore.Identity.{Identity, public_key_size, copy_hash_by_len, is_hash_match_by_len}

-- A hash of at most 32 bytes is an identity's exactly when it begins as the public key does.
pub is_hash_match_by_len_iff :
    (id : Identity) (hash : List ℕ) (len : ℕ)
    → len ≤ public_key_size
    → (is_hash_match_by_len id hash len ≡ true) ↔ (take len hash ≡ take len id.pub_key)
unfolding is_hash_match_by_len
is_hash_match_by_len_iff id hash len h = rw (le→ltb public_key_size len h) (
  λ e. same_bytes→eq (take len hash) (take len id.pub_key) e,
  λ e. rw e (same_bytes_self (take len id.pub_key)),
)

pub take-take {ℓ} : {A : Type ℓ} (n m : ℕ) (xs : List A) → n ≤ m → take n (take m xs) ≡ take n xs
take-take zero m xs h = refl
take-take (suc n) zero xs h = absurd (omega arith)
take-take (suc n) (suc m) [] h = refl
take-take (suc n) (suc m) (x ∷ xs) h = ap (λ ys. x ∷ ys) (take-take n m xs (omega arith))

pub copy_hash_by_len_lem :
    (id : Identity) (len : ℕ)
    → len ≤ public_key_size
    → copy_hash_by_len id len ≡ (len, take len id.pub_key)
unfolding copy_hash_by_len
copy_hash_by_len_lem id len h = rw (le→ltb public_key_size len h) refl
