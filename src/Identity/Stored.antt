-- ===== src/Identity/Stored.antt =====
-- Storing a local identity and reading it back.
use meshcore.Prelude.{
  ℕ, ◌+◌, ◌≤◌, ◌<◌, ◌≡◌, refl, ◌++◌, length, arith, take_all, take-append, drop-append,
  length-append, le→ltb, lt→ltb,
}
use meshcore.Identity.{
  Curve, LocalIdentity, public_key_size, private_key_size, local_write_to, local_read_from,
}

-- The sizes of the two arrays.
pub record IsLocal (l : LocalIdentity) : Type 0 where
  pub prv_array : length l.prv_key ≡ private_key_size
  pub pub_array : length l.identity.pub_key ≡ public_key_size

module _ (k : Curve) (l : LocalIdentity) (v : IsLocal l) where
  written_all :
      (max_len : ℕ)
      → private_key_size + public_key_size ≤ max_len
      → local_write_to l max_len ≡ l.prv_key ++ l.identity.pub_key
  unfolding local_write_to
  written_all max_len h =
      rw
        (
          le→ltb max_len private_key_size (omega arith),
          le→ltb max_len (private_key_size + public_key_size) h,
          take_all private_key_size l.prv_key (omega (arith, v.prv_array)),
          take_all public_key_size l.identity.pub_key (omega (arith, v.pub_array)),
        )
        refl

  written_short :
      (max_len : ℕ)
      → private_key_size ≤ max_len
      → max_len < private_key_size + public_key_size
      → local_write_to l max_len ≡ l.prv_key
  unfolding local_write_to
  written_short max_len h h' =
      rw (le→ltb max_len private_key_size h, lt→ltb max_len (private_key_size + public_key_size) h')
        (take_all private_key_size l.prv_key (omega (arith, v.prv_array)))

  -- An identity that was written to at least 96 bytes is read back whole, whatever the identity
  -- that is read into held before.
  pub local_read_from-local_write_to :
      (old : LocalIdentity) (max_len : ℕ)
      → private_key_size + public_key_size ≤ max_len
      → local_read_from k old (local_write_to l max_len) (length (local_write_to l max_len)) ≡ l
  unfolding local_read_from
  local_read_from-local_write_to old max_len h =
      let size : length (l.prv_key ++ l.identity.pub_key) ≡ private_key_size + public_key_size =
        omega (arith, length-append l.prv_key l.identity.pub_key, v.prv_array, v.pub_array) in
      rw
        (
          written_all max_len h,
          size,
          take-append private_key_size l.prv_key l.identity.pub_key v.prv_array,
          drop-append private_key_size l.prv_key l.identity.pub_key v.prv_array,
          take_all public_key_size l.identity.pub_key (omega (arith, v.pub_array)),
        )
        refl

  -- Into 64 to 95 bytes only the private key is written, and the public key that is read back is
  -- computed from it.
  pub local_read_from-short :
      (old : LocalIdentity) (max_len : ℕ)
      → private_key_size ≤ max_len
      → max_len < private_key_size + public_key_size
      → local_read_from k old (local_write_to l max_len) (length (local_write_to l max_len))
        ≡ record { identity = record { pub_key = k.scalarbase l.prv_key }; prv_key = l.prv_key }
  unfolding local_read_from
  local_read_from-short old max_len h h' =
      rw
        (
          written_short max_len h h',
          v.prv_array,
          take_all private_key_size l.prv_key (omega (arith, v.prv_array)),
        )
        refl
