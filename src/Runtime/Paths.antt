-- ===== src/Runtime/Paths.antt =====
-- The path length byte of `src/runtime/meshcore.c`.
use meshcore.Prelude.{zero, suc, ℕ, ◌/◌, ◌%◌, ◌≤◌, ◌≡◌, some, arith, bit_and_mask, bit_or_low}
use meshcore.Runtime.{path_len_encode, path_len_decode}

one :
    (bytes field : ℕ)
    → bytes ≤ 64
    → path_len_encode 1 bytes ≡ some field
    → path_len_decode field ≡ some (bytes, 1)
unfolding path_len_encode path_len_decode
one bytes field h e = ground (arith, bit_and_mask 6 field, bit_or_low 6 0 (bytes / 1 % 256))

two :
    (bytes field : ℕ)
    → bytes ≤ 64
    → path_len_encode 2 bytes ≡ some field
    → path_len_decode field ≡ some (bytes, 2)
unfolding path_len_encode path_len_decode
two bytes field h e = ground (arith, bit_and_mask 6 field, bit_or_low 6 1 (bytes / 2 % 256))

three :
    (bytes field : ℕ)
    → bytes ≤ 64
    → path_len_encode 3 bytes ≡ some field
    → path_len_decode field ≡ some (bytes, 3)
unfolding path_len_encode path_len_decode
three bytes field h e = ground (arith, bit_and_mask 6 field, bit_or_low 6 2 (bytes / 3 % 256))

-- A path of at most 64 bytes that is encoded, in hashes of one to three bytes, is decoded as it was.
pub path_len_decode-path_len_encode :
    (size bytes field : ℕ)
    → bytes ≤ 64
    → path_len_encode size bytes ≡ some field
    → path_len_decode field ≡ some (bytes, size)
unfolding path_len_encode
path_len_decode-path_len_encode zero bytes field h e = cc
path_len_decode-path_len_encode (suc zero) bytes field h e = one bytes field h e
path_len_decode-path_len_encode (suc (suc zero)) bytes field h e = two bytes field h e
path_len_decode-path_len_encode (suc (suc (suc zero))) bytes field h e = three bytes field h e
path_len_decode-path_len_encode (suc (suc (suc (suc n)))) bytes field h e = ground arith
