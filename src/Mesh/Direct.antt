-- ===== src/Mesh/Direct.antt =====
-- `meshcore_mesh_remove_self_from_path` of `src/core/meshcore_mesh.c`: a direct packet loses the
-- first hash of its path.
use meshcore.Prelude.{
  ℕ, zero, suc, ◌+◌, ◌-◌, ◌*◌, ◌/◌, ◌%◌, ◌≤◌, ◌<◌, ◌≡◌, refl, sym, ap, ◌∙◌, true, some, List, ◌++◌,
  take, drop, length, arith, u8, length-take, length-drop, take-append, drop-append,
  take-append-take, drop-take, ne→==,
}
use meshcore.Packet.{
  Packet, max_path_len, get_path_hash_count, get_path_hash_size, set_path_hash_count,
  path_len_field, is_valid_path_len,
}
use meshcore.Packet.Fields.{
  get_path_hash_count_lem, get_path_hash_size_lem, path_len-set_path_hash_count,
  is_valid_path_len_iff,
}
use meshcore.Packet.Length.{IsPacket}
use meshcore.Mesh.{remove_self_from_path, move_hashes}
use meshcore.Mesh.Route.{hops}

-- The loop moves the hashes behind the first one to the front.
take-move_hashes :
    (n sz : ℕ) (path : List ℕ)
    → (n + 1) * sz ≤ length path
    → take (n * sz) (move_hashes n sz path) ≡ take (n * sz) (drop sz path)
unfolding move_hashes
take-move_hashes zero sz path h = let e : 0 * sz ≡ 0 = omega arith in rw e refl
take-move_hashes (suc n) sz path h =
    let e : suc n * sz ≡ sz + n * sz = omega arith in
    let rest = drop sz path in
    let front : length (take sz rest) ≡ sz =
      omega (arith, length-take sz rest, length-drop sz path) in
    rw
      (
        e,
        take-append-take sz (n * sz) (take sz rest ++ move_hashes n sz rest),
        take-append sz (take sz rest) (move_hashes n sz rest) front,
        drop-append sz (take sz rest) (move_hashes n sz rest) front,
        take-append-take sz (n * sz) rest,
        take-move_hashes n sz rest (omega (arith, length-drop sz path)),
      )
      refl

abbrev counted : Packet → Packet
counted p = set_path_hash_count p (u8 (get_path_hash_count (some p) - 1))

-- The packet that is written.
abbrev shortened : Packet → Packet
shortened p = record (counted p) {
  path =
      move_hashes (get_path_hash_count (some (counted p))) (get_path_hash_size (some (counted p)))
        p.path;
}

written : (p : Packet) → 0 < get_path_hash_count (some p) → remove_self_from_path p ≡ shortened p
unfolding remove_self_from_path
written p more = rw (ne→== (get_path_hash_count (some p)) 0 (λ e. omega arith)) refl

hops-le :
    (p : Packet)
    → is_valid_path_len (path_len_field (some p)) ≡ true
    → get_path_hash_count (some p) * get_path_hash_size (some p) ≤ max_path_len
unfolding path_len_field
hops-le p known =
    let count : get_path_hash_count (some p) ≡ p.path_len % 256 % 64 =
      omega (arith, get_path_hash_count_lem p) in
    rw (count, get_path_hash_size_lem p)
      ((is_valid_path_len_iff (p.path_len % 256) (omega arith)).0 known).1

module _ (p : Packet) (v : IsPacket p) (more : 0 < get_path_hash_count (some p)) where
  path_len-counted : (counted p).path_len ≡ p.path_len / 64 * 64 + (p.path_len % 64 - 1)
  path_len-counted =
      path_len-set_path_hash_count p (u8 (get_path_hash_count (some p) - 1)) v.path_word
      ∙ omega (arith, get_path_hash_count_lem p)

  count-counted : get_path_hash_count (some (counted p)) + 1 ≡ get_path_hash_count (some p)
  count-counted =
      omega
        (arith, get_path_hash_count_lem p, get_path_hash_count_lem (counted p), path_len-counted)

  size-counted : get_path_hash_size (some (counted p)) ≡ get_path_hash_size (some p)
  size-counted =
      omega (arith, get_path_hash_size_lem p, get_path_hash_size_lem (counted p), path_len-counted)

  same_count : get_path_hash_count (some (shortened p)) ≡ get_path_hash_count (some (counted p))
  unfolding get_path_hash_count path_len_field
  same_count = refl

  same_size : get_path_hash_size (some (shortened p)) ≡ get_path_hash_size (some (counted p))
  unfolding get_path_hash_size path_len_field
  same_size = refl

  hops-shortened :
      is_valid_path_len (path_len_field (some p)) ≡ true
      → hops (shortened p) ≡ drop (get_path_hash_size (some p)) (hops p)
  hops-shortened known =
      let n = get_path_hash_count (some (counted p)) in
      let s = get_path_hash_size (some p) in
      let blocks : (n + 1) * s ≡ s + n * s = omega arith in
      let all : get_path_hash_count (some p) * s ≡ s + n * s =
        ap (λ (k : ℕ). k * s) (sym count-counted) ∙ blocks in
      let inside : (n + 1) * s ≤ max_path_len = rw count-counted (hops-le p known) in
      rw
        (
          same_count,
          same_size,
          size-counted,
          take-move_hashes n s p.path (omega (arith, v.path_array)),
          all,
          drop-take s (n * s) p.path (omega (arith, v.path_array)),
        )
        refl

-- The first hash of a path that is not empty is removed: the others keep their order and their
-- size, and there is one less.
pub remove_self_from_path_lem :
    (p : Packet)
    → IsPacket p
    → is_valid_path_len (path_len_field (some p)) ≡ true
    → 0 < get_path_hash_count (some p)
    → let q = remove_self_from_path p in
      (get_path_hash_count (some q) + 1 ≡ get_path_hash_count (some p))
      × (get_path_hash_size (some q) ≡ get_path_hash_size (some p))
      × (hops q ≡ drop (get_path_hash_size (some p)) (hops p))
remove_self_from_path_lem p v known more = rw (written p more) (
  omega (arith, same_count p v more, count-counted p v more),
  same_size p v more ∙ size-counted p v more,
  hops-shortened p v more known,
)
