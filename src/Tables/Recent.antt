-- ===== src/Tables/Recent.antt =====
-- What the filter is for: it remembers the last `max_packet_hashes` hashes that it let through.
use meshcore.Prelude.{
  same_bytes, same_bytes→eq, ℕ, zero, suc, ◌+◌, ◌-◌, ◌%◌, ◌≤◌, ◌<◌, ◌≡◌, refl, ap, ap₂, sym, ◌∙◌,
  Bool, true, false, some, List, [], ◌∷◌, length, get_or, take, get_or-set_self, get_or-set_ne,
  arith, Bool-cases, if◌then◌else◌, inl, inr,
}
use meshcore.Crypto.{Sha256}
use meshcore.Packet.{Packet}
use meshcore.Packet.Digest.{calculate_hash}
use meshcore.Tables.{
  Tables, max_packet_hashes, is_stored, store, has_seen_hash, has_seen, count_dup,
}
use meshcore.Tables.Window.{IsTables, is_stored_at}

-- A duplicate is what is among the recent hashes; anything else is put in front of them, and the
-- oldest is forgotten.
unfoldable pub recent_step : List ℕ → List (List ℕ) → Bool × List (List ℕ)
recent_step hash recent =
    if is_stored hash recent
    then (true, recent)
    else (false, hash ∷ take (max_packet_hashes - 1) recent)

-- The slot that was written `j` stores before the last one.
abbrev slot : Tables → ℕ → List ℕ
slot t j = get_or t.hashes ((t.next_idx + (max_packet_hashes - 1) - j) % max_packet_hashes) []

ages : Tables → ℕ → ℕ → List (List ℕ)
ages t j zero = []
ages t j (suc n) = slot t j ∷ ages t (suc j) n

-- The stored hashes, the youngest first.
pub recent : Tables → List (List ℕ)
recent t = ages t 0 max_packet_hashes

get_or-ages : (t : Tables) (j n i : ℕ) → i < n → get_or (ages t j n) i [] ≡ slot t (j + i)
unfolding ages
get_or-ages t j zero i h = absurd (omega arith)
get_or-ages t j (suc n) zero h = ap (slot t) (omega arith)
get_or-ages t j (suc n) (suc i) h =
    get_or-ages t (suc j) n i (omega arith) ∙ ap (slot t) (omega arith)

length-ages : (t : Tables) (j n : ℕ) → length (ages t j n) ≡ n
unfolding ages
length-ages t j zero = refl
length-ages t j (suc n) = ap suc (length-ages t (suc j) n)

take-ages : (t : Tables) (j n m : ℕ) → n ≤ m → take n (ages t j m) ≡ ages t j n
unfolding ages
take-ages t j zero m h = refl
take-ages t j (suc n) zero h = absurd (omega arith)
take-ages t j (suc n) (suc m) h = ap (λ xs. slot t j ∷ xs) (take-ages t (suc j) n m (omega arith))

is_stored_index :
    (hash : List ℕ) (slots : List (List ℕ))
    → is_stored hash slots ≡ true
    → (k : ℕ) × (k < length slots) × (get_or slots k [] ≡ hash)
unfolding is_stored
is_stored_index hash [] h = absurd (ground arith)
is_stored_index hash (x ∷ xs) h = elim (Bool-cases (same_bytes hash x)) [
  | inl e ↦ (0, omega arith, sym (same_bytes→eq hash x e))
  | inr e ↦ let (k, lt, at) = is_stored_index hash xs (ground arith) in (suc k, omega arith, at)
]

Bool-ext : (a b : Bool) → (a ≡ true → b ≡ true) → (b ≡ true → a ≡ true) → a ≡ b
Bool-ext true b f g = sym (f refl)
Bool-ext false true f g = g refl
Bool-ext false false f g = refl

-- The index arithmetic is stated for a variable size, so that no list of 160 slots is built.
module _ (t : Tables) (hash : List ℕ) (v : IsTables t) where
  ages→hashes : is_stored hash (ages t 0 max_packet_hashes) ≡ true → is_stored hash t.hashes ≡ true
  ages→hashes h =
      let (k, lt, at) = is_stored_index hash (ages t 0 max_packet_hashes) h in
      is_stored_at hash t.hashes ((t.next_idx + 159 - (0 + k)) % max_packet_hashes)
        (omega (arith, v.slots))
        (sym (
            get_or-ages t 0 max_packet_hashes k
              (omega (arith, lt, length-ages t 0 max_packet_hashes)))
          ∙ at)

  hashes→ages : is_stored hash t.hashes ≡ true → is_stored hash (ages t 0 max_packet_hashes) ≡ true
  hashes→ages h =
      let (k, lt, at) = is_stored_index hash t.hashes h in
      let j = (t.next_idx + 159 - k) % max_packet_hashes in
      let back : (t.next_idx + 159 - (0 + j)) % max_packet_hashes ≡ k =
        omega (arith, v.slots, v.index, lt) in
      is_stored_at hash (ages t 0 max_packet_hashes) j
        (omega (arith, length-ages t 0 max_packet_hashes))
        (get_or-ages t 0 max_packet_hashes j (omega arith)
          ∙ ap (λ i. get_or t.hashes i []) back
          ∙ at)

  is_stored-recent : is_stored hash (recent t) ≡ is_stored hash t.hashes
  unfolding recent
  is_stored-recent = Bool-ext _ _ ages→hashes hashes→ages

  slot-store-zero : slot (store t hash) 0 ≡ hash
  unfolding store
  slot-store-zero =
      let e : ((t.next_idx + 1) % max_packet_hashes + 159 - 0) % max_packet_hashes ≡ t.next_idx =
        omega (arith, v.index) in
      rw e (get_or-set_self t.hashes t.next_idx hash [] (omega (arith, v.index, v.slots)))

  slot-store-suc : (j : ℕ) → j < max_packet_hashes - 1 → slot (store t hash) (suc j) ≡ slot t j
  unfolding store
  slot-store-suc j h =
      let i = (t.next_idx + 159 - j) % max_packet_hashes in
      let e : ((t.next_idx + 1) % max_packet_hashes + 159 - suc j) % max_packet_hashes ≡ i =
        omega (arith, v.index) in
      rw e (get_or-set_ne t.hashes t.next_idx i hash [] (λ q. absurd (omega (arith, v.index))))

  ages-store :
      (n j : ℕ) → j + n ≤ max_packet_hashes - 1 → ages (store t hash) (suc j) n ≡ ages t j n
  unfolding ages
  ages-store zero j h = refl
  ages-store (suc n) j h =
      ap₂ ◌∷◌ (slot-store-suc j (omega arith)) (ages-store n (suc j) (omega arith))

  ages_split : (n : ℕ) → ages (store t hash) 0 (suc n) ≡ hash ∷ ages (store t hash) 1 n
  unfolding ages
  ages_split n = ap (λ x. x ∷ ages (store t hash) 1 n) slot-store-zero

  recent-store : recent (store t hash) ≡ hash ∷ take (max_packet_hashes - 1) (recent t)
  unfolding recent
  recent-store =
      ages_split 159
      ∙ ap (λ xs. hash ∷ xs)
          (ages-store 159 0 (omega arith) ∙ sym (take-ages t 0 159 160 (omega arith)))

ages-count_dup : (t : Tables) (p : Packet) (n j : ℕ) → ages (count_dup t p) j n ≡ ages t j n
unfolding ages count_dup
ages-count_dup t p zero j = refl
ages-count_dup t p (suc n) j = ap₂ ◌∷◌ (ground arith) (ages-count_dup t p n (suc j))

recent-count_dup : (t : Tables) (p : Packet) → recent (count_dup t p) ≡ recent t
unfolding recent
recent-count_dup t p = ages-count_dup t p max_packet_hashes 0

-- The circular table of slots answers, and changes, as the list of the 160 youngest hashes does.
pub has_seen_refines :
    (s : Sha256) (t : Tables) (p : Packet)
    → IsTables t
    → let (seen, t') = has_seen s t (some p) in
      (seen, recent t') ≡ recent_step (calculate_hash s (some p)) (recent t)
unfolding has_seen has_seen_hash recent_step
has_seen_refines s t p v =
    let hash = calculate_hash s (some p) in
    elim (Bool-cases (is_stored hash t.hashes)) [
      | inl e ↦ rw (is_stored-recent t hash v, e) (ap (λ r. (true, r)) (recent-count_dup t p))
      | inr e ↦ rw (is_stored-recent t hash v, e) (ap (λ r. (false, r)) (recent-store t hash v))
    ]
