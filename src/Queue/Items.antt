-- ===== src/Queue/Items.antt =====
-- A queue as the list of its entries: adding appends, removing takes an entry out and keeps the
-- order of the others.
use meshcore.Prelude.{
  ℕ, zero, suc, ◌+◌, ◌≤◌, ◌<◌, ◌≡◌, refl, ap, ap₂, ◌∙◌, Option, none, List, [], ◌∷◌, length, get_or,
  arith,
}
use meshcore.Queue.{Queue, max_pool_size}

-- The number of entries is within the size, and the size within the storage.
pub record IsQueue (q : Queue) : Type 0 where
  pub num_le : q.num ≤ q.size
  pub size_le : q.size ≤ max_pool_size
  pub table_len : length q.table ≡ max_pool_size
  pub pri_len : length q.pri_table ≡ max_pool_size
  pub schedule_len : length q.schedule_table ≡ max_pool_size

pub record Entry : Type 0 where
  pub packet : Option ℕ
  pub priority : ℕ
  pub scheduled_for : ℕ

abbrev pub entry_at : Queue → ℕ → Entry
entry_at q j = record {
  packet = get_or q.table j none;
  priority = get_or q.pri_table j 0;
  scheduled_for = get_or q.schedule_table j 0;
}

unfoldable pub entries_from : Queue → ℕ → ℕ → List Entry
entries_from q j zero = []
entries_from q j (suc n) = entry_at q j ∷ entries_from q (suc j) n

-- The entries in the order in which they were added.
unfoldable pub items : Queue → List Entry
items q = entries_from q 0 q.num

module _ {ℓ} {A : Type ℓ} where
  abbrev pub remove_at : ℕ → List A → List A
  remove_at i [] = []
  remove_at zero (x ∷ xs) = xs
  remove_at (suc i) (x ∷ xs) = x ∷ remove_at i xs

length-entries_from : (q : Queue) (j n : ℕ) → length (entries_from q j n) ≡ n
unfolding entries_from
length-entries_from q j zero = refl
length-entries_from q j (suc n) = ap suc (length-entries_from q (suc j) n)

pub length-items : (q : Queue) → length (items q) ≡ q.num
unfolding items
length-items q = length-entries_from q 0 q.num

-- Entries are copied from one queue to another, one by one, or from the next index on.
pub entries_from_shift :
    (q q' : Queue) (j j' n : ℕ)
    → ((k : ℕ) → k < n → entry_at q' (j' + k) ≡ entry_at q (j + k))
    → entries_from q' j' n ≡ entries_from q j n
unfolding entries_from
entries_from_shift q q' j j' zero h = refl
entries_from_shift q q' j j' (suc n) h =
    let head : entry_at q' j' ≡ entry_at q j =
      ap (entry_at q') (omega arith) ∙ h 0 (omega arith) ∙ ap (entry_at q) (omega arith) in
    ap₂ ◌∷◌ head (
      entries_from_shift q q' (suc j) (suc j') n (λ k lt.
        ap (entry_at q') (omega arith) ∙ h (suc k) (omega arith) ∙ ap (entry_at q) (omega arith)))

pub entries_from_remove :
    (q q' : Queue) (i j n : ℕ)
    → i ≤ n
    → ((k : ℕ) → k < i → entry_at q' (j + k) ≡ entry_at q (j + k))
    → ((k : ℕ) → i ≤ k → k < n → entry_at q' (j + k) ≡ entry_at q (suc j + k))
    → entries_from q' j n ≡ remove_at i (entries_from q j (suc n))
unfolding entries_from
entries_from_remove q q' zero j n le before after =
    entries_from_shift q q' (suc j) j n (λ k lt. after k (omega arith) lt)
entries_from_remove q q' (suc i) j zero le before after = absurd (omega arith)
entries_from_remove q q' (suc i) j (suc n) le before after =
    let head : entry_at q' j ≡ entry_at q j =
      ap (entry_at q') (omega arith) ∙ before 0 (omega arith) ∙ ap (entry_at q) (omega arith) in
    ap₂ ◌∷◌ head (
      entries_from_remove q q' i (suc j) n (omega arith)
        (λ k lt.
          ap (entry_at q') (omega arith)
          ∙ before (suc k) (omega arith)
          ∙ ap (entry_at q) (omega arith))
        (λ k le' lt.
          ap (entry_at q') (omega arith)
          ∙ after (suc k) (omega arith) (omega arith)
          ∙ ap (entry_at q) (omega arith)))
