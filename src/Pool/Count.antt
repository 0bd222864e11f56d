-- ===== src/Pool/Count.antt =====
-- How often a packet stands in a list of entries, and what the queue operations do to that.
use meshcore.Prelude.{
  ℕ, zero, suc, ◌+◌, ◌<◌, ◌≡◌, refl, ap, Option, none, some, List, [], ◌∷◌, ◌++◌, length, arith,
  ◌==◌, if◌then◌else◌,
}
use meshcore.Queue.Items.{Entry}
use meshcore.Queue.Edit.{take_out}

-- 1 if the two packets are one.
abbrev pub one : ℕ → ℕ → ℕ
one k p = if k == p then 1 else 0

abbrev one? : ℕ → Option ℕ → ℕ
one? k none = 0
one? k (some p) = one k p

-- How many entries hold packet `k`.
unfoldable pub count_entries : ℕ → List Entry → ℕ
count_entries k [] = 0
count_entries k (e ∷ es) = one? k e.packet + count_entries k es

-- How often a list of packets names packet `k`.
unfoldable pub count : ℕ → List ℕ → ℕ
count k [] = 0
count k (p ∷ ps) = one k p + count k ps

-- No entry holds NULL.
abbrev pub NoNull : List Entry → Type 0
NoNull [] = Unit {0}
NoNull (e ∷ es) = ((p : ℕ) × (e.packet ≡ some p)) × NoNull es

pub count-append : (k : ℕ) (xs ys : List ℕ) → count k (xs ++ ys) ≡ count k xs + count k ys
unfolding count
count-append k [] ys = omega arith
count-append k (x ∷ xs) ys = omega (arith, count-append k xs ys)

pub count_entries-snoc :
    (k : ℕ) (es : List Entry) (p priority scheduled_for : ℕ)
    → count_entries k (
        es ++ (record { packet = some p; priority = priority; scheduled_for = scheduled_for } ∷ []))
      ≡ count_entries k es + one k p
unfolding count_entries
count_entries-snoc k [] p priority scheduled_for = omega arith
count_entries-snoc k (e ∷ es) p priority scheduled_for =
    omega (arith, count_entries-snoc k es p priority scheduled_for)

pub NoNull-snoc :
    (es : List Entry) (p priority scheduled_for : ℕ)
    → NoNull es
    → NoNull (
        es ++ (record { packet = some p; priority = priority; scheduled_for = scheduled_for } ∷ []))
NoNull-snoc [] p priority scheduled_for h = ((p, refl), tt)
NoNull-snoc (e ∷ es) p priority scheduled_for (a, h) =
    (a, NoNull-snoc es p priority scheduled_for h)

-- Taking an entry out gives its packet, and the rest has that packet once less.
pub record Out (es : List Entry) (r : Option ℕ × List Entry) : Type 0 where
  pub taken : ℕ
  pub packet : r.0 ≡ some taken
  pub counts : (k : ℕ) → count_entries k es ≡ count_entries k r.1 + one k taken
  pub shorter : length es ≡ suc (length r.1)
  pub no_null : NoNull r.1

pub take_out-Out : (i : ℕ) (es : List Entry) → i < length es → NoNull es → Out es (take_out i es)
unfolding take_out count_entries
take_out-Out i [] lt h = absurd (omega arith)
take_out-Out zero (e ∷ es) lt ((p, is_p), h) = record {
  taken = p;
  packet = is_p;
  counts = λ k. rw is_p (omega arith);
  shorter = refl;
  no_null = h;
}
take_out-Out (suc i) (e ∷ es) lt (a, h) =
    let o = take_out-Out i es (omega arith) h in
    record {
      taken = o.taken;
      packet = o.packet;
      counts = λ k. omega (arith, o.counts k);
      shorter = ap suc o.shorter;
      no_null = (a, o.no_null);
    }
