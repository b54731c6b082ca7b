-- ===== src/Imap/Bounds.antt =====
-- The indices that a sequence set names.
use bdsmail.Base.{
  All, All-append, Bool-cases, List, Option, String, [], arith, cut, first, inl, inr, ltb, none,
  pos, refl, some, split, suc, zero, ℕ, ℤ, ◌+◌, ◌-◌, ◌<◌, ◌∷◌, ◌≡◌, ◌≤◌,
}
use bdsmail.Imap.Parse.{
  index_of, indices_from, parse_seq_num, parse_seq_part, parse_seq_parts, parse_sequence_set,
  seq_range,
}

-- an index of one of `total` messages
abbrev pub InBounds : ℕ → ℤ → Type 0
InBounds total index = (i : ℕ) × (index ≡ pos i) × (i < total)

parse_seq_num-bounds :
    (s : String) (total : ℕ)
    → 1 ≤ total
    → (1 ≤ parse_seq_num s total) × (parse_seq_num s total ≤ total)
unfolding parse_seq_num
parse_seq_num-bounds s total h = (ground arith, ground arith)

index_of-InBounds : (total n : ℕ) → 1 ≤ n → n ≤ total → InBounds total (index_of n)
index_of-InBounds total zero h k = absurd (omega (arith, h))
index_of-InBounds total (suc n) h k = (n, refl, omega (arith, k))

indices_from-InBounds :
    (total i k : ℕ) → 1 ≤ i → i + k ≤ total + 1 → All (InBounds total) (indices_from i k)
indices_from-InBounds total i zero h b = tt
indices_from-InBounds total i (suc k) h b = (
  index_of-InBounds total i h (omega (arith, b)),
  indices_from-InBounds total (i + 1) k (omega arith) (omega (arith, b)),
)

seq_range-InBounds :
    (total a b : ℕ) → 1 ≤ a → a ≤ total → 1 ≤ b → b ≤ total → All (InBounds total) (seq_range a b)
unfolding seq_range
seq_range-InBounds total a b ha ka hb kb = elim (Bool-cases (ltb b a)) [
  | inl e ↦ rw e (indices_from-InBounds total b (a + 1 - b) hb (ground (arith, e)))
  | inr e ↦ rw e (indices_from-InBounds total a (b + 1 - a) ha (ground (arith, e)))
]

parse_seq_part-InBounds :
    (total : ℕ) (part : String) → 1 ≤ total → All (InBounds total) (parse_seq_part total part)
unfolding parse_seq_part
parse_seq_part-InBounds total part h = go (cut b':' part)
  where
    go :
        (found : Option (String × String))
        → All (InBounds total) (elim found as (λ o. List ℤ) [
          | none ↦ index_of (parse_seq_num part total) ∷ []
          | some (first, last) ↦ seq_range (parse_seq_num first total) (parse_seq_num last total)
        ])
    go none =
        let (a, b) = parse_seq_num-bounds part total h in
        (index_of-InBounds total (parse_seq_num part total) a b, tt)
    go (some (first, last)) =
        let (a, b) = parse_seq_num-bounds first total h in
        let (c, d) = parse_seq_num-bounds last total h in
        seq_range-InBounds total (parse_seq_num first total) (parse_seq_num last total) a b c d

parse_seq_parts-InBounds :
    (total : ℕ) (parts : List String)
    → 1 ≤ total
    → All (InBounds total) (parse_seq_parts total parts)
unfolding parse_seq_parts
parse_seq_parts-InBounds total [] h = tt
parse_seq_parts-InBounds total (part ∷ rest) h =
    All-append (InBounds total) (parse_seq_part total part) (parse_seq_parts total rest)
      (parse_seq_part-InBounds total part h) (parse_seq_parts-InBounds total rest h)

-- In a mailbox that is not empty, a sequence set, whatever its text, names only indices of messages
-- that are there.
pub parse_sequence_set-InBounds :
    (s : String) (total : ℕ) → 1 ≤ total → All (InBounds total) (parse_sequence_set s total)
unfolding parse_sequence_set
parse_sequence_set-InBounds s total h = parse_seq_parts-InBounds total (split b',' s) h
