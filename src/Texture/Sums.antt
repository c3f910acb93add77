-- ===== src/Texture/Sums.antt =====
-- Sizes of the entries of the texture cache, and its invariant:
-- crates/mr-crabs-graphics/src/texture.rs.
use mr_crabs.Common.{
  ℕ, suc, ◌+◌, ◌≤◌, ◌<◌, ◌≡◌, refl, inl, inr, Bool, true, false, ◌||◌, none, some, List, [], ◌∷◌,
  Bool-cases, length, u64_mod, arith,
}
use mr_crabs.Texture.{TextureKey, Entry, TextureCache, key_eq, find, remove_key}

abbrev pub sum_bytes : List (TextureKey × Entry) → ℕ
sum_bytes [] = 0
sum_bytes ((_, e) ∷ m) = e.bytes + sum_bytes m

abbrev pub has_key : TextureKey → List (TextureKey × Entry) → Bool
has_key k [] = false
has_key k ((j, _) ∷ m) = key_eq j k || has_key k m

abbrev pub HasDistinctKeys : List (TextureKey × Entry) → Type 0
HasDistinctKeys [] = Unit
HasDistinctKeys ((k, _) ∷ m) = (has_key k m ≡ false) × HasDistinctKeys m

-- No entry was used after the given time.
abbrev pub UsedBy : ℕ → List (TextureKey × Entry) → Type 0
UsedBy now [] = Unit
UsedBy now ((_, e) ∷ m) = (e.last_used ≤ now) × UsedBy now m

pub record IsValid (c : TextureCache) : Type 0 where
  pub total : c.total_bytes ≡ sum_bytes c.entries
  pub within_bytes : c.total_bytes ≤ c.max_bytes
  pub within_entries : length c.entries ≤ c.max_entries
  pub distinct : HasDistinctKeys c.entries
  pub used : UsedBy c.clock c.entries
  -- The byte budget leaves room for one more entry in a word.
  pub word : c.max_bytes + c.max_bytes < u64_mod

pub sum-remove_key :
    (k : TextureKey) (m : List (TextureKey × Entry)) (e : Entry)
    → find k m ≡ some e
    → sum_bytes (remove_key k m) + e.bytes ≡ sum_bytes m
sum-remove_key k [] e h = cc
sum-remove_key k ((j, d) ∷ m) e h = ground (arith, sum-remove_key k m e)

pub length-remove_key :
    (k : TextureKey) (m : List (TextureKey × Entry)) (e : Entry)
    → find k m ≡ some e
    → suc (length (remove_key k m)) ≡ length m
length-remove_key k [] e h = cc
length-remove_key k ((j, d) ∷ m) e h = ground (arith, length-remove_key k m e)

pub remove_key_of_none :
    (k : TextureKey) (m : List (TextureKey × Entry)) → find k m ≡ none → remove_key k m ≡ m
remove_key_of_none k [] h = refl
remove_key_of_none k ((j, d) ∷ m) h = ground (arith, remove_key_of_none k m)

pub has_key-remove_key :
    (k j : TextureKey) (m : List (TextureKey × Entry))
    → has_key j m ≡ false
    → has_key j (remove_key k m) ≡ false
has_key-remove_key k j [] h = refl
has_key-remove_key k j ((i, d) ∷ m) h = ground (arith, has_key-remove_key k j m)

pub remove_key-distinct :
    (k : TextureKey) (m : List (TextureKey × Entry))
    → HasDistinctKeys m
    → HasDistinctKeys (remove_key k m)
remove_key-distinct k [] d = tt
remove_key-distinct k ((j, e) ∷ m) d =
    ground (arith, remove_key-distinct k m d.1, has_key-remove_key k j m d.0)

pub not_has_key-remove_key :
    (k : TextureKey) (m : List (TextureKey × Entry))
    → HasDistinctKeys m
    → has_key k (remove_key k m) ≡ false
not_has_key-remove_key k [] d = refl
not_has_key-remove_key k ((j, e) ∷ m) d = elim (Bool-cases (key_eq j k)) [
  | inl same ↦ rw same (has_key_cong j k m same d.0)
  | inr other ↦ rw (other, other) (not_has_key-remove_key k m d.1)
]
  where
    has_key_cong :
        (j k : TextureKey) (m : List (TextureKey × Entry))
        → key_eq j k ≡ true
        → has_key j m ≡ false
        → has_key k m ≡ false
    has_key_cong j k [] s h = refl
    has_key_cong j k ((i, _) ∷ m) s h = ground (arith, has_key_cong j k m)

pub UsedBy-mono : (a b : ℕ) (m : List (TextureKey × Entry)) → a ≤ b → UsedBy a m → UsedBy b m
UsedBy-mono a b [] h u = tt
UsedBy-mono a b ((_, e) ∷ m) h u = (omega arith, UsedBy-mono a b m h u.1)

pub remove_key-UsedBy :
    (now : ℕ) (k : TextureKey) (m : List (TextureKey × Entry))
    → UsedBy now m
    → UsedBy now (remove_key k m)
remove_key-UsedBy now k [] u = tt
remove_key-UsedBy now k ((j, e) ∷ m) u = ground (arith, remove_key-UsedBy now k m u.1)
