-- ===== src/Texture/Budget.antt =====
-- The budgets of the texture cache, and its invariant under every operation:
-- crates/mr-crabs-graphics/src/texture.rs.
use mr_crabs.Common.{
  ℕ, zero, suc, ◌+◌, ◌≤◌, ◌<◌, ◌≡◌, refl, sym, ap, subst, ◌⊎◌, inl, inr, true, false, none, some,
  List, [], ◌∷◌, ltb, Bool-cases, Option-cases, length, u64_mod, add_u64, sub_u64, arith,
}
use mr_crabs.Texture.{
  TextureKey, Entry, TextureCache, over_budget, ok, err, key_eq, find, remove_key, is_older,
  oldest_from, oldest, is_over, evict, evict_loop, enforce_budgets, place, base_total, insert,
}
use mr_crabs.Texture.Sums.{
  sum_bytes, has_key, HasDistinctKeys, UsedBy, IsValid, sum-remove_key, length-remove_key,
  remove_key_of_none, remove_key-distinct, not_has_key-remove_key, UsedBy-mono, remove_key-UsedBy,
}

has_key-oldest_from :
    (k : TextureKey) (e : Entry) (m : List (TextureKey × Entry))
    → has_key (oldest_from k e m).0 ((k, e) ∷ m) ≡ true
unfolding oldest_from
has_key-oldest_from k e [] = ground arith
has_key-oldest_from k e ((j, d) ∷ m) = elim (Bool-cases (is_older d e)) [
  | inl older ↦ ground (arith, older, has_key-oldest_from j d m)
  | inr newer ↦ ground (arith, newer, has_key-oldest_from k e m)
]

pub find_of_has_key :
    (k : TextureKey) (m : List (TextureKey × Entry))
    → has_key k m ≡ true
    → (e : Entry) × (find k m ≡ some e)
find_of_has_key k [] h = cc
find_of_has_key k ((j, d) ∷ m) h = elim (Bool-cases (key_eq j k)) [
  | inl same ↦ (d, rw same)
  | inr other ↦ let (e, found) = find_of_has_key k m (rw other at h) in (e, rw other found)
]

-- The victim of a round is in the map.
pub find-oldest :
    (j : TextureKey) (d : Entry) (m : List (TextureKey × Entry))
    → (k : TextureKey) × (v : Entry) × (e : Entry) × (oldest ((j, d) ∷ m) ≡ some (k, v))
      × (find k ((j, d) ∷ m) ≡ some e)
unfolding oldest
find-oldest j d m =
    let (e, found) =
      find_of_has_key (oldest_from j d m).0 ((j, d) ∷ m) (has_key-oldest_from j d m) in
    ((oldest_from j d m).0, (oldest_from j d m).1, e, refl, found)

-- A cache whose sizes add up, before its budgets hold.
pub record IsSized (c : TextureCache) : Type 0 where
  pub total : c.total_bytes ≡ sum_bytes c.entries
  pub word : c.total_bytes < u64_mod
  pub distinct : HasDistinctKeys c.entries
  pub used : UsedBy c.clock c.entries

pub record IsShrunk (c d : TextureCache) : Type 0 where
  pub max_bytes : d.max_bytes ≡ c.max_bytes
  pub max_entries : d.max_entries ≡ c.max_entries
  pub clock : d.clock ≡ c.clock
  pub sized : IsSized d

unfoldable pub evicted : TextureCache → TextureKey → Entry → TextureCache
evicted c k e = record c {
  entries = remove_key k c.entries;
  total_bytes = sub_u64 c.total_bytes e.bytes;
}

evict-eq-evicted :
    (c : TextureCache) (k : TextureKey) (e : Entry)
    → find k c.entries ≡ some e
    → evict c k ≡ evicted c k e
unfolding evicted evict
evict-eq-evicted c k e h = ground (arith, h)

pub evicted-IsSized :
    (c : TextureCache) (k : TextureKey) (e : Entry)
    → find k c.entries ≡ some e
    → IsSized c
    → IsSized (evicted c k e)
unfolding evicted
evicted-IsSized c k e h s = record {
  total = omega (arith, s.total, s.word, sum-remove_key k c.entries e h);
  word = omega (arith, s.word);
  distinct = remove_key-distinct k c.entries s.distinct;
  used = remove_key-UsedBy c.clock k c.entries s.used;
}

length-evicted :
    (c : TextureCache) (k : TextureKey) (e : Entry)
    → find k c.entries ≡ some e
    → suc (length (evicted c k e).entries) ≡ length c.entries
unfolding evicted
length-evicted c k e h = length-remove_key k c.entries e h

-- The loop ends with both budgets met.
abbrev pub Settles : TextureCache → TextureCache → Type 0
Settles c d = IsShrunk c d × (is_over d ≡ false)

not_over_empty : (c : TextureCache) → c.entries ≡ [] → IsSized c → is_over c ≡ false
unfolding is_over
not_over_empty c e s = ground (arith, s.total, ap sum_bytes e, ap length e)

pub oldest-cases :
    (m : List (TextureKey × Entry))
    → (m ≡ [])
      ⊎ ((k : TextureKey) × (v : Entry) × (e : Entry) × (oldest m ≡ some (k, v))
          × (find k m ≡ some e))
oldest-cases [] = inl refl
oldest-cases ((j, d) ∷ m) = inr (find-oldest j d m)

pub evict_loop_done :
    (fuel : ℕ) (c : TextureCache) → is_over c ≡ false → evict_loop (suc fuel) c ≡ c
unfolding evict_loop
evict_loop_done fuel c h = rw (h, evict_loop)

pub evict_loop_round :
    (fuel : ℕ) (c : TextureCache) (k : TextureKey) (v e : Entry)
    → is_over c ≡ true
    → oldest c.entries ≡ some (k, v)
    → find k c.entries ≡ some e
    → evict_loop (suc fuel) c ≡ evict_loop fuel (evicted c k e)
unfolding evict_loop
evict_loop_round fuel c k v e h o found =
    rw (h, o, evict_loop) (ap (evict_loop fuel) (evict-eq-evicted c k e found))

IsShrunk-evicted :
    (c d : TextureCache) (k : TextureKey) (e : Entry) → IsShrunk (evicted c k e) d → IsShrunk c d
unfolding evicted
IsShrunk-evicted c d k e s = record {
  max_bytes = s.max_bytes;
  max_entries = s.max_entries;
  clock = s.clock;
  sized = s.sized;
}

-- Fuel beyond the number of entries is enough: the loop ends with both budgets met.
pub evict_loop-Settles :
    (fuel : ℕ) (c : TextureCache)
    → length c.entries < fuel
    → IsSized c
    → Settles c (evict_loop fuel c)
evict_loop-Settles zero c h s = absurd (omega arith)
evict_loop-Settles (suc fuel) c h s = elim (Bool-cases (is_over c)) [
  | inr within ↦ subst (Settles c) (sym (evict_loop_done fuel c within)) (stays c s within)
  | inl over ↦ elim (oldest-cases c.entries) [
    | inl none_left ↦ absurd (ground (arith, not_over_empty c none_left s, over))
    | inr (k, v, e, o, found) ↦
        let shorter : length (evicted c k e).entries < fuel =
          omega (arith, length-evicted c k e found) in
        let (t, settled) =
          evict_loop-Settles fuel (evicted c k e) shorter (evicted-IsSized c k e found s) in
        subst (Settles c) (sym (evict_loop_round fuel c k v e over o found))
          (IsShrunk-evicted c _ k e t, settled)
  ]
]
  where
    stays : (c : TextureCache) → IsSized c → is_over c ≡ false → Settles c c
    stays c s h = (record { max_bytes = refl; max_entries = refl; clock = refl; sized = s }, h)

unfoldable pub enforced : TextureCache → TextureCache
enforced c = evict_loop (suc (length c.entries)) c

-- The budgets can always be met: `enforce_budgets` makes no error.
enforce_budgets-eq : (c : TextureCache) → IsSized c → enforce_budgets c ≡ (enforced c, none)
unfolding enforce_budgets enforced
enforce_budgets-eq c s =
    let (t, settled) = evict_loop-Settles (suc (length c.entries)) c (omega arith) s in
    ground (arith, settled)

enforced-IsValid :
    (c : TextureCache) → IsSized c → c.max_bytes + c.max_bytes < u64_mod → IsValid (enforced c)
unfolding enforced is_over
enforced-IsValid c s word =
    let (t, settled) = evict_loop-Settles (suc (length c.entries)) c (omega arith) s in
    record {
      total = t.sized.total;
      within_bytes = ground (arith, settled);
      within_entries = ground (arith, settled);
      distinct = t.sized.distinct;
      used = t.sized.used;
      word = omega (arith, t.max_bytes);
    }

base_total_lem :
    (c : TextureCache) (key : TextureKey)
    → IsValid c
    → (base_total c key ≡ sum_bytes (remove_key key c.entries)) × (base_total c key ≤ c.max_bytes)
unfolding base_total
base_total_lem c key v = elim (Option-cases (find key c.entries)) [
  | inl absent ↦
      rw (absent, remove_key_of_none key c.entries absent, base_total) (v.total, v.within_bytes)
  | inr (e, found) ↦ rw (found, base_total) (replaced e (sum-remove_key key c.entries e found))
]
  where
    replaced :
        (e : Entry)
        → sum_bytes (remove_key key c.entries) + e.bytes ≡ sum_bytes c.entries
        → (sub_u64 c.total_bytes e.bytes ≡ sum_bytes (remove_key key c.entries))
          × (sub_u64 c.total_bytes e.bytes ≤ c.max_bytes)
    replaced e sum = omega (arith, v.total, v.within_bytes, v.word)

pub place-IsSized :
    (c : TextureCache) (key : TextureKey) (bytes : ℕ)
    → IsValid c
    → bytes ≤ c.max_bytes
    → c.clock + 1 < u64_mod
    → IsSized (place c key bytes).0
unfolding place
place-IsSized c key bytes v h tick =
    let (sum, fits) = base_total_lem c key v in
    record {
      total = omega (arith, sum, fits, v.word);
      word = omega arith;
      distinct = (
        not_has_key-remove_key key c.entries v.distinct,
        remove_key-distinct key c.entries v.distinct,
      );
      used = (
        omega arith,
        UsedBy-mono c.clock (add_u64 c.clock 1) (remove_key key c.entries) (omega arith)
            (remove_key-UsedBy c.clock key c.entries v.used),
      );
    }

placed_limits :
    (c : TextureCache) (key : TextureKey) (bytes : ℕ)
    → ((place c key bytes).0.max_bytes ≡ c.max_bytes)
      × ((place c key bytes).0.max_entries ≡ c.max_entries)
unfolding place
placed_limits c key bytes = (refl, refl)

pub insert-eq :
    (c : TextureCache) (key : TextureKey) (bytes : ℕ)
    → IsSized (place c key bytes).0
    → bytes ≤ c.max_bytes
    → insert c key bytes ≡ (enforced (place c key bytes).0, ok (place c key bytes).1)
unfolding insert
insert-eq c key bytes s fits = ground (arith, enforce_budgets-eq (place c key bytes).0 s)

-- What `insert` makes: an entry larger than the byte budget is refused with the cache unchanged;
-- any other succeeds and leaves a valid cache.
pub insert-IsValid :
    (c : TextureCache) (key : TextureKey) (bytes : ℕ)
    → IsValid c
    → c.clock + 1 < u64_mod
    → ((c.max_bytes < bytes) × (insert c key bytes ≡ (c, err over_budget)))
      ⊎ ((handle : ℕ) × (bytes ≤ c.max_bytes)
          × ((insert c key bytes).1 ≡ ok handle)
          × IsValid (insert c key bytes).0)
insert-IsValid c key bytes v tick = elim (Bool-cases (ltb c.max_bytes bytes)) [
  | inl big ↦ inl (ground arith, unfold insert in rw big)
  | inr fits ↦
      let small : bytes ≤ c.max_bytes = ground arith in
      let s = place-IsSized c key bytes v small tick in
      let e : insert c key bytes ≡ (enforced (place c key bytes).0, ok (place c key bytes).1) =
        insert-eq c key bytes s small in
      inr (
        (place c key bytes).1,
        small,
        ap (λ r. r.1) e,
        subst IsValid (sym (ap (λ r. r.0) e)) (
            enforced-IsValid (place c key bytes).0 s
              (omega (arith, (placed_limits c key bytes).0, v.word))),
      )
]
