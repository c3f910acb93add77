-- ===== src/Texture/Resident.antt =====
-- What `insert` of crates/mr-crabs-graphics/src/texture.rs has put into the cache stays there: the
-- eviction takes out the entries that were used longest ago first.
use mr_crabs.Common.{
  ℕ, zero, suc, ◌+◌, ◌≤◌, ◌<◌, ◌≡◌, refl, ap, ◌∙◌, ◌⊎◌, inl, inr, true, false, some, List, [], ◌∷◌,
  Bool-cases, length, u64_mod, add_u64, arith,
}
use mr_crabs.Texture.{
  TextureKey, Entry, TextureCache, ok, key_eq, find, remove_key, is_older, oldest_from, oldest,
  is_over, evict_loop, place, insert, get, InsertResult,
}
use mr_crabs.Texture.Sums.{
  sum_bytes, has_key, HasDistinctKeys, UsedBy, IsValid, not_has_key-remove_key, remove_key-UsedBy,
}
use mr_crabs.Texture.Budget.{
  IsSized, evicted, evicted-IsSized, oldest-cases, evict_loop_done, evict_loop_round, place-IsSized,
  insert-eq, enforced,
}

-- The entry `n` of the key was used after every other entry.
abbrev Newest : TextureKey → Entry → List (TextureKey × Entry) → Type 0
Newest key n [] = Unit
Newest key n ((j, e) ∷ m) =
    (((key_eq j key ≡ true) × (e ≡ n)) ⊎ ((key_eq j key ≡ false) × (e.last_used < n.last_used)))
    × Newest key n m

module _ (key : TextureKey) (n : Entry) where
  older_kept :
      (k : TextureKey) (e : Entry) (m : List (TextureKey × Entry))
      → key_eq k key ≡ false
      → e.last_used < n.last_used
      → Newest key n m
      → key_eq (oldest_from k e m).0 key ≡ false
  unfolding oldest_from
  older_kept k e [] h lt w = h
  older_kept k e ((j, d) ∷ m) h lt w = elim (Bool-cases (is_older d e)) [
    | inl older ↦ ground (arith, older, older_kept j d m)
    | inr newer ↦ ground (arith, newer, older_kept k e m)
  ]

  first_victim :
      (j : TextureKey) (e : Entry) (i : TextureKey) (c : Entry) (m : List (TextureKey × Entry))
      → HasDistinctKeys ((j, e) ∷ (i, c) ∷ m)
      → Newest key n ((j, e) ∷ (i, c) ∷ m)
      → key_eq (oldest_from j e ((i, c) ∷ m)).0 key ≡ false
  first_victim j e i c m d (inr (other, lt), w) = older_kept j e ((i, c) ∷ m) other lt w
  first_victim j e i c m d (inl (same, top), (inl (same', _), w)) =
      absurd (ground (arith, same, same', d.0))
  first_victim j e i c m d (inl (same, top), (inr (other, lt), w)) =
      unfold oldest_from in ground (arith, top, lt, older_kept i c m other lt w)

  victim_other :
      (m : List (TextureKey × Entry)) (k : TextureKey) (v : Entry)
      → HasDistinctKeys m
      → Newest key n m
      → find key m ≡ some n
      → oldest m ≡ some (k, v)
      → ((length m ≡ 1) × (sum_bytes m ≡ n.bytes)) ⊎ (key_eq k key ≡ false)
  unfolding oldest
  victim_other [] k v d w f o = cc
  victim_other ((j, e) ∷ []) k v d w f o = inl (ground arith)
  victim_other ((j, e) ∷ (i, c) ∷ m) k v d w f o =
      inr (ground (arith, o, first_victim j e i c m d w))

  find-remove_key_ne :
      (k : TextureKey) (m : List (TextureKey × Entry))
      → key_eq k key ≡ false
      → find key (remove_key k m) ≡ find key m
  find-remove_key_ne k [] h = refl
  find-remove_key_ne k ((j, d) ∷ m) h = ground (arith, find-remove_key_ne k m)

  remove_key-Newest :
      (k : TextureKey) (m : List (TextureKey × Entry))
      → Newest key n m
      → Newest key n (remove_key k m)
  remove_key-Newest k [] w = tt
  remove_key-Newest k ((j, d) ∷ m) w = ground (arith, remove_key-Newest k m w.1)

  UsedBy-Newest :
      (now : ℕ) (m : List (TextureKey × Entry))
      → now < n.last_used
      → has_key key m ≡ false
      → UsedBy now m
      → Newest key n m
  UsedBy-Newest now [] h a u = tt
  UsedBy-Newest now ((j, d) ∷ m) h a u =
      (inr (ground arith, omega arith), UsedBy-Newest now m h (ground arith) u.1)

  -- The loop never takes out the entry that was used last, if that alone meets the budgets.
  find-evict_loop :
      (fuel : ℕ) (c : TextureCache)
      → IsSized c
      → Newest key n c.entries
      → find key c.entries ≡ some n
      → n.bytes ≤ c.max_bytes
      → 1 ≤ c.max_entries
      → find key (evict_loop fuel c).entries ≡ some n
  find-evict_loop zero c s w f small room = unfold evict_loop in f
  find-evict_loop (suc fuel) c s w f small room = elim (Bool-cases (is_over c)) [
    | inr within ↦ rw (evict_loop_done fuel c within) f
    | inl over ↦ elim (oldest-cases c.entries) [
      | inl empty ↦ absurd (ground (arith, f, ap (find key) empty))
      | inr (k, v, e, o, found) ↦ elim (victim_other c.entries k v s.distinct w f o) [
        | inl (single, size) ↦
            absurd (unfold is_over in ground (arith, over, s.total, single, size))
        | inr other ↦ rw (evict_loop_round fuel c k v e over o found) (
            find-evict_loop fuel (evicted c k e) (evicted-IsSized c k e found s)
              (unfold evicted in remove_key-Newest k c.entries w)
              (unfold evicted in (find-remove_key_ne k c.entries other ∙ f))
              (unfold evicted in small) (unfold evicted in room))
      ]
    ]
  ]

find-place :
    (c : TextureCache) (key : TextureKey) (bytes : ℕ)
    → find key (place c key bytes).0.entries
      ≡ some (record {
        handle = (place c key bytes).1;
        bytes = bytes;
        last_used = add_u64 c.clock 1;
        sequence = c.next_sequence;
      })
unfolding place
find-place c key bytes = ground arith

place-Newest :
    (c : TextureCache) (key : TextureKey) (bytes : ℕ)
    → IsValid c
    → c.clock + 1 < u64_mod
    → Newest key
        (record {
          handle = (place c key bytes).1;
          bytes = bytes;
          last_used = add_u64 c.clock 1;
          sequence = c.next_sequence;
        })
        (place c key bytes).0.entries
unfolding place
place-Newest c key bytes v tick = (
  inl (ground arith, refl),
  UsedBy-Newest key _ c.clock (remove_key key c.entries) (omega arith)
      (not_has_key-remove_key key c.entries v.distinct)
      (remove_key-UsedBy c.clock key c.entries v.used),
)

-- In a valid cache with room for an entry, after an `insert` that fits the byte budget the lookup of
-- the key finds the handle that `insert` returned.
pub get-insert :
    (c : TextureCache) (key : TextureKey) (bytes : ℕ)
    → IsValid c
    → c.clock + 1 < u64_mod
    → bytes ≤ c.max_bytes
    → 1 ≤ c.max_entries
    → (handle : ℕ) × ((insert c key bytes).1 ≡ ok handle)
      × ((get (insert c key bytes).0 key).1 ≡ some handle)
unfolding get
get-insert c key bytes v tick small room =
    ((place c key bytes).1, ap (λ r. r.1) done, ground (arith, found))
  where
    sized : IsSized (place c key bytes).0
    sized = place-IsSized c key bytes v small tick

    done : insert c key bytes ≡ (enforced (place c key bytes).0, ok (place c key bytes).1)
    done = insert-eq c key bytes sized small

    found :
        find key (insert c key bytes).0.entries
        ≡ some (record {
          handle = (place c key bytes).1;
          bytes = bytes;
          last_used = add_u64 c.clock 1;
          sequence = c.next_sequence;
        })
    found =
        ap (λ (r : TextureCache × InsertResult). find key r.0.entries) done
        ∙ unfold enforced in
          find-evict_loop key _ _ (place c key bytes).0 sized (place-Newest c key bytes v tick)
            (find-place c key bytes) (unfold place in small) (unfold place in room)
