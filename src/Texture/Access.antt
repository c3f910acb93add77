-- ===== src/Texture/Access.antt =====
-- Lookups and removals in the texture cache: crates/mr-crabs-graphics/src/texture.rs.
use mr_crabs.Common.{
  ℕ, ◌+◌, ◌<◌, ◌≡◌, refl, sym, ap, ◌∙◌, inl, inr, false, none, some, List, [], ◌∷◌, Option-cases,
  length, u64_mod, add_u64, sub_u64, arith,
}
use mr_crabs.Texture.{TextureKey, Entry, TextureCache, find, remove_key, touch, get, remove}
use mr_crabs.Texture.Sums.{
  sum_bytes, has_key, HasDistinctKeys, UsedBy, IsValid, sum-remove_key, length-remove_key,
  remove_key-distinct, not_has_key-remove_key, remove_key-UsedBy, UsedBy-mono,
}

module _ (k : TextureKey) (now : ℕ) where
  sum-touch : (m : List (TextureKey × Entry)) → sum_bytes (touch k now m) ≡ sum_bytes m
  sum-touch [] = refl
  sum-touch ((j, e) ∷ m) = ground (arith, sum-touch m)

  length-touch : (m : List (TextureKey × Entry)) → length (touch k now m) ≡ length m
  length-touch [] = refl
  length-touch ((j, e) ∷ m) = ground (arith, length-touch m)

  has_key-touch :
      (i : TextureKey) (m : List (TextureKey × Entry)) → has_key i (touch k now m) ≡ has_key i m
  has_key-touch i [] = refl
  has_key-touch i ((j, e) ∷ m) = ground (arith, has_key-touch i m)

  touch-distinct :
      (m : List (TextureKey × Entry)) → HasDistinctKeys m → HasDistinctKeys (touch k now m)
  touch-distinct [] d = tt
  touch-distinct ((j, e) ∷ m) d = ground (arith, touch-distinct m d.1, has_key-touch j m)

  touch-UsedBy : (m : List (TextureKey × Entry)) → UsedBy now m → UsedBy now (touch k now m)
  touch-UsedBy [] u = tt
  touch-UsedBy ((j, e) ∷ m) u = ground (arith, touch-UsedBy m u.1)

find_of_not_has_key :
    (k : TextureKey) (m : List (TextureKey × Entry)) → has_key k m ≡ false → find k m ≡ none
find_of_not_has_key k [] h = refl
find_of_not_has_key k ((j, e) ∷ m) h = ground (arith, find_of_not_has_key k m)

abbrev touched : TextureCache → TextureKey → TextureCache
touched c key = record c {
  clock = add_u64 c.clock 1;
  entries = touch key (add_u64 c.clock 1) c.entries;
}

touched-IsValid :
    (c : TextureCache) (key : TextureKey)
    → IsValid c
    → c.clock + 1 < u64_mod
    → IsValid (touched c key)
touched-IsValid c key v tick =
    let now = add_u64 c.clock 1 in
    record {
      total = v.total ∙ sym (sum-touch key now c.entries);
      within_bytes = v.within_bytes;
      within_entries = rw length-touch v.within_entries;
      distinct = touch-distinct key now c.entries v.distinct;
      used =
          touch-UsedBy key now c.entries (UsedBy-mono c.clock now c.entries (omega arith) v.used);
      word = v.word;
    }

abbrev removed : TextureCache → TextureKey → Entry → TextureCache
removed c key e = record c {
  entries = remove_key key c.entries;
  total_bytes = sub_u64 c.total_bytes e.bytes;
}

removed-IsValid :
    (c : TextureCache) (key : TextureKey) (e : Entry)
    → find key c.entries ≡ some e
    → IsValid c
    → IsValid (removed c key e)
removed-IsValid c key e h v = record {
  total = omega (arith, v.total, v.word, v.within_bytes, sum-remove_key key c.entries e h);
  within_bytes = omega (arith, v.total, v.word, v.within_bytes, sum-remove_key key c.entries e h);
  within_entries = omega (arith, v.within_entries, length-remove_key key c.entries e h);
  distinct = remove_key-distinct key c.entries v.distinct;
  used = remove_key-UsedBy c.clock key c.entries v.used;
  word = v.word;
}

module _ (c : TextureCache) (key : TextureKey) where
  get_absent : find key c.entries ≡ none → get c key ≡ (c, none)
  unfolding get
  get_absent h = rw (h, get)

  get_found : (e : Entry) → find key c.entries ≡ some e → get c key ≡ (touched c key, some e.handle)
  unfolding get
  get_found e h = rw (h, get)

  remove_absent : find key c.entries ≡ none → remove c key ≡ (c, none)
  unfolding remove
  remove_absent h = rw (h, remove)

  remove_found :
      (e : Entry) → find key c.entries ≡ some e → remove c key ≡ (removed c key e, some e.handle)
  unfolding remove
  remove_found e h = rw (h, remove)

  find-touch_self :
      (now : ℕ) (e : Entry) (m : List (TextureKey × Entry))
      → find key m ≡ some e
      → find key (touch key now m) ≡ some (record e { last_used = now })
  find-touch_self now e [] h = cc
  find-touch_self now e ((j, d) ∷ m) h = ground (arith, find-touch_self now e m)

-- A lookup leaves a valid cache valid, while the clock does not wrap, and the same lookup after it
-- gives the same answer.
pub get-IsValid :
    (c : TextureCache) (key : TextureKey)
    → IsValid c
    → c.clock + 1 < u64_mod
    → IsValid (get c key).0 × ((get (get c key).0 key).1 ≡ (get c key).1)
get-IsValid c key v tick = elim (Option-cases (find key c.entries)) [
  | inl absent ↦ rw (get_absent c key absent) (v, ap (λ r. r.1) (get_absent c key absent))
  | inr (e, found) ↦ rw (get_found c key e found) (
    touched-IsValid c key v tick,
    ap (λ r. r.1)
        (get_found (touched c key) key _
          (find-touch_self c key (add_u64 c.clock 1) e c.entries found)),
  )
]

-- A removal leaves a valid cache valid, the key finds nothing after it, and it reports the handle
-- that a lookup before it would have given.
pub remove-IsValid :
    (c : TextureCache) (key : TextureKey)
    → IsValid c
    → IsValid (remove c key).0
      × ((get (remove c key).0 key).1 ≡ none)
      × ((remove c key).1 ≡ (get c key).1)
remove-IsValid c key v = elim (Option-cases (find key c.entries)) [
  | inl absent ↦
      rw (remove_absent c key absent)
        (v, ap (λ r. r.1) (get_absent c key absent), sym (ap (λ r. r.1) (get_absent c key absent)))
  | inr (e, found) ↦ rw (remove_found c key e found) (
    removed-IsValid c key e found v,
    ap (λ r. r.1)
        (get_absent (removed c key e) key (
          find_of_not_has_key key (remove_key key c.entries)
            (not_has_key-remove_key key c.entries v.distinct))),
    sym (ap (λ r. r.1) (get_found c key e found)),
  )
]
