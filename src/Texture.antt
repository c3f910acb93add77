-- ===== src/Texture.antt =====
-- The bounded texture cache: crates/mr-crabs-graphics/src/texture.rs. The hash map of the entries is
-- an association list with distinct keys; its order stands for the order of iteration.
pub mod Sums
pub mod Budget
pub mod Resident
pub mod Access
pub mod Tests
use mr_crabs.Common.{
  ℕ, zero, suc, Bool, true, false, ◌&&◌, ◌||◌, Option, none, some, List, [], ◌∷◌, if◌then◌else◌,
  ◌==◌, ltb, length, add_u64, sub_u64,
}

pub record TextureKey : Type 0 where
  pub image_id : ℕ
  pub generation : ℕ

pub data TextureError : Type 0 where
  over_budget too_many_entries : TextureError

-- A handle is its `id`.
pub record Entry : Type 0 where
  pub handle : ℕ
  pub bytes : ℕ
  pub last_used : ℕ
  pub sequence : ℕ

pub record TextureCache : Type 0 where
  pub max_bytes : ℕ
  pub max_entries : ℕ
  pub clock : ℕ
  pub next_sequence : ℕ
  pub next_handle : ℕ
  pub entries : List (TextureKey × Entry)
  pub total_bytes : ℕ

pub data InsertResult : Type 0 where
  ok : ℕ → InsertResult
  err : TextureError → InsertResult

unfoldable pub new : ℕ → ℕ → TextureCache
new max_bytes max_entries = record {
  max_bytes = max_bytes;
  max_entries = max_entries;
  clock = 0;
  next_sequence = 0;
  next_handle = 1;
  entries = [];
  total_bytes = 0;
}

-- `Default::default()`.
unfoldable pub default_cache : TextureCache
unfolding new
default_cache = new 320000000 4096

abbrev pub key_eq : TextureKey → TextureKey → Bool
key_eq a b = a.image_id == b.image_id && a.generation == b.generation

-- The map's `get`, `remove` and an update of one value.
abbrev pub find : TextureKey → List (TextureKey × Entry) → Option Entry
find k [] = none
find k ((j, e) ∷ m) = if key_eq j k then some e else find k m

abbrev pub remove_key : TextureKey → List (TextureKey × Entry) → List (TextureKey × Entry)
remove_key k [] = []
remove_key k ((j, e) ∷ m) = if key_eq j k then m else (j, e) ∷ remove_key k m

abbrev pub touch : TextureKey → ℕ → List (TextureKey × Entry) → List (TextureKey × Entry)
touch k now [] = []
touch k now ((j, e) ∷ m) =
    if key_eq j k then (j, record e { last_used = now }) ∷ m else (j, e) ∷ touch k now m

-- `get`: the lookup refreshes the entry.
unfoldable pub get : TextureCache → TextureKey → TextureCache × Option ℕ
get c key = elim (find key c.entries) [
  | none ↦ (c, none)
  | some e ↦
      let now = add_u64 c.clock 1 in
      (record c { clock = now; entries = touch key now c.entries }, some e.handle)
]

-- The order of the tuples `(last_used, sequence, handle.id)`.
abbrev pub is_older : Entry → Entry → Bool
is_older a b =
    ltb a.last_used b.last_used
    || (a.last_used == b.last_used
        && (ltb a.sequence b.sequence || (a.sequence == b.sequence && ltb a.handle b.handle)))

-- `min_by_key`, the first of equals, from a best entry so far.
unfoldable pub oldest_from : TextureKey → Entry → List (TextureKey × Entry) → TextureKey × Entry
oldest_from k e [] = (k, e)
oldest_from k e ((j, d) ∷ m) =
    oldest_from (if is_older d e then j else k) (if is_older d e then d else e) m

unfoldable pub oldest : List (TextureKey × Entry) → Option (TextureKey × Entry)
unfolding oldest_from
oldest [] = none
oldest ((k, e) ∷ m) = some (oldest_from k e m)

unfoldable pub is_over : TextureCache → Bool
is_over c = ltb c.max_bytes c.total_bytes || ltb c.max_entries (length c.entries)

-- One round of the loop with the victim's entry; the `unwrap` of the source panics on `none`, which
-- does not occur, as the victim is taken from the same map.
unfoldable pub evict : TextureCache → TextureKey → TextureCache
evict c k = elim (find k c.entries) [
  | none ↦ c
  | some e ↦ record c {
    entries = remove_key k c.entries;
    total_bytes = sub_u64 c.total_bytes e.bytes;
  }
]

-- The loop of `enforce_budgets`; each round takes out an entry, so their number is fuel enough.
unfoldable pub evict_loop : ℕ → TextureCache → TextureCache
evict_loop zero c = c
evict_loop (suc fuel) c = elim (is_over c) [
  | false ↦ c
  | true ↦ elim (oldest c.entries) [ none ↦ c | some (k, _) ↦ evict_loop fuel (evict c k) ]
]

unfoldable pub enforce_budgets : TextureCache → TextureCache × Option TextureError
unfolding evict_loop is_over evict oldest
enforce_budgets c =
    let d = evict_loop (suc (length c.entries)) c in
    (
      d,
      if ltb d.max_bytes d.total_bytes
          then some over_budget
          else if ltb d.max_entries (length d.entries)
          then some too_many_entries
          else none,
    )

-- The total without the entry that `insert` replaces.
unfoldable pub base_total : TextureCache → TextureKey → ℕ
base_total c key = elim (find key c.entries) [
  | none ↦ c.total_bytes
  | some e ↦ sub_u64 c.total_bytes e.bytes
]

-- `insert` up to the call of `enforce_budgets`, with the handle.
unfoldable pub place : TextureCache → TextureKey → ℕ → TextureCache × ℕ
place c key bytes =
    let now = add_u64 c.clock 1 in
    let old = find key c.entries in
    let handle : ℕ = elim old [ none ↦ c.next_handle | some e ↦ e.handle ] in
    let following : ℕ = elim old [ none ↦ add_u64 c.next_handle 1 | some _ ↦ c.next_handle ] in
    (
      record c {
        clock = now;
        next_sequence = add_u64 c.next_sequence 1;
        next_handle = following;
        entries =
            (
              key,
              record {
                handle = handle;
                bytes = bytes;
                last_used = now;
                sequence = c.next_sequence;
              },
            )
            ∷ remove_key key c.entries;
        total_bytes = add_u64 (base_total c key) bytes;
      },
      handle,
    )

unfoldable pub insert : TextureCache → TextureKey → ℕ → TextureCache × InsertResult
insert c key bytes =
    let (placed, handle) = place c key bytes in
    let (d, failure) = enforce_budgets placed in
    if ltb c.max_bytes bytes
    then (c, err over_budget)
    else (d, elim failure [ none ↦ ok handle | some e ↦ err e ])

unfoldable pub remove : TextureCache → TextureKey → TextureCache × Option ℕ
remove c key = elim (find key c.entries) [
  | none ↦ (c, none)
  | some e ↦ (
    record c { entries = remove_key key c.entries; total_bytes = sub_u64 c.total_bytes e.bytes },
    some e.handle,
  )
]
