-- ===== src/Texture/Tests.antt =====
-- Runs of the texture cache, and the theorems about it at a concrete cache.
use mr_crabs.Common.{ℕ, ◌<◌, ◌≤◌, ◌≡◌, refl, ◌⊎◌, none, some, [], ◌∷◌, arith}
use mr_crabs.Texture.{
  TextureKey, TextureCache, over_budget, ok, err, get, insert, enforce_budgets, place, base_total,
}
use mr_crabs.Texture.Sums.{IsValid}
use mr_crabs.Texture.Budget.{insert-IsValid}
use mr_crabs.Texture.Resident.{get-insert}

abbrev key : ℕ → TextureKey
key id = record { image_id = id; generation = 1 }

-- Two textures in a cache for 100 bytes and two entries; the first was used last.
abbrev small : TextureCache
small = record {
  max_bytes = 100;
  max_entries = 2;
  clock = 3;
  next_sequence = 2;
  next_handle = 3;
  entries =
      (key 2, record { handle = 2; bytes = 40; last_used = 2; sequence = 1 })
      ∷ (key 1, record { handle = 1; bytes = 30; last_used = 3; sequence = 0 })
      ∷ [];
  total_bytes = 70;
}

small-IsValid : IsValid small
small-IsValid = record {
  total = refl;
  within_bytes = omega arith;
  within_entries = omega arith;
  distinct = (refl, (refl, tt));
  used = (omega arith, (omega arith, tt));
  word = omega arith;
}

-- The third texture takes the place of the second, which was used longest ago.
insert_runs : (get (insert small (key 3) 60).0 (key 2)).1 ≡ none
unfolding insert get enforce_budgets place base_total
insert_runs = refl

insert-IsValid_example :
    ((100 < 60) × (insert small (key 3) 60 ≡ (small, err over_budget)))
    ⊎ ((handle : ℕ) × (60 ≤ 100)
        × ((insert small (key 3) 60).1 ≡ ok handle)
        × IsValid (insert small (key 3) 60).0)
insert-IsValid_example = insert-IsValid small (key 3) 60 small-IsValid (omega arith)

get-insert_example :
    (handle : ℕ) × ((insert small (key 3) 60).1 ≡ ok handle)
    × ((get (insert small (key 3) 60).0 (key 3)).1 ≡ some handle)
get-insert_example =
    get-insert small (key 3) 60 small-IsValid (omega arith) (omega arith) (omega arith)
