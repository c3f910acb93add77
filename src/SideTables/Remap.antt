-- ===== src/SideTables/Remap.antt =====
-- The compaction of the styles: `StyleRemap` and `StyleTable::stage_remapped` of
-- crates/mr-crabs-terminal/src/side_tables.rs. `live_ids` is the `BTreeSet` in the order of its
-- elements.
use mr_crabs.Common.{
  ℕ, suc, Bool, true, false, not, ◌||◌, Option, none, some, List, [], ◌∷◌, ◌++◌, if◌then◌else◌, ltb,
  leb, ◌==◌, length, get_elem?, replicate, set_elem, add_u64, add_u16,
}
use mr_crabs.SideTables.Index.{Equality}
use mr_crabs.SideTables.Styles.{
  StyleTable, Result, ok, err, style_compaction_corrupt, style_compaction_capacity, starts_default,
  from_exact,
}

abbrev pub u16_max : ℕ
u16_max = 65535

abbrev pub first_is_zero : List ℕ → Bool
first_is_zero [] = false
first_is_zero (x ∷ _) = x == 0

pub record StyleRemap (S : Type 0) : Type 0 where
  pub old_to_new : List ℕ
  pub new_styles : List S
  pub old_len : ℕ

abbrev pub mapped_id : Option ℕ → Result ℕ
mapped_id none = err style_compaction_corrupt
mapped_id (some mapped) = if mapped == u16_max then err style_compaction_corrupt else ok mapped

module _ {S : Type 0} where
  -- A round of the loop over the live ids: the style at the id, the number that it gets, and the
  -- rounds after it.
  abbrev pub assign_id : {B : Type 0} → Option S → ℕ → (S → Result B) → Result B
  assign_id none new_id rest = err style_compaction_corrupt
  assign_id (some style) new_id rest =
      if leb new_id u16_max then rest style else err style_compaction_capacity

  unfoldable pub assign_ids : List S → List ℕ → List ℕ → List S → Result (List ℕ × List S)
  assign_ids old [] old_to_new new_styles = ok (old_to_new, new_styles)
  assign_ids old (id ∷ ids) old_to_new new_styles =
      assign_id (get_elem? old id) (length new_styles) (λ style.
        assign_ids old ids (set_elem id (length new_styles) old_to_new)
          (new_styles ++ (style ∷ [])))

  unfoldable pub map_id : StyleRemap S → ℕ → Result ℕ
  map_id r old_id = mapped_id (get_elem? r.old_to_new old_id)

module _ {S : Type 0} (E : Equality S) (default : S) where
  abbrev pub checked : ℕ → Result (List ℕ × List S) → Result (StyleRemap S)
  checked n (err e) = err e
  checked n (ok (old_to_new, new_styles)) =
      if starts_default E default new_styles
      then ok (record { old_to_new = old_to_new; new_styles = new_styles; old_len = n })
      else err style_compaction_corrupt

  unfoldable pub remap_new : List S → List ℕ → Result (StyleRemap S)
  unfolding assign_ids
  remap_new old live =
      if not (starts_default E default old) || not (first_is_zero live)
      then err style_compaction_corrupt
      else checked (length old) (assign_ids old live (replicate (length old) u16_max) [])

  -- `old_styles.get(old_id) == Some(&new_styles[mapped])` for the style at `old_id`.
  abbrev pub same_style : Option S → Option S → Bool
  same_style (some a) (some b) = E.same a b
  same_style _ _ = false

  -- The loop over the entries of `old_to_new` from `old_id` on. A `seen` entry is read at the
  -- position `mapped`, which is in range there.
  unfoldable pub check_entries :
      StyleRemap S → List S → List ℕ → ℕ → ℕ → List Bool → Option (ℕ × List Bool)
  check_entries r old [] old_id expected seen = some (expected, seen)
  check_entries r old (mapped ∷ rest) old_id expected seen =
      let skip = check_entries r old rest (suc old_id) expected seen in
      let next =
        check_entries r old rest (suc old_id) (add_u16 expected 1) (set_elem mapped true seen) in
      if mapped == u16_max
      then skip
      else if leb (length r.new_styles) mapped || not (mapped == expected)
      then none
      else elim (get_elem? seen mapped) [
        | some false ↦
            if same_style (get_elem? old old_id) (get_elem? r.new_styles mapped) then next else none
        | _ ↦ none
      ]

  abbrev pub any_unseen : List Bool → Bool
  any_unseen [] = false
  any_unseen (b ∷ bs) = not b || any_unseen bs

  abbrev pub complete : ℕ → Option (ℕ × List Bool) → Bool
  complete n none = false
  complete n (some (expected, seen)) = if expected == n then not (any_unseen seen) else false

  -- Whether `validate_for` gives `Ok`; its one error is `style_compaction_corrupt`.
  unfoldable pub validate_for : StyleRemap S → List S → Bool
  unfolding check_entries
  validate_for r old =
      if not (r.old_len == length old)
        || not (length r.old_to_new == r.old_len)
        || (length r.new_styles == 0)
        || ltb 65536 (length r.new_styles)
        || not (starts_default E default r.new_styles)
        || not (first_is_zero r.old_to_new)
      then false
      else complete (length r.new_styles)
          (check_entries r old r.old_to_new 0 0 (replicate (length r.new_styles) false))

  -- `stage_remapped` with what `from_exact` gives; `none` is its panic.
  abbrev pub staged : ℕ → Option (Result (StyleTable S)) → Option (Result (StyleTable S))
  staged epoch none = none
  staged epoch (some (err e)) = some (err e)
  staged epoch (some (ok t)) = some (ok (record t { epoch = add_u64 epoch 1 }))

  unfoldable pub stage_remapped : StyleTable S → StyleRemap S → Option (Result (StyleTable S))
  unfolding validate_for from_exact
  stage_remapped t r =
      if validate_for r t.styles
      then staged t.epoch (from_exact E default r.new_styles)
      else some (err style_compaction_corrupt)
