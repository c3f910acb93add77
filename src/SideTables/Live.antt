-- ===== src/SideTables/Live.antt =====
-- Where the compaction of the styles sends the live ids: `StyleRemap::new` and `map` of
-- crates/mr-crabs-terminal/src/side_tables.rs.
use mr_crabs.Common.{
  ℕ, zero, suc, ◌≤◌, ◌<◌, ◌≡◌, refl, sym, ap, subst, ◌∙◌, ◌⊎◌, inl, inr, Bool, true, false, Option,
  none, some, List, [], ◌∷◌, ◌++◌, if◌then◌else◌, leb, leb→le, ◌==◌, length, get_elem?, contains,
  Distinct, replicate, set_elem, get_elem?-last, get_elem?-append, length-set_elem,
  get_elem?-set_elem_self, get_elem?-set_elem_other, get_elem?-range, length-replicate, ==_iff,
  Bool-cases, arith, append_assoc, append-nil,
}
use mr_crabs.SideTables.Index.{Equality}
use mr_crabs.SideTables.Styles.{Result, ok, err, style_compaction_corrupt, starts_default}
use mr_crabs.SideTables.Remap.{
  u16_max, StyleRemap, assign_id, assign_ids, mapped_id, map_id, checked, remap_new,
}

abbrev value_or : {B : Type 0} → B → Result B → B
value_or b (ok c) = c
value_or b (err e) = b

ok_injective : {B : Type 0} {b c : B} → ok b ≡ ok c → b ≡ c
ok_injective {b = b} h = ap (value_or b) h

kept :
    {B : Type 0} (test : Bool) (b c : B)
    → (if test then ok b else err style_compaction_corrupt) ≡ ok c
    → b ≡ c
kept true b c h = ok_injective h
kept false b c h = cc

mapped_id_small : (n : ℕ) → n < u16_max → mapped_id (some n) ≡ ok n
mapped_id_small n h = ground (arith, h)

unguarded :
    {B : Type 0} (test : Bool) (x : Result B) (b : B)
    → (if test then err style_compaction_corrupt else x) ≡ ok b
    → x ≡ ok b
unguarded true x b h = cc
unguarded false x b h = h

mapped_id-replicate :
    (n id : ℕ) → mapped_id (get_elem? (replicate n u16_max) id) ≡ err style_compaction_corrupt
mapped_id-replicate zero id = refl
mapped_id-replicate (suc n) zero = refl
mapped_id-replicate (suc n) (suc id) = mapped_id-replicate n id

module _ {S : Type 0} where
  -- A round that does not fail has a style and a number in range.
  assign_id_ok :
      {B : Type 0} (o : Option S) (n : ℕ) (rest : S → Result B) (b : B)
      → assign_id o n rest ≡ ok b
      → (style : S) × (o ≡ some style) × (n ≤ u16_max) × (rest style ≡ ok b)
  assign_id_ok none n rest b h = cc
  assign_id_ok (some style) n rest b h = elim (Bool-cases (leb n u16_max)) [
    | inl room ↦ (style, refl, leb→le n u16_max room, ground (arith, h, room))
    | inr full ↦ ground (arith, h, full)
  ]

  -- What the loop has made of the live ids: the styles go on from the ones before, a live id is sent
  -- to a number with its style, and an entry of another id is as before.
  abbrev Assigns : List S → List ℕ → List ℕ → List S → List ℕ → List S → ℕ → Type 0
  Assigns old ids o ns o' ns' id =
      ((contains ids id ≡ true)
        × ((n : ℕ) × (style : S) × (get_elem? o' id ≡ some n)
            × (get_elem? ns' n ≡ some style)
            × (get_elem? old id ≡ some style)))
      ⊎ ((contains ids id ≡ false) × (get_elem? o' id ≡ get_elem? o id))

  assign_ids-extends :
      (old : List S) (ids o : List ℕ) (ns : List S) (o' : List ℕ) (ns' : List S)
      → assign_ids old ids o ns ≡ ok (o', ns')
      → (added : List S) × (ns' ≡ ns ++ added)
  unfolding assign_ids
  assign_ids-extends old [] o ns o' ns' h =
      ([], ap (λ w. w.1) (sym (ok_injective h)) ∙ sym (append-nil ns))
  assign_ids-extends old (id ∷ ids) o ns o' ns' h =
      let (style, there, room, rest) = assign_id_ok (get_elem? old id) (length ns) _ (o', ns') h in
      let (added, e) =
        assign_ids-extends old ids (set_elem id (length ns) o) (ns ++ (style ∷ [])) o' ns' rest in
      (style ∷ added, e ∙ append_assoc ns (style ∷ []) added)

  assign_ids-Assigns :
      (old : List S) (ids o : List ℕ) (ns : List S) (o' : List ℕ) (ns' : List S) (id : ℕ)
      → Distinct ids
      → length old ≤ length o
      → assign_ids old ids o ns ≡ ok (o', ns')
      → Assigns old ids o ns o' ns' id
  unfolding assign_ids
  assign_ids-Assigns old [] o ns o' ns' id d l h =
      inr (refl, ap (λ w. get_elem? w.0 id) (sym (ok_injective h)))
  assign_ids-Assigns old (i ∷ ids) o ns o' ns' id d l h =
      let (style, there, room, rest) = assign_id_ok (get_elem? old i) (length ns) _ (o', ns') h in
      let (added, e) =
        assign_ids-extends old ids (set_elem i (length ns) o) (ns ++ (style ∷ [])) o' ns' rest in
      elim (assign_ids-Assigns old ids (set_elem i (length ns) o) (ns ++ (style ∷ [])) o' ns' id d.1
        (omega (arith, length-set_elem i (length ns) o, l)) rest) [
          | inl (live, found) ↦ inl (ground (arith, live), found)
          | inr (dead, same) ↦ elim (Bool-cases (i == id)) [
            | inl this ↦ inl (
              ground (arith, this),
              (
                length ns,
                style,
                same
                    ∙ subst (λ j. get_elem? (set_elem i (length ns) o) j ≡ some (length ns))
                        ((==_iff i id).0 this)
                        (get_elem?-set_elem_self i (length ns) o
                          (omega (arith, get_elem?-range old i style there, l))),
                subst (λ xs. get_elem? xs (length ns) ≡ some style) (sym e)
                    (get_elem?-append (ns ++ (style ∷ [])) added (length ns) style
                      (get_elem?-last ns style)),
                subst (λ j. get_elem? old j ≡ some style) ((==_iff i id).0 this) there,
              ),
            )
            | inr other ↦ inr (
              ground (arith, dead, other),
              same ∙ get_elem?-set_elem_other i id (length ns) o other,
            )
          ]
        ]

  -- What a remapping makes of an id: a live one goes to a number with the same style.
  abbrev pub Sends : List S → List ℕ → StyleRemap S → ℕ → Type 0
  Sends old live r id =
      ((contains live id ≡ true)
        × ((n : ℕ) × (style : S) × (map_id r id ≡ ok n)
            × (get_elem? r.new_styles n ≡ some style)
            × (get_elem? old id ≡ some style)))
      ⊎ ((contains live id ≡ false) × (map_id r id ≡ err style_compaction_corrupt))

module _ {S : Type 0} (E : Equality S) (default : S) where
  checked_ok :
      (n : ℕ) (x : Result (List ℕ × List S)) (r : StyleRemap S)
      → checked E default n x ≡ ok r
      → x ≡ ok (r.old_to_new, r.new_styles)
  checked_ok n (err e) r h = cc
  checked_ok n (ok (o, ns)) r h =
      ap (λ q. ok (q.old_to_new, q.new_styles)) (kept (starts_default E default ns) _ r h)

  -- A remapping that `new` makes from distinct live ids, with at most 65535 new styles, sends each
  -- live id to a number at which the new styles have the style that the old ones have at the id, and
  -- refuses every other id.
  pub remap_new-Sends :
      (old : List S) (live : List ℕ) (r : StyleRemap S) (id : ℕ)
      → Distinct live
      → remap_new E default old live ≡ ok r
      → length r.new_styles ≤ u16_max
      → Sends old live r id
  unfolding remap_new map_id
  remap_new-Sends old live r id d h few =
      elim (assign_ids-Assigns old live (replicate (length old) u16_max) [] r.old_to_new
        r.new_styles id d (omega (arith, length-replicate (length old) u16_max))
        (checked_ok (length old) _ r (unguarded _ _ r h))) [
          | inl (there, (n, style, at, new, was)) ↦ inl (
            there,
            (
              n,
              style,
              ap mapped_id at
                  ∙ mapped_id_small n
                      (omega (arith, get_elem?-range r.new_styles n style new, few)),
              new,
              was,
            ),
          )
          | inr (dead, same) ↦ inr (dead, ap mapped_id same ∙ mapped_id-replicate (length old) id)
        ]
