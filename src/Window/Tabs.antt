-- ===== src/Window/Tabs.antt =====
-- Closing tabs and turning through them: `close_tab` and `cycle_tab` of
-- crates/mr-crabs-app/src/model/window.rs.
use mr_crabs.Common.{
  ℕ, ◌≡◌, refl, sym, ap, ◌∙◌, ◌⊎◌, ◌≢◌, inl, inr, true, false, none, some, List, [], ◌∷◌,
  if◌then◌else◌, ◌==◌, Bool-cases, Option-cases, contains, Distinct, Distinct-of_Rising, keys,
  lookup, remove_key, IsOrdered, arith, remove_key-IsOrdered, contains-keys-remove_key,
}
use mr_crabs.Tab.{TabModel, close_all}
use mr_crabs.Window.{WindowModel, closed, last_tab_closed, is_empty, drop_tab, close_at, close_tab}
use mr_crabs.Window.Invariant.{remove_key-AreEntries, IsValid}
use mr_crabs.Window.Order.{
  without, heir, contains-heir, heir-none, none_contained, contains-without, without-Distinct,
}

module _ {ℓ} {V : Type ℓ} where
  lookup_of_not_contains :
      (k : ℕ) (m : List (ℕ × V)) → contains (keys m) k ≡ false → lookup k m ≡ none
  lookup_of_not_contains k [] h = refl
  lookup_of_not_contains k ((j, v) ∷ m) h = ground (arith, lookup_of_not_contains k m)

  lookup-remove_key :
      (k b : ℕ) (m : List (ℕ × V))
      → Distinct (keys m)
      → lookup b (remove_key k m) ≡ (if k == b then none else lookup b m)
  lookup-remove_key k b [] o = ground arith
  lookup-remove_key k b ((j, v) ∷ m) o =
      ground (arith, lookup-remove_key k b m o.1, lookup_of_not_contains b m, o.0)

  contains-keys_of_none :
      (k : ℕ) (m : List (ℕ × V)) → lookup k m ≡ none → contains (keys m) k ≡ false
  contains-keys_of_none k [] h = refl
  contains-keys_of_none k ((j, v) ∷ m) h = ground (arith, contains-keys_of_none k m)

  -- If the map without `a` is empty, it has no other key.
  alone :
      (a b : ℕ) (m : List (ℕ × V))
      → b ≢ a
      → IsOrdered m
      → remove_key a m ≡ []
      → contains (keys m) b ≡ false
  alone a b m other o empty =
      let gone = contains-keys-remove_key b a m o in
      let nothing = ap (λ n. contains (keys n) b) empty in ground (arith, gone, nothing, other)

  is_empty-eq : (m : List (ℕ × V)) → is_empty m ≡ true → m ≡ []
  is_empty-eq [] h = refl
  is_empty-eq (e ∷ m) h = cc

module _ {F S G : Type 0} where
  -- After the loss of the tab, the order has the keys that are left.
  order-keys :
      (w : WindowModel F S G) (a x : ℕ)
      → IsValid w
      → contains (without a w.tab_order) x ≡ contains (keys (remove_key a w.tabs)) x
  order-keys w a x v =
      rw (contains-without a x w.tab_order, contains-keys-remove_key x a w.tabs v.ordered, v.same x)
        refl

  order_empty :
      (w : WindowModel F S G) (a : ℕ)
      → IsValid w
      → remove_key a w.tabs ≡ []
      → without a w.tab_order ≡ []
  order_empty w a v empty =
      none_contained (without a w.tab_order)
        (λ x. order-keys w a x v ∙ ap (λ m. contains (keys m) x) empty)

  pub drop_tab-IsValid :
      (w : WindowModel F S G) (a : ℕ) (t : TabModel F S) → IsValid w → IsValid (drop_tab w a t).0
  drop_tab-IsValid w a t v = elim (Bool-cases (is_empty (remove_key a w.tabs))) [
    | inl gone ↦ rw gone (record {
      ordered = remove_key-IsOrdered a w.tabs v.ordered;
      entries = remove_key-AreEntries a w.tabs v.entries;
      distinct = without-Distinct a w.tab_order v.distinct;
      same = λ x. order-keys w a x v;
      active = λ x e. cc;
      awake = λ _. order_empty w a v (is_empty-eq (remove_key a w.tabs) gone);
    })
    | inr left ↦ rw left (record {
      ordered = remove_key-IsOrdered a w.tabs v.ordered;
      entries = remove_key-AreEntries a w.tabs v.entries;
      distinct = without-Distinct a w.tab_order v.distinct;
      same = λ x. order-keys w a x v;
      active = λ x e.
          sym (order-keys w a x v)
          ∙ contains-heir w.active_tab a w.tab_order x (λ b h. v.same b ∙ v.active b h) e;
      awake = λ e. heir-none w.active_tab a w.tab_order v.awake e;
    })
  ]

  -- The tab was not the only one: it is gone, the others are as before, and if it was active, the
  -- last of the others is.
  pub record IsRemoved (w : WindowModel F S G) (a : ℕ) (w' : WindowModel F S G) : Type 0 where
    pub others : (b : ℕ) → lookup b w'.tabs ≡ (if a == b then none else lookup b w.tabs)
    pub order : w'.tab_order ≡ without a w.tab_order
    pub active : w'.active_tab ≡ heir w.active_tab a w.tab_order
    pub valid : IsValid w'

  -- Closing a tab of a valid window comes to one of three ends. No tab has the identity: the window
  -- is as before, and the outcome is that of the last tab. The tab is the only one: its sessions are
  -- shut down, and the window is left without tabs. There are others: the sessions are shut down,
  -- the tab is gone, the others are untouched, and the active tab stays or is the last one left.
  pub close_tab-Closes :
      (shutdown : S → S) (w : WindowModel F S G) (a : ℕ)
      → IsValid w
      → ((contains (keys w.tabs) a ≡ false) × (close_tab shutdown w a ≡ (w, last_tab_closed, none)))
        ⊎ ((t : TabModel F S) × (w' : WindowModel F S G) × (lookup a w.tabs ≡ some t)
            × (((close_tab shutdown w a ≡ (w', last_tab_closed, some (close_all shutdown t)))
                  × ((b : ℕ) → b ≢ a → contains (keys w.tabs) b ≡ false)
                  × (w'.tabs ≡ [])
                  × (w'.tab_order ≡ [])
                  × (w'.active_tab ≡ none))
                ⊎ ((close_tab shutdown w a ≡ (w', closed a, some (close_all shutdown t)))
                    × IsRemoved w a w')))
  unfolding close_tab
  close_tab-Closes shutdown w a v = elim (Option-cases (lookup a w.tabs)) [
    | inl absent ↦ inl (contains-keys_of_none a w.tabs absent, ap (close_at shutdown w a) absent)
    | inr (t, here) ↦
        let u = close_all shutdown t in
        elim (Bool-cases (is_empty (remove_key a w.tabs))) [
          | inl gone ↦
              let empty = is_empty-eq (remove_key a w.tabs) gone in
              inr (
                t,
                (drop_tab w a u).0,
                here,
                inl (
                  ap (close_at shutdown w a) here ∙ rw gone refl,
                  λ b other. alone a b w.tabs other v.ordered empty,
                  rw gone empty,
                  rw gone (order_empty w a v empty),
                  rw gone refl,
                ),
              )
          | inr left ↦ inr (
            t,
            (drop_tab w a u).0,
            here,
            inr (
              ap (close_at shutdown w a) here ∙ rw left refl,
              record {
                others = λ b.
                    rw left
                      (lookup-remove_key a b w.tabs (Distinct-of_Rising (keys w.tabs) v.ordered));
                order = rw left refl;
                active = rw left refl;
                valid = drop_tab-IsValid w a u v;
              },
            ),
          )
        ]
  ]
