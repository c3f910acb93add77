-- ===== src/Storage/Truncation.antt =====
-- `truncate_lines` of crates/mr-crabs-terminal/src/storage.rs drops the newest lines.
use mr_crabs.Common.{
  ℕ, zero, suc, ◌+◌, ◌-◌, ◌≤◌, ◌<◌, ◌≡◌, refl, ap, ap₂, sym, subst, ◌∙◌, false, List, [], ◌∷◌, ◌++◌,
  take, length, length-append, leb, leb→le, ◌==◌, append-nil, inl, inr, Bool-cases, arith,
}
use mr_crabs.Grid.{Cell}
use mr_crabs.Storage.{Page, ScrollbackStorage}
use mr_crabs.Storage.Codec.{Lz4}
use mr_crabs.Storage.Limit.{Truncated, cut_back, cut_next, truncate_pages, truncate_lines}
use mr_crabs.Storage.Pages.{
  Flight, IsPage, IsSettled, AllStored, is_away, rows_of, settled, content, view, flights,
  IsStorage, lines,
}
use mr_crabs.Storage.Trimming.{settled_here, length-content}
use mr_crabs.Storage.Rows.{take_all, length-take, take-append_le}
use mr_crabs.Storage.Shortening.{restored-Keeps}

-- No page is on its way through the worker.
abbrev pub AllHere : List Page → Type 0
AllHere [] = Unit
AllHere (p ∷ ps) = (is_away p ≡ false) × AllHere ps

take-append_more {ℓ} :
    {A : Type ℓ} (xs ys : List A) (n : ℕ) → xs ++ take n ys ≡ take (length xs + n) (xs ++ ys)
take-append_more [] ys n = let e : n ≡ 0 + n = omega arith in ap (λ k. take k ys) e
take-append_more (x ∷ xs) ys n =
    let e : suc (length xs + n) ≡ suc (length xs) + n = omega arith in
    ap (λ zs. x ∷ zs) (take-append_more xs ys n) ∙ ap (λ k. take k (x ∷ (xs ++ ys))) e

take-nil : (n : ℕ) → [] ≡ take {A = List Cell} n []
take-nil zero = refl
take-nil (suc n) = refl

module _ (lz4 : Lz4) where
  -- A storage, of which `keep + n` lines are counted up to the page `ps` ends with, cut by `n`.
  record Cuts (fs : List Flight) (keep n : ℕ) (ps : List Page) (t : Truncated) : Type 0 where
    rows : view lz4 fs t.pages ≡ take (length (view lz4 fs ps) - n) (view lz4 fs ps)
    stored : AllStored lz4 fs t.pages
    over : t.left ≡ n - length (view lz4 fs ps)
    counts : t.count ≡ keep + t.left

  cut_back-Cuts :
      (fs : List Flight) (keep n : ℕ) (p : Page) (count : ℕ)
      → is_away p ≡ false
      → IsPage lz4 p
      → count ≡ keep + n
      → Cuts fs keep n (p ∷ []) (cut_back lz4 keep n p count)
  unfolding cut_back
  cut_back-Cuts fs keep n p count hand v c =
      let here = settled_here lz4 fs p hand in
      let xs = content lz4 fs p in
      let long : length xs ≡ p.lines =
        length-content lz4 fs p (subst (IsSettled lz4) (sym here) v) in
      let long' : length (xs ++ []) ≡ p.lines = ap length (append-nil xs) ∙ long in
      elim (Bool-cases (leb p.lines n)) [
        | inl whole ↦
            let le = leb→le _ _ whole in
            let nothing : 0 ≡ length (xs ++ []) - n = omega (arith, long', le) in
            rw whole (record {
              rows = ap (λ m. take m (xs ++ [])) nothing;
              stored = tt;
              over = omega (arith, long');
              counts = omega (arith, c, le);
            })
        | inr part ↦
            let le : n ≤ p.lines = ground (arith, part) in
            let (p', e, page, hand', kept) = restored-Keeps lz4 n p v le in
            let here' = settled_here lz4 fs p' hand' in
            let same : content lz4 fs p' ≡ take (length xs - n) xs =
              ap (λ o. rows_of lz4 o) here'
              ∙ kept
              ∙ ap₂ (λ m ls. take (m - n) ls) (sym long) (sym (ap (λ o. rows_of lz4 o) here)) in
            rw (part, e)
              (record {
                rows =
                    append-nil _ ∙ same ∙ ap (λ ls. take (length ls - n) ls) (sym (append-nil xs));
                stored = (subst (IsSettled lz4) (sym here') page, tt);
                over = omega (arith, long', le);
                counts = omega arith;
              })
      ]

  cut_next-Cuts :
      (fs : List Flight) (keep n : ℕ) (p : Page) (ps : List Page) (t : Truncated)
      → is_away p ≡ false
      → IsSettled lz4 (settled lz4 fs p)
      → Cuts fs keep n ps t
      → Cuts fs keep n (p ∷ ps) (cut_next lz4 keep p t)
  cut_next-Cuts fs keep n p ps t hand v r =
      let xs = content lz4 fs p in
      let ys = view lz4 fs ps in
      let both = length-append xs ys in
      elim (Bool-cases (t.left == 0)) [
        | inl done ↦
            let inside : n ≤ length ys = ground (arith, done, r.over) in
            let sum : length xs + (length ys - n) ≡ length (xs ++ ys) - n =
              omega (arith, both, inside) in
            rw done (record {
              rows =
                  ap (λ ls. xs ++ ls) r.rows
                  ∙ take-append_more xs ys (length ys - n)
                  ∙ ap (λ m. take m (xs ++ ys)) sum;
              stored = (v, r.stored);
              over = ground (arith, done, both, inside);
              counts = r.counts;
            })
        | inr more ↦
            let b =
              cut_back-Cuts fs keep t.left p t.count hand
                (subst (IsSettled lz4) (settled_here lz4 fs p hand) v) r.counts in
            let beyond : length ys < n = ground (arith, more, r.over) in
            let m : length (xs ++ ys) - n ≡ length xs - t.left =
              omega (arith, both, r.over, beyond) in
            let rest : take (length xs - t.left) (xs ++ ys) ≡ take (length xs - t.left) xs =
              take-append_le (length xs - t.left) xs ys (omega arith) in
            rw more (record {
              rows =
                  b.rows
                  ∙ ap (λ ls. take (length ls - t.left) ls) (append-nil xs)
                  ∙ sym (ap (λ k. take k (xs ++ ys)) m ∙ rest);
              stored = b.stored;
              over = omega (arith, b.over, ap length (append-nil xs), both, r.over, beyond);
              counts = b.counts;
            })
      ]

  truncate_pages-Cuts :
      (fs : List Flight) (keep n : ℕ) (ps : List Page) (count : ℕ)
      → AllHere ps
      → AllStored lz4 fs ps
      → count ≡ keep + n
      → Cuts fs keep n ps (truncate_pages lz4 keep n ps count)
  unfolding truncate_pages
  truncate_pages-Cuts fs keep n [] count h v c = record {
    rows = take-nil (0 - n);
    stored = tt;
    over = omega arith;
    counts = c;
  }
  truncate_pages-Cuts fs keep n (p ∷ ps) count h v c =
      cut_next-Cuts fs keep n p ps (truncate_pages lz4 keep n ps count) h.0 v.0
        (truncate_pages-Cuts fs keep n ps count h.1 v.1 c)

  -- In a storage that has lost no line and has no page on its way through the worker, the first lines
  -- stay, as many as are to be kept, and only those.
  pub truncate_lines-take :
      (keep : ℕ) (s : ScrollbackStorage)
      → IsStorage lz4 s
      → AllHere s.history
      → let s' = truncate_lines lz4 keep s in
        IsStorage lz4 s' × (lines lz4 s' ≡ take keep (lines lz4 s))
  unfolding truncate_lines
  truncate_lines-take keep s v h = elim (Bool-cases (leb s.logical_lines keep)) [
    | inl enough ↦ rw enough (
      record { stored = v.stored; counted = v.counted },
      sym (take_all keep (lines lz4 s) (omega (arith, v.counted, leb→le _ _ enough))),
    )
    | inr fewer ↦
        let n = s.logical_lines - keep in
        let r : Cuts (flights s) keep n s.history
            (truncate_pages lz4 keep n s.history s.logical_lines) =
          truncate_pages-Cuts (flights s) keep n s.history s.logical_lines h v.stored
            (ground (arith, fewer)) in
        let t = truncate_pages lz4 keep n s.history s.logical_lines in
        let kept : length (lines lz4 s) - n ≡ keep = ground (arith, fewer, v.counted) in
        let rows : view lz4 (flights s) t.pages ≡ take keep (lines lz4 s) =
          r.rows ∙ ap (λ m. take m (lines lz4 s)) kept in
        let fits : keep ≤ length (lines lz4 s) = omega (arith, kept) in
        rw fewer (
          record {
            stored = r.stored;
            counted = omega (
              arith,
              r.counts,
              r.over,
              v.counted,
              ap length rows,
              length-take keep (lines lz4 s) fits,
            );
          },
          rows,
        )
  ]
