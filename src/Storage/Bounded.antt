-- ===== src/Storage/Bounded.antt =====
-- The limit on the lines: `trim_front_page` and `enforce_max_lines` of
-- crates/mr-crabs-terminal/src/storage.rs drop lines from the front.
use mr_crabs.Common.{
  ℕ, suc, ◌+◌, ◌-◌, ◌≤◌, ◌<◌, ◌≡◌, ◌⊎◌, inl, inr, ap, sym, subst, ◌∙◌, true, false, List, [], ◌∷◌,
  ◌++◌, drop, length, length-append, ltb, leb, ltb→lt, leb→le, Bool-cases, min, arith,
}
use mr_crabs.Persist.Bytes.{drop-append}
use mr_crabs.Storage.{Page, ScrollbackStorage}
use mr_crabs.Storage.Codec.{Lz4}
use mr_crabs.Storage.Limit.{trim_page, trim_front_page, enforce_pages, enforce_max_lines, Enforced}
use mr_crabs.Storage.Pages.{
  Flight, IsSettled, AllStored, is_away, rows_of, settled, content, view, flights, IsStorage, lines,
}
use mr_crabs.Storage.Trimming.{trim_page-Trims, trim_page-away, length-content, settled_here}
use mr_crabs.Storage.Rows.{length-drop, drop-drop, drop-append_le}

drop-append_more {ℓ} :
    {A : Type ℓ} (xs ys : List A) (n : ℕ) → drop (length xs + n) (xs ++ ys) ≡ drop n ys
drop-append_more xs ys n =
    sym (drop-drop n (length xs) (xs ++ ys)) ∙ ap (λ zs. drop n zs) (drop-append xs ys)

sub_self : (n : ℕ) → n - n ≡ 0
sub_self n = omega arith

module _ (lz4 : Lz4) where
  -- The front page waits for the worker.
  abbrev pub IsBlocked : List Page → Type 0
  IsBlocked [] = ⊥
  IsBlocked (p ∷ ps) = is_away p ≡ true

  -- The limit is kept by dropping the oldest lines, and no more of them than it takes; only a front
  -- page on its way through the worker can put that off.
  pub record Enforces (fs : List Flight) (limit : ℕ) (ps : List Page) (count : ℕ) (e : Enforced)
      : Type 0 where
    pub kept : view lz4 fs e.pages ≡ drop (count - e.count) (view lz4 fs ps)
    pub stored : AllStored lz4 fs e.pages
    pub counted : e.count ≡ length (view lz4 fs e.pages)
    pub bounded :
        (e.count ≡ min limit count) ⊎ (IsBlocked e.pages × (limit < e.count) × (e.count ≤ count))

  stay :
      (fs : List Flight) (limit : ℕ) (ps : List Page) (count : ℕ)
      → AllStored lz4 fs ps
      → count ≡ length (view lz4 fs ps)
      → (count ≡ min limit count) ⊎ (IsBlocked ps × (limit < count) × (count ≤ count))
      → Enforces fs limit ps count
          (record { pages = ps; count = count; popped = 0; trimmed = false })
  stay fs limit ps count v c h = record {
    kept = ap (λ n. drop n (view lz4 fs ps)) (sym (sub_self count));
    stored = v;
    counted = c;
    bounded = h;
  }

  pop :
      (fs : List Flight) (limit : ℕ) (p : Page) (ps : List Page) (count : ℕ) (e : Enforced)
      → IsSettled lz4 (settled lz4 fs p)
      → count ≡ length (view lz4 fs (p ∷ ps))
      → limit < count
      → p.lines ≤ count - limit
      → Enforces fs limit ps (count - p.lines) e
      → Enforces fs limit (p ∷ ps) count (record e { popped = suc e.popped })
  pop fs limit p ps count e v c over le r =
      let fewer : e.count ≤ count - p.lines = ground (arith, r.bounded) in
      let long = length-content lz4 fs p v in
      let n = count - p.lines - e.count in
      let sum : count - e.count ≡ length (content lz4 fs p) + n = omega (arith, long, fewer, le) in
      record {
        kept =
            r.kept
            ∙ sym (
                ap (λ m. drop m (content lz4 fs p ++ view lz4 fs ps)) sum
                ∙ drop-append_more (content lz4 fs p) (view lz4 fs ps) n);
        stored = r.stored;
        counted = r.counted;
        bounded = ground (arith, r.bounded, over, le);
      }

  cut :
      (fs : List Flight) (limit : ℕ) (p : Page) (ps : List Page) (count : ℕ)
      → AllStored lz4 fs (p ∷ ps)
      → count ≡ length (view lz4 fs (p ∷ ps))
      → limit < count
      → count - limit < p.lines
      → Enforces fs limit
          (p ∷ ps)
          count
          (trim_front_page lz4 count (count - limit) p ps (trim_page lz4 (count - limit) p))
  cut fs limit p ps count v c over lt = elim (Bool-cases (is_away p)) [
    | inl away ↦
        rw (trim_page-away lz4 (count - limit) p away)
          (stay fs limit (p ∷ ps) count v c (inr (away, over, omega arith)))
    | inr hand ↦
        let long = length-content lz4 fs p v.0 in
        let here = settled_here lz4 fs p hand in
        let (p', e, (v', hand', named, count', same)) =
          trim_page-Trims lz4 (count - limit) p (omega (arith, over)) lt
            (subst (IsSettled lz4) here v.0) in
        let here' = settled_here lz4 fs p' hand' in
        let kept : content lz4 fs p' ++ view lz4 fs ps
            ≡ drop (count - limit) (content lz4 fs p ++ view lz4 fs ps) =
          ap (λ o. rows_of lz4 o ++ view lz4 fs ps) here'
          ∙ ap (λ xs. xs ++ view lz4 fs ps)
              (same ∙ ap (λ o. drop (count - limit) (rows_of lz4 o)) (sym here))
          ∙ sym (
              drop-append_le (count - limit) (content lz4 fs p) (view lz4 fs ps)
                (omega (arith, long, lt))) in
        rw e (record {
          kept = kept ∙ ap (λ m. drop m (view lz4 fs (p ∷ ps))) (omega (arith, over));
          stored = (subst (IsSettled lz4) (sym here') v', v.1);
          counted = omega (
            arith,
            ap length kept,
            length-drop (count - limit) (content lz4 fs p ++ view lz4 fs ps),
            c,
            over,
          );
          bounded = inl (omega (arith, over));
        })
  ]

  pub enforce_pages-Enforces :
      (fs : List Flight) (limit : ℕ) (ps : List Page) (count : ℕ)
      → AllStored lz4 fs ps
      → count ≡ length (view lz4 fs ps)
      → Enforces fs limit ps count (enforce_pages lz4 limit ps count)
  unfolding enforce_pages
  enforce_pages-Enforces fs limit [] count v c = stay fs limit [] count v c (inl (omega (arith, c)))
  enforce_pages-Enforces fs limit (p ∷ ps) count v c =
      let long = length-content lz4 fs p v.0 in
      let rest : count - p.lines ≡ length (view lz4 fs ps) =
        omega (arith, c, long, length-append (content lz4 fs p) (view lz4 fs ps)) in
      elim (Bool-cases (ltb limit count)) [
        | inl over ↦ elim (Bool-cases (leb p.lines (count - limit))) [
          | inl whole ↦
              rw (over, whole)
                (pop fs limit p ps count _ v.0 c (ltb→lt _ _ over) (leb→le _ _ whole)
                  (enforce_pages-Enforces fs limit ps (count - p.lines) v.1 rest))
          | inr part ↦
              rw (over, part) (cut fs limit p ps count v c (ltb→lt _ _ over) (ground (arith, part)))
        ]
        | inr under ↦ rw under (stay fs limit (p ∷ ps) count v c (inl (ground (arith, under))))
      ]

  -- The limit of a storage is kept by dropping its oldest lines, and only as many as it takes. Only
  -- a front page on its way through the worker can put that off.
  pub enforce_max_lines-IsStorage :
      (s : ScrollbackStorage)
      → IsStorage lz4 s
      → IsStorage lz4 (enforce_max_lines lz4 s)
        × (lines lz4 (enforce_max_lines lz4 s)
            ≡ drop (s.logical_lines - (enforce_max_lines lz4 s).logical_lines) (lines lz4 s))
        × (((enforce_max_lines lz4 s).logical_lines ≡ min s.config.max_lines s.logical_lines)
            ⊎ (IsBlocked (enforce_max_lines lz4 s).history
                × (s.config.max_lines < (enforce_max_lines lz4 s).logical_lines)
                × ((enforce_max_lines lz4 s).logical_lines ≤ s.logical_lines)))
  unfolding enforce_max_lines
  enforce_max_lines-IsStorage s v =
      let r =
        enforce_pages-Enforces (flights s) s.config.max_lines s.history s.logical_lines v.stored
          v.counted in
      (record { stored = r.stored; counted = r.counted }, r.kept, r.bounded)
