-- ===== src/Storage/Snoc.antt =====
-- A page at the back of the history of crates/mr-crabs-terminal/src/storage.rs.
use mr_crabs.Common.{
  ℕ, ◌≤◌, ◌≡◌, refl, ap, ap₂, sym, ◌∙◌, true, false, not, ◌&&◌, Option, some, none, List, [], ◌∷◌,
  ◌++◌, contains, Distinct, contains-append, append_assoc, append-nil, arith,
}
use mr_crabs.Storage.{Resident, Page, is_some, is_segmented, unsnoc}
use mr_crabs.Storage.Codec.{Lz4}
use mr_crabs.Storage.Pages.{Flight, IsSettled, AllStored, is_away, settled, content, view}
use mr_crabs.Storage.Booking.{AllBelow, AllFree, booked, ids}

pub ids-append : (ps qs : List Page) → ids (ps ++ qs) ≡ ids ps ++ ids qs
ids-append [] qs = refl
ids-append (p ∷ ps) qs = ap (λ xs. p.id ∷ xs) (ids-append ps qs)

pub below_apart : (n : ℕ) (xs : List ℕ) → AllBelow n xs → contains xs n ≡ false
below_apart n [] h = refl
below_apart n (x ∷ xs) h = ground (arith, h.0, below_apart n xs h.1)

pub below_more : (n m : ℕ) (xs : List ℕ) → n ≤ m → AllBelow n xs → AllBelow m xs
below_more n m [] le h = tt
below_more n m (x ∷ xs) le h = (omega (arith, le, h.0), below_more n m xs le h.1)

pub Distinct-snoc : (n : ℕ) (xs : List ℕ) → AllBelow n xs → Distinct xs → Distinct (xs ++ (n ∷ []))
Distinct-snoc n [] b d = (refl, tt)
Distinct-snoc n (x ∷ xs) b d =
    (ground (arith, b.0, d.0, contains-append x xs (n ∷ [])), Distinct-snoc n xs b.1 d.1)

unsnoc-none {ℓ} : {A : Type ℓ} (xs : List A) → unsnoc xs ≡ none → xs ≡ []
unsnoc-none [] e = refl
unsnoc-none {A} (x ∷ xs) e = at (unsnoc xs) e
  where
    at :
        (o : Option (List A × A))
        → (elim o as (λ _. Option (List A × A)) [
          | none ↦ some ([], x)
          | some (f, b) ↦ some (x ∷ f, b)
        ])
          ≡ none
        → x ∷ xs ≡ []
    at none e = cc
    at (some (f, b)) e = cc

pub unsnoc-some {ℓ} :
    {A : Type ℓ} (xs front : List A) (back : A)
    → unsnoc xs ≡ some (front, back)
    → xs ≡ front ++ (back ∷ [])
unsnoc-some [] front back e = cc
unsnoc-some {A} (x ∷ xs) front back e = at (unsnoc xs) refl (unsnoc-some xs) e
  where
    at :
        (o : Option (List A × A))
        → unsnoc xs ≡ o
        → ((f : List A) (b : A) → unsnoc xs ≡ some (f, b) → xs ≡ f ++ (b ∷ []))
        → (elim o as (λ _. Option (List A × A)) [
          | none ↦ some ([], x)
          | some (f, b) ↦ some (x ∷ f, b)
        ])
          ≡ some (front, back)
        → x ∷ xs ≡ front ++ (back ∷ [])
    at none h again e =
        let here : [] ≡ front = cc in
        let last : x ≡ back = cc in
        ap (λ ys. x ∷ ys) (unsnoc-none xs h) ∙ ap₂ (λ ys y. ys ++ (y ∷ [])) here last
    at (some (f, b)) h again e =
        let here : x ∷ f ≡ front = cc in
        let last : b ≡ back = cc in
        ap (λ ys. x ∷ ys) (again f b h) ∙ ap₂ (λ ys y. ys ++ (y ∷ [])) here last

pub segmented_here : (p : Page) → is_segmented p.resident ≡ true → is_away p ≡ false
segmented_here p h = at p.resident h
  where
    at :
        (r : Option Resident)
        → is_segmented r ≡ true
        → (not (is_some r) && not (is_some p.compressed)) ≡ false
    at none e = cc
    at (some r) e = refl

module _ (lz4 : Lz4) where
  pub view-snoc :
      (fs : List Flight) (ps : List Page) (q : Page)
      → view lz4 fs (ps ++ (q ∷ [])) ≡ view lz4 fs ps ++ content lz4 fs q
  view-snoc fs [] q = append-nil _
  view-snoc fs (p ∷ ps) q =
      ap (λ xs. content lz4 fs p ++ xs) (view-snoc fs ps q)
      ∙ sym (append_assoc (content lz4 fs p) (view lz4 fs ps) (content lz4 fs q))

  module _ (fs : List Flight) where
    pub AllStored-snoc :
        (ps : List Page) (q : Page)
        → AllStored lz4 fs ps
        → IsSettled lz4 (settled lz4 fs q)
        → AllStored lz4 fs (ps ++ (q ∷ []))
    AllStored-snoc [] q v w = (w, tt)
    AllStored-snoc (p ∷ ps) q v w = (v.0, AllStored-snoc ps q v.1 w)

    pub AllStored-init :
        (ps : List Page) (q : Page)
        → AllStored lz4 fs (ps ++ (q ∷ []))
        → AllStored lz4 fs ps × IsSettled lz4 (settled lz4 fs q)
    AllStored-init [] q v = (tt, v.0)
    AllStored-init (p ∷ ps) q v = let (a, b) = AllStored-init ps q v.1 in ((v.0, a), b)

    pub AllFree-snoc :
        (ps : List Page) (q : Page)
        → AllFree fs ps
        → (is_away q ≡ false → contains (booked fs) q.id ≡ false)
        → AllFree fs (ps ++ (q ∷ []))
    AllFree-snoc [] q v w = (w, tt)
    AllFree-snoc (p ∷ ps) q v w = (v.0, AllFree-snoc ps q v.1 w)

    pub AllFree-init :
        (ps : List Page) (q : Page)
        → AllFree fs (ps ++ (q ∷ []))
        → AllFree fs ps × (is_away q ≡ false → contains (booked fs) q.id ≡ false)
    AllFree-init [] q v = (tt, v.0)
    AllFree-init (p ∷ ps) q v = let (a, b) = AllFree-init ps q v.1 in ((v.0, a), b)
