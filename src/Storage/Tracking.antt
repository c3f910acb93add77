-- ===== src/Storage/Tracking.antt =====
-- Steps of the scrollback of crates/mr-crabs-terminal/src/storage.rs that change no line.
use mr_crabs.Common.{
  ℕ, ◌≡◌, refl, ap, ap₂, sym, subst, ◌∙◌, false, some, List, [], ◌∷◌, ◌++◌, map, length, get_elem?,
  set_elem, contains, Distinct, contains-append, append_assoc, arith,
}
use mr_crabs.Storage.{Job, Page, ScrollbackStorage}
use mr_crabs.Storage.Codec.{Lz4}
use mr_crabs.Storage.Pages.{Flight, job_flight, done_flight, held, AllStored, view, flights, lines}
use mr_crabs.Storage.Booking.{
  IsTracked, Replaces, AllBelow, AllFree, booked, booked-append, ids, view-replace, ids-replace,
  AllFree-replace,
}

pub map-append {ℓ κ} :
    {A : Type ℓ} {B : Type κ} (f : A → B) (xs ys : List A) → map f (xs ++ ys) ≡ map f xs ++ map f ys
map-append f [] ys = refl
map-append f (x ∷ xs) ys = ap (λ zs. f x ∷ zs) (map-append f xs ys)

pub flights-push :
    (s : ScrollbackStorage) (j : Job)
    → flights (record s { jobs = s.jobs ++ (j ∷ []) }) ≡ flights s ++ (job_flight j ∷ [])
flights-push s j =
    ap (λ xs. map done_flight s.completions ++ (held s.in_hand ++ xs))
      (map-append job_flight s.jobs (j ∷ []))
    ∙ ap (λ xs. map done_flight s.completions ++ xs)
        (sym (append_assoc (held s.in_hand) (map job_flight s.jobs) (job_flight j ∷ [])))
    ∙ sym (
        append_assoc (map done_flight s.completions) (held s.in_hand ++ map job_flight s.jobs)
          (job_flight j ∷ []))

pub AllBelow-append :
    (n : ℕ) (xs ys : List ℕ) → AllBelow n xs → AllBelow n ys → AllBelow n (xs ++ ys)
AllBelow-append n [] ys a b = b
AllBelow-append n (x ∷ xs) ys a b = (a.0, AllBelow-append n xs ys a.1 b)

pub Distinct-last :
    (n : ℕ) (xs : List ℕ) → contains xs n ≡ false → Distinct xs → Distinct (xs ++ (n ∷ []))
Distinct-last n [] h d = (refl, tt)
Distinct-last n (x ∷ xs) h d = (
  ground (arith, h, d.0, contains-append x xs (n ∷ [])),
  Distinct-last n xs (ground (arith, h)) d.1,
)

module _ (lz4 : Lz4) where
  -- A step that changes no line.
  pub record Tracks (s s' : ScrollbackStorage) : Type 0 where
    pub tracked : IsTracked lz4 s'
    pub same_lines : lines lz4 s' ≡ lines lz4 s
    pub same_count : s'.logical_lines ≡ s.logical_lines
    pub same_next : s'.next_page_id ≡ s.next_page_id
    pub same_config : s'.config ≡ s.config

  pub stays : (s : ScrollbackStorage) → IsTracked lz4 s → Tracks s s
  stays s v = record {
    tracked = v;
    same_lines = refl;
    same_count = refl;
    same_next = refl;
    same_config = refl;
  }

  -- A page put in the place of another, with what was put into the queue for it.
  pub replace :
      (s s' : ScrollbackStorage) (i : ℕ) (gs : List Flight) (p p' : Page)
      → IsTracked lz4 s
      → get_elem? s.history i ≡ some p
      → Replaces lz4 (flights s) gs p p'
      → AllBelow s.next_page_id (booked gs)
      → Distinct (booked (flights s ++ gs))
      → s'.history ≡ set_elem i p' s.history
      → flights s' ≡ flights s ++ gs
      → s'.logical_lines ≡ s.logical_lines
      → s'.next_page_id ≡ s.next_page_id
      → s'.config ≡ s.config
      → Tracks s s'
  replace s s' i gs p p' v e r low once eh ef ec en eg =
      let (same, kept) = view-replace lz4 (flights s) gs p p' r i s.history e v.sound.stored in
      let same' : lines lz4 s' ≡ lines lz4 s = ap₂ (λ fs ps. view lz4 fs ps) ef eh ∙ same in
      let same_ids : ids s'.history ≡ ids s.history =
        ap ids eh ∙ ids-replace lz4 (flights s) gs p p' r i s.history e in
      record {
        tracked = record {
          sound = record {
            stored =
                subst (λ fs. AllStored lz4 fs s'.history) (sym ef)
                  (subst (λ ps. AllStored lz4 (flights s ++ gs) ps) (sym eh) kept);
            counted = ec ∙ v.sound.counted ∙ ap length (sym same');
          };
          distinct = subst Distinct (sym same_ids) v.distinct;
          free =
              subst (λ fs. AllFree fs s'.history) (sym ef)
                (subst (λ ps. AllFree (flights s ++ gs) ps) (sym eh)
                  (AllFree-replace lz4 (flights s) gs p p' r i s.history e v.distinct v.free));
          below =
              subst (λ n. AllBelow n (ids s'.history)) (sym en)
                (subst (λ js. AllBelow s.next_page_id js) (sym same_ids) v.below);
          booked_once = subst (λ fs. Distinct (booked fs)) (sym ef) once;
          booked_below =
              subst (λ n. AllBelow n (booked (flights s'))) (sym en)
                (subst (λ js. AllBelow s.next_page_id js)
                  (sym (ap booked ef ∙ booked-append (flights s) gs))
                  (AllBelow-append s.next_page_id _ _ v.booked_below low));
        };
        same_lines = same';
        same_count = ec;
        same_next = en;
        same_config = eg;
      }

  pub Tracks-trans : (s t u : ScrollbackStorage) → Tracks s t → Tracks t u → Tracks s u
  Tracks-trans s t u a b = record {
    tracked = b.tracked;
    same_lines = b.same_lines ∙ a.same_lines;
    same_count = b.same_count ∙ a.same_count;
    same_next = b.same_next ∙ a.same_next;
    same_config = b.same_config ∙ a.same_config;
  }
