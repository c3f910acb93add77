-- ===== src/Apc/Slice.antt =====
-- A slice of bytes does what its bytes do one by one: `feed_slice` and `feed` of
-- crates/mr-crabs-protocols/src/apc.rs.
use mr_crabs.Common.{
  ℕ, zero, suc, ◌-◌, ◌≤◌, ◌<◌, ◌≡◌, refl, fun_ext, sym, ap, ◌∙◌, inl, inr, Bool, true, ◌||◌, ◌==◌,
  Option, none, some, List, [], ◌∷◌, ◌++◌, ◌>>=◌, if◌then◌else◌, ltb, leb, length, length-append,
  take, min, arith, append_assoc, append-nil, Bool-cases,
}
use mr_crabs.Apc.{
  State, Handler, inactive, ignore, identify, kitty, glyph, unknown, enter, feed, feed_slice,
}

-- The bytes one by one.
abbrev pub feed_all : Handler → List ℕ → Option Handler
feed_all h [] = some h
feed_all h (b ∷ bs) = feed h b >>= λ h'. feed_all h' bs

take_all : (n : ℕ) (xs : List ℕ) → length xs ≤ n → take n xs ≡ xs
take_all zero [] h = refl
take_all zero (x ∷ xs) h = absurd (omega (arith, h))
take_all (suc n) [] h = refl
take_all (suc n) (x ∷ xs) h = ap (x ∷◌) (take_all n xs (omega (arith, h)))

take_none : (n : ℕ) (xs : List ℕ) → n ≡ 0 → take n xs ≡ []
take_none zero xs h = refl
take_none (suc n) xs h = absurd (omega (arith, h))

take-nil : (n : ℕ) → take {A = ℕ} n [] ≡ []
take-nil zero = refl
take-nil (suc n) = refl

take_first : (n x : ℕ) (xs : List ℕ) → 0 < n → take n (x ∷ xs) ≡ x ∷ take (n - 1) xs
take_first zero x xs h = absurd (omega (arith, h))
take_first (suc n) x xs h = ap (λ k. x ∷ take k xs) (omega arith)

take-min : (n : ℕ) (xs : List ℕ) → take (min n (length xs)) xs ≡ take n xs
take-min zero xs = take_none (min 0 (length xs)) xs (omega arith)
take-min (suc n) [] = take_none (min (suc n) 0) [] (omega arith)
take-min (suc n) (x ∷ xs) = ap (λ k. take k (x ∷ xs)) both ∙ ap (x ∷◌) (take-min n xs)
  where
    both : min (suc n) (suc (length xs)) ≡ suc (min n (length xs))
    both = omega arith

module _ (h : Handler) where
  feed_all-ignore : (bs : List ℕ) → feed_all (enter h ignore) bs ≡ some (enter h ignore)
  unfolding feed
  feed_all-ignore [] = refl
  feed_all-ignore (b ∷ bs) = feed_all-ignore bs

  -- The states that keep a limited number of bytes and then ignore the rest.
  module _ (collect : List ℕ → ℕ → State)
      (step : (d : List ℕ) (m b : ℕ)
        → feed (enter h (collect d m)) b
          ≡ some (
              if leb m (length d)
              then enter h ignore
              else enter h (collect (d ++ (b ∷ [])) m))) where
    feed_all-collect :
        (d : List ℕ) (m : ℕ) (bs : List ℕ)
        → feed_all (enter h (collect d m)) bs
          ≡ some (
              if leb (length bs) (m - length d)
              then enter h (collect (d ++ bs) m)
              else enter h ignore)
    feed_all-collect d m [] = ground (arith, append-nil d)
    feed_all-collect d m (b ∷ bs) = elim (Bool-cases (leb m (length d))) [
      | inl full ↦ ground (arith, full, step d m b, feed_all-ignore bs)
      | inr room ↦ ground (
        arith,
        room,
        step d m b,
        feed_all-collect (d ++ (b ∷ [])) m bs,
        length-append d (b ∷ []),
        append_assoc d (b ∷ []) bs,
      )
    ]

  feed_all-unknown :
      (d : List ℕ) (m : ℕ) (cut : Bool) (bs : List ℕ)
      → feed_all (enter h (unknown d m cut)) bs
        ≡ some (
            enter h
              (unknown (d ++ take (m - length d) bs) m (cut || ltb (m - length d) (length bs))))
  unfolding feed
  feed_all-unknown d m cut [] = ground (arith, append-nil d, take-nil (m - length d))
  feed_all-unknown d m cut (b ∷ bs) = elim (Bool-cases (leb m (length d))) [
    | inl full ↦ ground (
      arith,
      full,
      feed_all-unknown d m true bs,
      take_none (m - length d) (b ∷ bs),
      take_none (m - length d) bs,
    )
    | inr room ↦ ground (
      arith,
      room,
      feed_all-unknown (d ++ (b ∷ [])) m cut bs,
      length-append d (b ∷ []),
      append_assoc d (b ∷ []) (take (m - length (d ++ (b ∷ []))) bs),
      take_first (m - length d) b bs,
    )
  ]

feed-kitty :
    (h : Handler) (d : List ℕ) (m b : ℕ)
    → feed (enter h (kitty d m)) b
      ≡ some (if leb m (length d) then enter h ignore else enter h (kitty (d ++ (b ∷ [])) m))
unfolding feed
feed-kitty h d m b = refl

feed-inactive : (h : Handler) (b : ℕ) → feed (enter h inactive) b ≡ none
unfolding feed
feed-inactive h b = refl

feed-glyph :
    (h : Handler) (d : List ℕ) (m b : ℕ)
    → feed (enter h (glyph d m)) b
      ≡ some (if leb m (length d) then enter h ignore else enter h (glyph (d ++ (b ∷ [])) m))
unfolding feed
feed-glyph h d m b = refl

-- What a slice does in a state that collects bytes is what its bytes do.
bulk-collect :
    (h : Handler) (collect : List ℕ → ℕ → State) (d : List ℕ) (m b : ℕ) (bs : List ℕ)
    → let n = min (m - length d) (length (b ∷ bs)) in
      (if (m - length d == 0) || ltb n (length (b ∷ bs))
        then enter h ignore
        else enter h (collect (d ++ take n (b ∷ bs)) m))
      ≡ (if leb (length (b ∷ bs)) (m - length d)
          then enter h (collect (d ++ (b ∷ bs)) m)
          else enter h ignore)
bulk-collect h collect d m b bs =
    ground (arith, take-min (m - length d) (b ∷ bs), take_all (m - length d) (b ∷ bs))

-- A slice leaves the handler in the state that its bytes, fed one by one, leave it in. It panics
-- where these do: on a slice with a byte before `start`.
pub feed_slice-feed_all :
    (s : State) (h : Handler) (bs : List ℕ) → feed_slice (enter h s) bs ≡ feed_all (enter h s) bs
unfolding feed_slice
feed_slice-feed_all s h [] = refl
feed_slice-feed_all inactive h (b ∷ bs) =
    sym (ap (λ o. o >>= (λ h'. feed_all h' bs)) (feed-inactive h b))
feed_slice-feed_all ignore h (b ∷ bs) = sym (feed_all-ignore h (b ∷ bs))
feed_slice-feed_all (identify buf) h (b ∷ bs) =
    ap (λ k. feed (enter h (identify buf)) b >>= k)
      (fun_ext (λ h'. feed_slice-feed_all h'.state h' bs))
feed_slice-feed_all (kitty d m) h (b ∷ bs) =
    ap some (bulk-collect h kitty d m b bs)
    ∙ sym (feed_all-collect h kitty (feed-kitty h) d m (b ∷ bs))
feed_slice-feed_all (glyph d m) h (b ∷ bs) =
    ap some (bulk-collect h glyph d m b bs)
    ∙ sym (feed_all-collect h glyph (feed-glyph h) d m (b ∷ bs))
feed_slice-feed_all (unknown d m cut) h (b ∷ bs) =
    ap (λ xs. some (enter h (unknown (d ++ xs) m (cut || ltb (m - length d) (length (b ∷ bs))))))
      (take-min (m - length d) (b ∷ bs))
    ∙ sym (feed_all-unknown h d m cut (b ∷ bs))
