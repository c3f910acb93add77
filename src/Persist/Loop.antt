-- ===== src/Persist/Loop.antt =====
-- The loop over the chunks, written and read: crates/mr-crabs-history/src/persist.rs.
use mr_crabs.Common.{
  ℕ, suc, ◌+◌, ◌≤◌, ◌≡◌, refl, sym, ap, ap₂, subst, ◌∙◌, List, [], ◌∷◌, ◌++◌, length, length-append,
  append_assoc, append-nil, take, drop, arith,
}
use mr_crabs.Grid.{Cell}
use mr_crabs.Persist.Bytes.{ok, ◌>>=◌, ok-injective, bind-ok}
use mr_crabs.Persist.Format.{PersistConfig, Codec}
use mr_crabs.Persist.Encode.{encode_chunk, encode_chunks}
use mr_crabs.Persist.Decode.{decode_chunks}
use mr_crabs.Persist.Lines.{AreLines-length}
use mr_crabs.Persist.Chunks.{IsFaithful, chunk_bytes, decode_chunk-chunk_bytes, encode_chunk-eq-ok}
use mr_crabs.Persist.Cutting.{join, AreChunks, take-drop-append}

module _ {S : Type 0} (codec : Codec S) (laws : IsFaithful codec) (config : PersistConfig)
    (n : ℕ) where
  -- The bytes are read as the chunks, whatever stands before and behind them.
  abbrev pub Decodes : List ℕ → List (List (List Cell)) → List ℕ → Type 0
  Decodes ws css body =
      (cols : List ℕ) (lines : List (List Cell)) (rest : List ℕ)
      → length cols + length (join css) ≤ config.max_lines
      → decode_chunks codec config config.compress n (length css) cols lines (body ++ rest)
        ≡ ok (cols ++ ws, lines ++ join css, rest)

  pub encode_chunks-Decodes :
      (css : List (List (List Cell))) (ws encoded : List ℕ) {out : List ℕ}
      → AreChunks n ws css
      → encode_chunks codec config encoded ws css ≡ ok out
      → 17 + length encoded ≤ config.max_bytes
      → (body : List ℕ) × (out ≡ encoded ++ body)
        × (17 + length out ≤ config.max_bytes)
        × Decodes ws css body
  unfolding encode_chunks decode_chunks
  encode_chunks-Decodes [] ws encoded {out} a h room =
      let e = ok-injective h in
      (
        [],
        sym e ∙ sym (append-nil encoded),
        subst (λ o. 17 + length o ≤ config.max_bytes) e room,
        λ cols lines rest _. rw (a, append-nil cols, append-nil lines) refl,
      )
  encode_chunks-Decodes (c ∷ css) ws encoded {out} (some_line, few, a, more) h room =
      let k = length c in
      let (encoded', h0, h1) = bind-ok (encode_chunk codec config encoded (take k ws) c) _ h in
      let same = AreLines-length n (take k ws) c a in
      let (cells_fit, fits, room', e) =
        encode_chunk-eq-ok codec laws config encoded (take k ws) c same h0 in
      let (body, e', room'', reads) =
        encode_chunks-Decodes css (drop k ws) encoded' more h1 room' in
      let first = chunk_bytes codec config.compress (take k ws) c in
      (
        first ++ body,
        e' ∙ (ap (λ x. x ++ body) e ∙ append_assoc encoded first body),
        room'',
        λ cols lines rest bound.
            let total = length-append c (join css) in
            let step =
              decode_chunk-chunk_bytes codec laws config n (length cols) (take k ws) c
                (body ++ rest) a some_line few (omega (arith, bound, total)) cells_fit fits in
            ap (λ x. decode_chunks codec config config.compress n (suc (length css)) cols lines x)
              (append_assoc first body rest)
            ∙ (ap
                  (λ r. r >>= (λ (cs, ls, x).
                    decode_chunks codec config config.compress n (length css) (cols ++ cs)
                      (lines ++ ls) x))
                  step
                ∙ (reads (cols ++ take k ws) (lines ++ c) rest
                      (omega (arith, bound, total, same, length-append cols (take k ws)))
                    ∙ ap₂ (λ x y. ok (x, y, rest))
                        (append_assoc cols (take k ws) (drop k ws)
                          ∙ ap (cols ++◌) (take-drop-append k ws))
                        (append_assoc lines c (join css)))),
      )
