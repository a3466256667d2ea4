-- ===== src/Operation/Output/Runes.antt =====
-- What `boundOutput` keeps, in runes: the byte loops against the list of runes of a text.
use heuristic.Prelude.{
  ℕ, zero, suc, ◌+◌, ◌-◌, ◌/◌, ◌<◌, ◌≤◌, ◌≡◌, refl, sym, ap, ◌∙◌, inl, inr, Bool-cases,
  if◌then◌else◌, true, false, some, List, [], ◌∷◌, ◌++◌, arith, ltb, leb, ◌==◌, nat_eq, string_eq,
  pair_eq, pos, sub_ℕ, length, take, drop, length-append, All, All-append,
}
use heuristic.Prelude.Slices.{length-take, length-drop, take-drop, take-append}
use mathlib.Core.List.{append_assoc, append-nil, reverse, reverse-cons, reverse-append}
use heuristic.Prelude.Bytes.{Bytes, ascii, concat}
use heuristic.Operation.Output.{
  Utf8, tail_start, head_end, output_part, marker, cut_output, bound_output,
}

-- The UTF-8 decoder at encodings of runes, as unicode/utf8 documents it: the size at either end of
-- a text is that of the rune there, runes are counted one by one, and a valid text is its own
-- sanitized form.
pub record IsDecoder (u : Utf8) (IsRune : Bytes → Type 0) : Type 0 where
  pub positive : (r : Bytes) → IsRune r → 0 < length r
  pub first : (r rest : Bytes) → IsRune r → u.decode_rune (r ++ rest) ≡ length r
  pub last : (r rest : Bytes) → IsRune r → u.decode_last_rune (rest ++ r) ≡ length r
  pub counts : (rs : List Bytes) → All IsRune rs → u.rune_count (concat rs) ≡ length rs
  pub sanitizes : (rs : List Bytes) → All IsRune rs → u.sanitize (concat rs) ≡ concat rs

concat-append : (xs ys : List Bytes) → concat (xs ++ ys) ≡ concat xs ++ concat ys
concat-append [] ys = refl
concat-append (x ∷ xs) ys = rw (concat-append xs ys) (sym (append_assoc x (concat xs) (concat ys)))

module _ {A : Type 0} where
  drop-append : (xs ys : List A) → drop (length xs) (xs ++ ys) ≡ ys
  drop-append [] ys = refl
  drop-append (x ∷ xs) ys = drop-append xs ys

length-reverse : (rs : List Bytes) → length (reverse rs) ≡ length rs
length-reverse [] = refl
length-reverse (r ∷ rs) =
    rw (reverse-cons r rs) (omega (arith, length-append (reverse rs) (r ∷ []), length-reverse rs))

All-reverse : (P : Bytes → Type 0) (rs : List Bytes) → All P rs → All P (reverse rs)
All-reverse P [] h = tt
All-reverse P (r ∷ rs) h =
    rw (reverse-cons r rs) (All-append P (reverse rs) (r ∷ []) (All-reverse P rs h.1) (h.0, tt))

-- The text of the runes in reverse order.
abbrev concat_rev : List Bytes → Bytes
concat_rev [] = []
concat_rev (r ∷ rs) = concat_rev rs ++ r

concat_rev-append : (xs ys : List Bytes) → concat_rev (xs ++ ys) ≡ concat_rev ys ++ concat_rev xs
concat_rev-append [] ys = sym (append-nil (concat_rev ys))
concat_rev-append (x ∷ xs) ys =
    rw (concat_rev-append xs ys) (append_assoc (concat_rev ys) (concat_rev xs) x)

concat_rev_lem : (rs : List Bytes) → concat_rev (reverse rs) ≡ concat rs
concat_rev_lem [] = refl
concat_rev_lem (r ∷ rs) =
    rw (reverse-cons r rs)
      (concat_rev-append (reverse rs) (r ∷ []) ∙ ap (λ t. r ++ t) (concat_rev_lem rs))

-- The runes that stand of a text that is cut, at either end, and those between them.
abbrev pub head_runes : ℕ → List Bytes → List Bytes
head_runes limit rs = take (limit / 2) rs

abbrev pub tail_runes : ℕ → List Bytes → List Bytes
tail_runes limit rs = drop (length rs - (limit - limit / 2)) rs

abbrev pub left_out : ℕ → List Bytes → List Bytes
left_out limit rs = drop (limit / 2) (take (length rs - (limit - limit / 2)) rs)

module _ {A : Type 0} where
  take-take : (n k : ℕ) (xs : List A) → n ≤ k → take n (take k xs) ≡ take n xs
  take-take zero k xs h = refl
  take-take (suc n) zero xs h = absurd (omega arith)
  take-take (suc n) (suc k) [] h = refl
  take-take (suc n) (suc k) (x ∷ xs) h = ap (λ t. x ∷ t) (take-take n k xs (omega (arith, h)))

  All-take : (P : A → Type 0) (n : ℕ) (xs : List A) → All P xs → All P (take n xs)
  All-take P zero xs h = tt
  All-take P (suc n) [] h = tt
  All-take P (suc n) (x ∷ xs) h = (h.0, All-take P n xs h.1)

  All-drop : (P : A → Type 0) (n : ℕ) (xs : List A) → All P xs → All P (drop n xs)
  All-drop P zero xs h = h
  All-drop P (suc n) [] h = tt
  All-drop P (suc n) (x ∷ xs) h = All-drop P n xs h.1

parts_lem :
    (limit : ℕ) (rs : List Bytes)
    → limit < length rs
    → head_runes limit rs ++ left_out limit rs ++ tail_runes limit rs ≡ rs
parts_lem limit rs more =
    let k = length rs - (limit - limit / 2) in
    ap (λ t. t ++ left_out limit rs ++ tail_runes limit rs)
      (sym (take-take (limit / 2) k rs (omega (arith, more))))
    ∙ ap (λ t. t ++ tail_runes limit rs) (take-drop (limit / 2) (take k rs))
    ∙ take-drop k rs

module _ {u : Utf8} {IsRune : Bytes → Type 0} (d : IsDecoder u IsRune) where
  -- The forward loop, after the bytes `done`, stops after `n` runes.
  head_end_lem :
      (n : ℕ) (done : Bytes) (rs : List Bytes)
      → All IsRune rs
      → head_end u (done ++ concat rs) n (length done) ≡ length done + length (concat (take n rs))
  unfolding head_end
  head_end_lem zero done rs h = omega arith
  head_end_lem (suc n) done [] h = ground (arith, append-nil done)
  head_end_lem (suc n) done (r ∷ rs) h =
      let step =
        rw (append_assoc done r (concat rs), length-append done r) at
          (head_end_lem n (done ++ r) rs h.1) in
      let more : ltb (length done) (length (done ++ (r ++ concat rs))) ≡ true = ground (
        arith,
        d.positive r h.0,
        length-append done (r ++ concat rs),
        length-append r (concat rs),
      ) in
      rw (more, drop-append done (r ++ concat rs), d.first r (concat rs) h.0)
        (step ∙ omega (arith, length-append r (concat (take n rs))))

  -- The backward loop, before the bytes `done`.
  tail_start_lem :
      (n : ℕ) (rs : List Bytes) (done : Bytes)
      → All IsRune rs
      → tail_start u (concat_rev rs ++ done) n (length (concat_rev rs))
        ≡ length (concat_rev (drop n rs))
  unfolding tail_start
  tail_start_lem zero rs done h = refl
  tail_start_lem (suc n) [] done h = ground arith
  tail_start_lem (suc n) (r ∷ rs) done h =
      let kept = concat_rev rs in
      let step = rw (← append_assoc kept r done) at (tail_start_lem n rs (r ++ done) h.1) in
      let more : ltb 0 (length (kept ++ r)) ≡ true =
        ground (arith, d.positive r h.0, length-append kept r) in
      let back : length (kept ++ r) - length r ≡ length kept =
        omega (arith, length-append kept r) in
      rw (more, take-append (kept ++ r) done, d.last r kept h.0, back) step

  module _ (xs ms ys : List Bytes) (hx : All IsRune xs) (hm : All IsRune ms)
      (hy : All IsRune ys) where
    head_part :
        output_part u (concat (xs ++ ms ++ ys)) (length xs) false ≡ (concat xs, length (concat xs))
    unfolding output_part
    head_part =
        let end : head_end u (concat (xs ++ ms ++ ys)) (length xs) 0 ≡ length (concat xs) =
          head_end_lem (length xs) [] (xs ++ ms ++ ys)
            (All-append IsRune (xs ++ ms) ys (All-append IsRune xs ms hx hm) hy)
          ∙ rw (append_assoc xs ms ys) (rw (take-append xs (ms ++ ys)) (omega arith)) in
        rw end (
          rw (append_assoc xs ms ys, concat-append xs (ms ++ ys))
            (rw (take-append (concat xs) (concat (ms ++ ys)), d.sanitizes xs hx)))

    tail_part :
        output_part u (concat (xs ++ ms ++ ys)) (length ys) true ≡ (concat ys, length (concat ys))
    unfolding output_part
    tail_part =
        let all = xs ++ ms ++ ys in
        let hall = All-append IsRune (xs ++ ms) ys (All-append IsRune xs ms hx hm) hy in
        let start : tail_start u (concat all) (length ys) (length (concat all))
            ≡ length (concat (xs ++ ms)) =
          rw (append-nil (concat_rev (reverse all)), concat_rev_lem all) at
            (tail_start_lem (length ys) (reverse all) [] (All-reverse IsRune all hall))
          ∙ rw (reverse-append (xs ++ ms) ys, ← length-reverse ys)
              (rw (drop-append (reverse ys) (reverse (xs ++ ms)))
                (rw (concat_rev_lem (xs ++ ms)))) in
        rw start (
          rw (concat-append (xs ++ ms) ys) (
            rw (drop-append (concat (xs ++ ms)) (concat ys), d.sanitizes ys hy)
              (ap (λ n. (concat ys, n))
                (omega (arith, length-append (concat (xs ++ ms)) (concat ys))))))

    cut_output_lem :
        (limit : ℕ) (path : Bytes)
        → length xs ≡ limit / 2
        → length ys ≡ limit - limit / 2
        → cut_output u
            (concat (xs ++ ms ++ ys))
            (concat (xs ++ ms ++ ys))
            (length (concat (xs ++ ms ++ ys)))
            limit
            path
          ≡ (
            concat xs ++ marker u (pos (length (concat ms))) path ++ ascii "..." ++ concat ys,
            true,
          )
    unfolding cut_output
    cut_output_lem limit path hl hr =
        let sizes : sub_ℕ (length (concat (xs ++ ms ++ ys)))
              (length (concat xs) + length (concat ys))
            ≡ pos (length (concat ms)) =
          ground (
            arith,
            concat-append (xs ++ ms) ys,
            concat-append xs ms,
            length-append (concat (xs ++ ms)) (concat ys),
            length-append (concat xs) (concat ms),
          ) in
        rw (← hr) (rw (← hl) (rw head_part (rw tail_part (rw sizes))))

  -- A text of more runes than the limit is cut in two places.
  cut_lem :
      (xs ms ys : List Bytes) (limit : ℕ)
      → All IsRune xs
      → All IsRune ms
      → All IsRune ys
      → length xs ≡ limit / 2
      → length ys ≡ limit - limit / 2
      → 0 < length ms
      → bound_output u (concat (xs ++ ms ++ ys)) (pos limit)
        ≡ some
            (concat xs ++ marker u (pos (length (concat ms))) [] ++ ascii "..." ++ concat ys, true)
  unfolding bound_output
  cut_lem xs ms ys limit hx hm hy hl hr some_left =
      let all = xs ++ ms ++ ys in
      let hall = All-append IsRune (xs ++ ms) ys (All-append IsRune xs ms hx hm) hy in
      let same : length (concat all) == length (concat all) ≡ true = ground arith in
      let large : leb (u.rune_count (concat all)) limit ≡ false =
        ground (arith, d.counts all hall, length-append (xs ++ ms) ys, length-append xs ms) in
      rw same (rw large (ap some (cut_output_lem xs ms ys hx hm hy limit [] hl hr)))

  whole_lem :
      (rs : List Bytes) (limit : ℕ)
      → All IsRune rs
      → leb (length rs) limit ≡ true
      → bound_output u (concat rs) (pos limit) ≡ some (concat rs, false)
  unfolding bound_output
  whole_lem rs limit h b =
      let same : length (concat rs) == length (concat rs) ≡ true = ground arith in
      let small : leb (u.rune_count (concat rs)) limit ≡ true = ground (arith, d.counts rs h, b) in
      rw same (rw small (rw (d.sanitizes rs h) refl))

  -- Of valid UTF-8, which a decoder reads as unicode/utf8 says it does, `BoundOutput` keeps all if
  -- it has at most `limit` runes, and tells that it is not cut. Of more runes it keeps the first
  -- `limit / 2` and the last of the `limit`, with the number of the bytes left out between them,
  -- and tells that it is cut.
  pub bound_output_lem :
      (rs : List Bytes) (limit : ℕ)
      → All IsRune rs
      → bound_output u (concat rs) (pos limit)
        ≡ some (
            if leb (length rs) limit then (concat rs, false) else (
              concat (head_runes limit rs)
                  ++ marker u (pos (length (concat (left_out limit rs)))) []
                  ++ ascii "..."
                  ++ concat (tail_runes limit rs),
              true,
            ))
  bound_output_lem rs limit h = elim (Bool-cases (leb (length rs) limit)) [
    | inl b ↦ rw b (whole_lem rs limit h b)
    | inr b ↦
        let more : limit < length rs = ground (arith, b) in
        let kept = take (length rs - (limit - limit / 2)) rs in
        rw b (
          ap (λ t. bound_output u (concat t) (pos limit)) (sym (parts_lem limit rs more))
          ∙ cut_lem (head_runes limit rs) (left_out limit rs) (tail_runes limit rs) limit
              (All-take IsRune (limit / 2) rs h)
              (All-drop IsRune (limit / 2) kept (All-take IsRune _ rs h)) (All-drop IsRune _ rs h)
              (length-take (limit / 2) rs (omega (arith, more)))
              (omega (arith, more, length-drop (length rs - (limit - limit / 2)) rs))
              (omega (
                arith,
                more,
                length-drop (limit / 2) kept,
                length-take (length rs - (limit - limit / 2)) rs (omega arith),
              )))
  ]
