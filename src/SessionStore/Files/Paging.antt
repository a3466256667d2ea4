-- ===== src/SessionStore/Files/Paging.antt =====
-- `Items` of harness/sessionstore/localfile/store.go: what a page holds of a numbered history.
use heuristic.Prelude.{
  ℕ, zero, suc, ◌+◌, ◌≤◌, ◌≡◌, sym, ap, ◌∙◌, subst, inl, inr, List, [], ◌∷◌, arith, ltb,
  if◌then◌else◌, Bool-cases, nat_eq, string_eq, pair_eq, length, take, drop,
}
use heuristic.Prelude.Slices.{length-drop, take_whole}
use heuristic.Json.{Json}
use heuristic.SessionStore.{Item}
use heuristic.SessionStore.Codec.{LogCodec}
use heuristic.SessionStore.Invariant.{Numbered}
use heuristic.SessionStore.Files.{Conditions}
use heuristic.SessionStore.Files.Calls.{page, last_sequence}

take-Numbered : (k n : ℕ) (is : List Item) → Numbered k is → Numbered k (take n is)
take-Numbered k zero is h = tt
take-Numbered k (suc n) [] h = tt
take-Numbered k (suc n) (i ∷ is) h = (h.0, take-Numbered (suc k) n is h.1)

drop-Numbered : (k n : ℕ) (is : List Item) → Numbered k is → Numbered (k + n) (drop n is)
drop-Numbered k zero is h = subst (λ m. Numbered m is) (omega arith) h
drop-Numbered k (suc n) [] h = tt
drop-Numbered k (suc n) (i ∷ is) h =
    subst (λ m. Numbered m (drop n is)) (omega arith) (drop-Numbered (suc k) n is h.1)

module _ (j : Json) (c : LogCodec) (with : Conditions) where
  last_sequence-Numbered :
      (k : ℕ) (is : List Item) → Numbered k is → last_sequence j c with k is ≡ k + length is
  unfolding last_sequence
  last_sequence-Numbered k [] h = omega arith
  last_sequence-Numbered k (i ∷ is) h =
      ap (λ n. last_sequence j c with n is) h.0
      ∙ last_sequence-Numbered (suc k) is h.1
      ∙ omega arith

  module _ (after limit : ℕ) (is : List Item) (within : after ≤ length is) where
    start_lem : (if ltb after (length is) then after else length is) ≡ after
    start_lem = ground arith

    pub page-items : (page j c with after limit is).items ≡ take limit (drop after is)
    unfolding page
    page-items = elim (Bool-cases (ltb (after + limit) (length is))) [
      | inl b ↦ rw (start_lem, b, page) (ap (λ n. take n (drop after is)) (omega arith))
      | inr b ↦
          rw (start_lem, b, page)
            (take_whole (drop after is) _ (omega (arith, length-drop after is))
              ∙ sym (take_whole (drop after is) limit (ground (arith, length-drop after is))))
    ]

    pub page-more : (page j c with after limit is).more ≡ ltb (after + limit) (length is)
    unfolding page
    page-more = ground arith

    pub page-next_after :
        Numbered 0 is
        → (page j c with after limit is).next_after ≡ after + length (take limit (drop after is))
    unfolding page
    page-next_after h =
        ap (last_sequence j c with after) page-items
        ∙ last_sequence-Numbered after (take limit (drop after is)) (
            take-Numbered after limit (drop after is)
              (subst (λ k. Numbered k (drop after is)) (omega arith) (drop-Numbered 0 after is h)))
