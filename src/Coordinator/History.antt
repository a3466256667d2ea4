-- ===== src/Coordinator/History.antt =====
-- `loadHistory` of harness/coordinator/loop.go: the history of a session, read page after page.
use heuristic.Prelude.{
  ℕ, zero, suc, ◌+◌, ◌≤◌, ◌<◌, ◌≡◌, refl, sym, ap, ◌∙◌, inl, inr, true, false, not, List, [], ◌∷◌,
  ◌++◌, arith, ltb, leb, if◌then◌else◌, Bool-cases, nat_eq, string_eq, pair_eq, length, take, drop,
}
use heuristic.Prelude.Exec.{Result, ok, err, Exec, Result-cases, ◌>>=◌}
use heuristic.Prelude.Slices.{take-drop, drop-drop, length-drop, length-take, take_whole}
use heuristic.Json.{Json}
use heuristic.SessionStore.{Item}
use heuristic.SessionStore.Codec.{LogCodec}
use heuristic.SessionStore.Invariant.{Numbered}
use heuristic.SessionStore.Files.{Conditions, Page, StoreFailure}
use heuristic.SessionStore.Files.Calls.{page}
use heuristic.SessionStore.Files.Paging.{page-items, page-more, page-next_after}
use heuristic.Coordinator.{Coordinator, CoordinatorError, World}
use heuristic.Coordinator.Begin.{restore_item, restore_items}

pub data LoadError : Type 0 where
  page_failed : StoreFailure → LoadError
  restore_failed : CoordinatorError → LoadError
  not_advanced : ℕ → LoadError
  -- The model's own: the loop of the source has no bound.
  out_of_fuel : LoadError

abbrev pub history_page_size : ℕ
history_page_size = 256

-- A page after its items are restored; `rest` is the next round.
unfoldable pub after_page :
    ℕ
    → Page
    → Exec Coordinator LoadError (Unit {0})
    → Result CoordinatorError (Unit {0}) × Coordinator
    → Result LoadError (Unit {0}) × Coordinator
after_page after p rest (err e, c) = (err (restore_failed e), c)
after_page after p rest (ok u, c) =
    if not p.more
    then (ok tt, c)
    else if leb p.next_after after
    then (err (not_advanced after), c)
    else rest c

-- The loop of `loadHistory`; `items` is the store's `Items` at the session.
unfoldable pub load_pages :
    ℕ → World → (ℕ → ℕ → Result StoreFailure Page) → ℕ → ℕ → Exec Coordinator LoadError (Unit {0})
unfolding after_page
load_pages zero w items size after c = (err out_of_fuel, c)
load_pages (suc fuel) w items size after c = elim (items after size) [
  | err e ↦ (err (page_failed e), c)
  | ok p ↦
      after_page after p (λ c'. load_pages fuel w items size p.next_after c')
        (restore_items w p.items c)
]

unfoldable pub load_history :
    ℕ → World → (ℕ → ℕ → Result StoreFailure Page) → Exec Coordinator LoadError (Unit {0})
unfolding load_pages
load_history fuel w items c = load_pages fuel w items history_page_size 0 c

-- What `load_history` makes of a restore.
abbrev pub loaded :
    Result CoordinatorError (Unit {0}) × Coordinator → Result LoadError (Unit {0}) × Coordinator
loaded (err e, c) = (err (restore_failed e), c)
loaded (ok u, c) = (ok tt, c)

-- What follows a restore that succeeds.
abbrev then_on :
    Result CoordinatorError (Unit {0}) × Coordinator
    → Exec Coordinator LoadError (Unit {0})
    → Result LoadError (Unit {0}) × Coordinator
then_on (err e, c) f = (err (restore_failed e), c)
then_on (ok u, c) f = f c

restore_items-append :
    (w : World) (xs ys : List Item) (c : Coordinator)
    → loaded (restore_items w (xs ++ ys) c)
      ≡ then_on (restore_items w xs c) (λ c'. loaded (restore_items w ys c'))
unfolding restore_items ◌>>=◌
restore_items-append w [] ys c = refl
restore_items-append w (i ∷ xs) ys c = elim (Result-cases (restore_item w i c).0) [
  | inl (e, p) ↦ rw (p, restore_items) refl
  | inr (u, p) ↦ rw (p, restore_items) (restore_items-append w xs ys (restore_item w i c).1)
]

module _ (j : Json) (codec : LogCodec) (with : Conditions) (w : World) (is : List Item)
    (numbered : Numbered 0 is) (size : ℕ) (room : 0 < size) where
  pages : ℕ → ℕ → Result StoreFailure Page
  pages after limit = ok (page j codec with after limit is)

  more_lem :
      (after : ℕ) (p : Page) (rest : Exec Coordinator LoadError (Unit {0}))
      (r : Result CoordinatorError (Unit {0}) × Coordinator)
      → p.more ≡ true
      → after < p.next_after
      → after_page after p rest r ≡ then_on r rest
  unfolding after_page
  more_lem after p rest (err e, c) more h = refl
  more_lem after p rest (ok u, c) more h =
      let b : leb p.next_after after ≡ false = ground arith in rw (more, b, after_page) refl

  last_lem :
      (after : ℕ) (p : Page) (rest : Exec Coordinator LoadError (Unit {0}))
      (r : Result CoordinatorError (Unit {0}) × Coordinator)
      → p.more ≡ false
      → after_page after p rest r ≡ loaded r
  unfolding after_page
  last_lem after p rest (err e, c) more = refl
  last_lem after p rest (ok u, c) more = rw (more, after_page) refl

  then_on_lem :
      (r : Result CoordinatorError (Unit {0}) × Coordinator)
      (f g : Exec Coordinator LoadError (Unit {0}))
      → ((c : Coordinator) → f c ≡ g c)
      → then_on r f ≡ then_on r g
  then_on_lem (err e, c) f g h = refl
  then_on_lem (ok u, c) f g h = h c

  load_pages-restore_items :
      (fuel after : ℕ) (c : Coordinator)
      → after ≤ length is
      → length is < after + fuel
      → load_pages fuel w pages size after c ≡ loaded (restore_items w (drop after is) c)
  unfolding load_pages pages
  load_pages-restore_items zero after c within enough = absurd (omega arith)
  load_pages-restore_items (suc fuel) after c within enough =
      let p : Page = page j codec with after size is in
      let shown = page-items j codec with after size is within in
      let next = page-next_after j codec with after size is within numbered in
      let more = page-more j codec with after size is within in
      elim (Bool-cases (ltb (after + size) (length is))) [
        | inl b ↦
            let full : size ≤ length (drop after is) = ground (arith, length-drop after is) in
            let step : p.next_after ≡ after + size =
              omega (arith, next, length-take size (drop after is) full) in
            let rest : take size (drop after is) ++ drop (after + size) is ≡ drop after is =
              ap (λ t. take size (drop after is) ++ t) (sym (drop-drop after size is))
              ∙ take-drop size (drop after is) in
            more_lem after p _ (restore_items w p.items c) (more ∙ b) (omega (arith, step))
            ∙ ap
                (λ t.
                  then_on (restore_items w t c)
                    (λ c'. load_pages fuel w pages size p.next_after c'))
                shown
            ∙ then_on_lem (restore_items w (take size (drop after is)) c) _ _ (λ c'.
              ap (λ n. load_pages fuel w pages size n c') step
              ∙ load_pages-restore_items fuel (after + size) c' (ground arith) (omega arith))
            ∙ sym (restore_items-append w (take size (drop after is)) (drop (after + size) is) c)
            ∙ ap (λ t. loaded (restore_items w t c)) rest
        | inr b ↦
            let all : take size (drop after is) ≡ drop after is =
              take_whole (drop after is) size (ground (arith, length-drop after is)) in
            last_lem after p _ (restore_items w p.items c) (more ∙ b)
            ∙ ap (λ t. loaded (restore_items w t c)) (shown ∙ all)
      ]

-- Over a history whose items are numbered from one, `loadHistory`, which reads page after page,
-- does to the coordinator what restoring all items in order does, errors included, with as many
-- rounds as there are items and one more.
pub load_history-restore_items :
    (j : Json) (codec : LogCodec) (with : Conditions) (w : World) (is : List Item) (c : Coordinator)
    → Numbered 0 is
    → load_history (length is + 1) w (λ after limit. ok (page j codec with after limit is)) c
      ≡ loaded (restore_items w is c)
unfolding load_history pages
load_history-restore_items j codec with w is c numbered =
    load_pages-restore_items j codec with w is numbered history_page_size (omega arith)
      (length is + 1) 0 c (omega arith) (omega arith)
