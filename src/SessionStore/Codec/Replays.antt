-- ===== src/SessionStore/Codec/Replays.antt =====
-- The second loop of `decodeLog`: the sequence that it leaves, and one record more.
use heuristic.Prelude.{
  ℕ, suc, ◌+◌, ◌%◌, ◌≤◌, ◌≡◌, sym, ap, ◌∙◌, inl, inr, false, List, [], ◌∷◌, ◌++◌, arith, ltb,
  Bool-cases, nat_eq, string_eq, pair_eq,
}
use heuristic.Prelude.Exec.{Result, ok, err, Result-cases}
use heuristic.Json.{Json}
use heuristic.SessionStore.Head.{sequence_mod, StoreError}
use heuristic.SessionStore.State.{StoredState, inherit_item}
use heuristic.SessionStore.Replay.{
  ItemRecord, DecodedRecord, of_item, of_operation, DecodeError, refusal, replay, replay_item,
  replay_record, save_operation_item, inherit_record, refused,
}
use heuristic.SessionStore.Codec.Scans.{items_of, IsNumbered}
use heuristic.SessionStore.Codec.Made.{
  Follows, replay_item-Follows, save_operation-sequence, inherit_item-sequence,
}

follows_lem :
    (s : StoredState) (n : ℕ) (r : Result DecodeError (Unit {0}) × StoredState) (u : Unit {0})
    → Follows s n r
    → r.0 ≡ ok u
    → r.1.item_sequence ≡ n
follows_lem s n (ok v, after) u h e = h
follows_lem s n (err x, after) u h e = absurd (ground arith)

inherit_record-sequence :
    (r : ItemRecord) (s after : StoredState)
    → inherit_record r s ≡ ok after
    → after.item_sequence ≡ r.item.sequence
unfolding inherit_record
inherit_record-sequence r s after e = elim (Result-cases (inherit_item r.item s)) [
  | inl (x, p) ↦ absurd (ground arith)
  | inr (t, p) ↦
      let i : t ≡ after = ground arith in inherit_item-sequence r.item s after (p ∙ ap ok i)
]

mod_step : (m n : ℕ) → m ≡ n % sequence_mod → (m + 1) % sequence_mod ≡ (n + 1) % sequence_mod
mod_step m n e = omega arith

-- The replay leaves the sequence of the last item.
pub replay-sequence :
    (j : Json) (inherited n : ℕ) (ds : List DecodedRecord) (s after : StoredState)
    → IsNumbered n ds
    → s.item_sequence ≡ n % sequence_mod
    → replay j inherited n ds s ≡ ok after
    → after.item_sequence ≡ (n + items_of ds) % sequence_mod
unfolding replay
replay-sequence j inherited n [] s after h e p =
    let i : s ≡ after = ground arith in
    ap (λ (t : StoredState). t.item_sequence) (sym i) ∙ e ∙ ap (λ k. k % sequence_mod) (omega arith)
replay-sequence j inherited n (of_operation v ∷ ds) s after h e p =
    elim (Bool-cases (ltb n inherited)) [
      | inl b ↦ absurd (let q = rw (b, replay) at p in ground arith)
      | inr b ↦ elim (Result-cases (save_operation_item j v s).0) [
        | inl (x, q) ↦ absurd (let r = rw (b, q, replay) at p in ground arith)
        | inr (u, q) ↦
            replay-sequence j inherited n ds (save_operation_item j v s).1 after h
              (save_operation-sequence j v s ∙ e) (rw (b, q, replay) at p)
      ]
    ]
replay-sequence j inherited n (of_item r ∷ ds) s after h e p =
    let add : (n + 1 + items_of ds) % sequence_mod ≡ (n + suc (items_of ds)) % sequence_mod =
      ap (λ k. k % sequence_mod) (omega arith) in
    elim (Bool-cases (ltb n inherited)) [
      | inl b ↦ elim (Result-cases (inherit_record r s)) [
        | inl (x, q) ↦ absurd (let t = rw (b, q, replay) at p in ground arith)
        | inr (t, q) ↦
            replay-sequence j inherited (n + 1) ds t after h.1
              (inherit_record-sequence r s t q ∙ h.0) (rw (b, q, replay) at p)
            ∙ add
      ]
      | inr b ↦ elim (Result-cases (replay_item j r s).0) [
        | inl (x, q) ↦ absurd (let t = rw (b, q, replay) at p in ground arith)
        | inr (u, q) ↦
            replay-sequence j inherited (n + 1) ds (replay_item j r s).1 after h.1
              (follows_lem s _ (replay_item j r s) u (replay_item-Follows j r s) q
                ∙ mod_step s.item_sequence n e)
              (rw (b, q, replay) at p)
            ∙ add
      ]
    ]

saved_lem :
    (r : Result StoreError (Unit {0}) × StoredState) (last : StoredState)
    → refusal r ≡ (ok tt, last)
    → elim r.0 as (λ _. Result DecodeError StoredState) [ err e ↦ err (refused e) | ok u ↦ ok r.1 ]
      ≡ ok last
saved_lem (ok u, s) last h = ap (λ x. ok x.1) h
saved_lem (err e, s) last h = absurd (ground (arith, ap (λ x. x.0) h))

record_lem :
    (j : Json) (inherited n : ℕ) (d : DecodedRecord) (s last : StoredState)
    → inherited ≤ n
    → replay_record j d s ≡ (ok tt, last)
    → replay j inherited n (d ∷ []) s ≡ ok last
unfolding replay replay_record
record_lem j inherited n (of_item r) s last h e =
    let b : ltb n inherited ≡ false = ground arith in
    rw (b, replay)
      (ap (λ x. elim x.0 as (λ _. Result DecodeError StoredState) [ err e ↦ err e | ok u ↦ ok x.1 ])
        e)
record_lem j inherited n (of_operation v) s last h e =
    let b : ltb n inherited ≡ false = ground arith in
    rw (b, replay) (saved_lem (save_operation_item j v s) last e)

-- One record more, once the inherited items are replayed.
pub replay-append :
    (j : Json) (inherited n : ℕ) (ds : List DecodedRecord) (d : DecodedRecord)
    (s after last : StoredState)
    → inherited ≤ n + items_of ds
    → replay j inherited n ds s ≡ ok after
    → replay_record j d after ≡ (ok tt, last)
    → replay j inherited n (ds ++ d ∷ []) s ≡ ok last
unfolding replay
replay-append j inherited n [] d s after last h p e =
    let i : s ≡ after = ground arith in
    record_lem j inherited n d s last (omega (arith, h)) (rw i e)
replay-append j inherited n (of_operation v ∷ ds) d s after last h p e =
    elim (Bool-cases (ltb n inherited)) [
      | inl b ↦ absurd (let q = rw (b, replay) at p in ground arith)
      | inr b ↦ elim (Result-cases (save_operation_item j v s).0) [
        | inl (x, q) ↦ absurd (let r = rw (b, q, replay) at p in ground arith)
        | inr (u, q) ↦
            rw (b, q, replay)
              (replay-append j inherited n ds d (save_operation_item j v s).1 after last h
                (rw (b, q, replay) at p) e)
      ]
    ]
replay-append j inherited n (of_item r ∷ ds) d s after last h p e =
    elim (Bool-cases (ltb n inherited)) [
      | inl b ↦ elim (Result-cases (inherit_record r s)) [
        | inl (x, q) ↦ absurd (let t = rw (b, q, replay) at p in ground arith)
        | inr (t, q) ↦
            rw (b, q, replay)
              (replay-append j inherited (n + 1) ds d t after last (omega (arith, h))
                (rw (b, q, replay) at p) e)
      ]
      | inr b ↦ elim (Result-cases (replay_item j r s).0) [
        | inl (x, q) ↦ absurd (let t = rw (b, q, replay) at p in ground arith)
        | inr (u, q) ↦
            rw (b, q, replay)
              (replay-append j inherited (n + 1) ds d (replay_item j r s).1 after last
                (omega (arith, h)) (rw (b, q, replay) at p) e)
      ]
    ]
