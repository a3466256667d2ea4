-- ===== src/SessionStore/Codec/Lines.antt =====
-- The lines of a log: how `decodeLog` cuts the bytes, and what an append and a torn write leave.
use heuristic.Prelude.{
  ℕ, ◌≡◌, refl, sym, ap, ◌∙◌, inl, inr, false, List, [], ◌∷◌, ◌++◌, arith, Bool-cases, ◌==◌, nat_eq,
  string_eq, pair_eq, All, contains,
}
use mathlib.Core.List.{append_assoc}
use heuristic.Prelude.Bytes.{Bytes}
use heuristic.Json.{Json}
use heuristic.SessionStore.Codec.{LogCodec, newline}
use heuristic.SessionStore.Codec.Reader.{split_lines, add_byte}

-- A text without a newline.
abbrev pub IsClean : Bytes → Type 0
IsClean text = contains text newline ≡ false

abbrev pub unlines : List Bytes → Bytes
unlines [] = []
unlines (line ∷ lines) = line ++ newline ∷ unlines lines

pub unlines-append : (xs ys : List Bytes) → unlines (xs ++ ys) ≡ unlines xs ++ unlines ys
unlines-append [] ys = refl
unlines-append (x ∷ xs) ys =
    rw (unlines-append xs ys) (sym (append_assoc x (newline ∷ unlines xs) (unlines ys)))

module _ (j : Json) (c : LogCodec) where
  split_lines-clean : (rest : Bytes) → IsClean rest → split_lines j c rest ≡ ([], rest)
  unfolding split_lines add_byte contains
  split_lines-clean [] h = refl
  split_lines-clean (b ∷ rest) h = elim (Bool-cases (b == newline)) [
    | inl e ↦ absurd (ground arith)
    | inr e ↦ rw (e, split_lines) (rw (split_lines-clean rest (ground arith)) refl)
  ]

  split_lines-line :
      (line text : Bytes)
      → IsClean line
      → split_lines j c (line ++ newline ∷ text)
        ≡ (line ∷ (split_lines j c text).0, (split_lines j c text).1)
  unfolding split_lines add_byte contains
  split_lines-line [] text h = refl
  split_lines-line (b ∷ line) text h = elim (Bool-cases (b == newline)) [
    | inl e ↦ absurd (ground arith)
    | inr e ↦ rw (e, split_lines) (rw (split_lines-line line text (ground arith)) refl)
  ]

  -- The lines that were written are the lines that are read, and the rest is what follows them.
  pub split_lines-unlines :
      (lines : List Bytes) (rest : Bytes)
      → All IsClean lines
      → IsClean rest
      → split_lines j c (unlines lines ++ rest) ≡ (lines, rest)
  split_lines-unlines [] rest hl hr = split_lines-clean rest hr
  split_lines-unlines (line ∷ lines) rest hl hr =
      rw (append_assoc line (newline ∷ unlines lines) rest) (
        split_lines-line line (unlines lines ++ rest) hl.0
        ∙ ap (λ s. (line ∷ s.0, s.1)) (split_lines-unlines lines rest hl.1 hr))

  -- What the lines and the rest make up.
  pub record IsSplit (text : Bytes) (s : List Bytes × Bytes) : Type 0 where
    pub joined : text ≡ unlines s.0 ++ s.1
    pub clean : All IsClean s.0
    pub tail : IsClean s.1

  add_byte_lem :
      (b : ℕ) (text : Bytes) (s : List Bytes × Bytes)
      → (b == newline) ≡ false
      → IsSplit text s
      → IsSplit (b ∷ text) (add_byte j c b s)
  unfolding add_byte contains
  add_byte_lem b text ([], rest) e h = record {
    joined = ap (λ t. b ∷ t) h.joined;
    clean = tt;
    tail = ground (arith, h.tail);
  }
  add_byte_lem b text (line ∷ lines, rest) e h = record {
    joined = ap (λ t. b ∷ t) h.joined;
    clean = (ground (arith, h.clean.0), h.clean.1);
    tail = h.tail;
  }

  pub split_lines-IsSplit : (text : Bytes) → IsSplit text (split_lines j c text)
  unfolding split_lines contains
  split_lines-IsSplit [] = record { joined = refl; clean = tt; tail = refl }
  split_lines-IsSplit (b ∷ text) = elim (Bool-cases (b == newline)) [
    | inl e ↦
        let h = split_lines-IsSplit text in
        rw (e, split_lines)
          (record {
            joined =
                ap (λ t. b ∷ t) h.joined
                ∙ ap (λ x. x ∷ unlines (split_lines j c text).0 ++ (split_lines j c text).1)
                    ((nat_eq.same_iff b newline).0 e);
            clean = (refl, h.clean);
            tail = h.tail;
          })
    | inr e ↦ rw (e, split_lines) (add_byte_lem b text _ e (split_lines-IsSplit text))
  ]
