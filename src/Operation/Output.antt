-- ===== src/Operation/Output.antt =====
-- harness/operation/output.go: a text cut in its middle to a number of runes. The package
-- unicode/utf8 and fmt's decimal printing are parameters.
pub mod Runes
use heuristic.Prelude.{
  ℕ, zero, suc, ◌+◌, ◌-◌, ◌/◌, ◌≡◌, Bool, true, false, ◌&&◌, not, Option, none, some, List, [], ◌∷◌,
  ◌++◌, ltb, leb, if◌then◌else◌, ◌==◌, nat_eq, ℤ, sub_ℕ, max_zero, length, take, drop,
}
use heuristic.Prelude.Bytes.{Bytes, ascii}

pub record Utf8 : Type 0 where
  -- The sizes that `DecodeRuneInString` and `DecodeLastRuneInString` return.
  pub decode_rune : Bytes → ℕ
  pub decode_last_rune : Bytes → ℕ
  -- `RuneCountInString`
  pub rune_count : Bytes → ℕ
  -- `string([]rune(text))`
  pub sanitize : Bytes → Bytes
  -- `%d` of fmt
  pub decimal : ℤ → Bytes

-- The first loop of `outputPart`, from the index `start` down.
unfoldable pub tail_start : Utf8 → Bytes → ℕ → ℕ → ℕ
tail_start u text zero start = start
tail_start u text (suc limit) start =
    let rest = tail_start u text limit (start - u.decode_last_rune (take start text)) in
    if ltb 0 start then rest else start

-- Its second loop, from the index `end` up.
unfoldable pub head_end : Utf8 → Bytes → ℕ → ℕ → ℕ
head_end u text zero end = end
head_end u text (suc limit) end =
    let rest = head_end u text limit (end + u.decode_rune (drop end text)) in
    if ltb end (length text) then rest else end

-- `outputPart`, of the tail or of the head.
unfoldable pub output_part : Utf8 → Bytes → ℕ → Bool → Bytes × ℕ
unfolding tail_start head_end
output_part u text limit true =
    let start = tail_start u text limit (length text) in
    (u.sanitize (drop start text), length text - start)
output_part u text limit false =
    let end = head_end u text limit 0 in (u.sanitize (take end text), end)

is_empty_text : Bytes → Bool
is_empty_text [] = true
is_empty_text text = false

unfoldable pub marker : Utf8 → ℤ → Bytes → Bytes
unfolding is_empty_text
marker u skipped path =
    let count = ascii "..." ++ u.decimal skipped ++ ascii " bytes truncated" in
    if is_empty_text path then count else count ++ ascii "; complete output in " ++ path

unfoldable pub cut_output : Utf8 → Bytes → Bytes → ℕ → ℕ → Bytes → Bytes × Bool
cut_output u head tail full_size limit path =
    let (shown, head_size) = output_part u head (limit / 2) false in
    let (end, tail_size) = output_part u tail (limit - limit / 2) true in
    (shown ++ marker u (sub_ℕ full_size (head_size + tail_size)) path ++ ascii "..." ++ end, true)

-- `boundOutput`; `none` is its panic.
unfoldable pub bound_output_in : Utf8 → Bytes → Bytes → ℕ → ℤ → Bytes → Option (Bytes × Bool)
unfolding cut_output is_empty_text
bound_output_in u head tail full_size limit path =
    let limit = max_zero limit in
    if is_empty_text tail
    then if not (full_size == length head)
      then none
      else if leb (u.rune_count head) limit
      then some (u.sanitize head, false)
      else some (cut_output u head head full_size limit path)
    else some (cut_output u head tail full_size limit path)

-- `BoundOutput`
unfoldable pub bound_output : Utf8 → Bytes → ℤ → Option (Bytes × Bool)
unfolding bound_output_in
bound_output u text limit = bound_output_in u text [] (length text) limit []
