-- ===== src/Operation/Examples.antt =====
-- Readers and writers of values as text, for the concrete codecs of the examples: instances of what
-- the operations take from encoding/json.
pub mod Codecs
pub mod Operations
pub mod Managers
use Prim.Native.Char.{code}
use heuristic.Prelude.{
  ℕ, zero, suc, ◌≡◌, refl, ap, ◌∙◌, subst, arith, String, Bool, true, false, Option, none, some,
  List, [], ◌∷◌, if◌then◌else◌, ◌==◌, nat_eq, ℤ, pos, negsuc, length,
}
use heuristic.Operation.Step.{StateCodec}

-- A way to write a value before a text, and to read it back.
pub record Format (A : Type 0) : Type 0 where
  pub write : A → String → String
  pub read : String → A × String
  pub reads : (a : A) (rest : String) → read (write a rest) ≡ (a, rest)

abbrev pub write_number : ℕ → String → String
write_number zero rest = String.◌∷◌ "b" rest
write_number (suc n) rest = String.◌∷◌ "a" (write_number n rest)

abbrev pub read_number : String → ℕ × String
read_number String.[] = (0, "")
read_number (String.◌∷◌ c s) =
    let r = read_number s in if code c == 97 then (suc r.0, r.1) else (0, s)

pub number_reads : (n : ℕ) (rest : String) → read_number (write_number n rest) ≡ (n, rest)
number_reads zero rest = refl
number_reads (suc n) rest = ap (λ r. (suc r.0, r.1)) (number_reads n rest)

abbrev pub number : Format ℕ
number = record { write = write_number; read = read_number; reads = number_reads }

-- A mark before each character.
abbrev pub write_text : String → String → String
write_text String.[] rest = String.◌∷◌ "b" rest
write_text (String.◌∷◌ c s) rest = String.◌∷◌ "a" (String.◌∷◌ c (write_text s rest))

abbrev pub read_text : String → String × String
read_text (String.◌∷◌ mark (String.◌∷◌ c s)) =
    let r = read_text s in if code mark == 97 then (String.◌∷◌ c r.0, r.1) else ("", String.◌∷◌ c s)
read_text (String.◌∷◌ mark String.[]) = ("", "")
read_text String.[] = ("", "")

pub text_reads : (s rest : String) → read_text (write_text s rest) ≡ (s, rest)
text_reads String.[] String.[] = refl
text_reads String.[] (String.◌∷◌ c rest) = refl
text_reads (String.◌∷◌ c s) rest = ap (λ r. (String.◌∷◌ c r.0, r.1)) (text_reads s rest)

abbrev pub text : Format String
text = record { write = write_text; read = read_text; reads = text_reads }

module _ {A B : Type 0} where
  -- One value after another.
  abbrev pub both : Format A → Format B → Format (A × B)
  both f g = record {
    write = λ x rest. f.write x.0 (g.write x.1 rest);
    read = λ s. let r = f.read s in let t = g.read r.1 in ((r.0, t.0), t.1);
    reads = λ x rest.
        ap (λ r. let t = g.read r.1 in ((r.0, t.0), t.1)) (f.reads x.0 (g.write x.1 rest))
        ∙ ap (λ t. ((x.0, t.0), t.1)) (g.reads x.1 rest);
  }

  -- A type with the values of another.
  abbrev pub through :
      (make : A → B) (take : B → A) → ((b : B) → make (take b) ≡ b) → Format A → Format B
  through make take same f = record {
    write = λ b rest. f.write (take b) rest;
    read = λ s. let r = f.read s in (make r.0, r.1);
    reads =
        λ b rest. ap (λ r. (make r.0, r.1)) (f.reads (take b) rest) ∙ ap (λ x. (x, rest)) (same b);
  }

module _ {A : Type 0} (f : Format A) where
  abbrev pub write_each : List A → String → String
  write_each [] rest = rest
  write_each (x ∷ xs) rest = f.write x (write_each xs rest)

  abbrev pub read_each : ℕ → String → List A × String
  read_each zero s = ([], s)
  read_each (suc n) s = let r = f.read s in let t = read_each n r.1 in (r.0 ∷ t.0, t.1)

  pub each_reads :
      (xs : List A) (rest : String) → read_each (length xs) (write_each xs rest) ≡ (xs, rest)
  each_reads [] rest = refl
  each_reads (x ∷ xs) rest =
      ap (λ r. let t = read_each (length xs) r.1 in (r.0 ∷ t.0, t.1))
        (f.reads x (write_each xs rest))
      ∙ ap (λ t. (x ∷ t.0, t.1)) (each_reads xs rest)

  abbrev pub many : Format (List A)
  many = record {
    write = λ xs rest. write_number (length xs) (write_each xs rest);
    read = λ s. let r = read_number s in read_each r.0 r.1;
    reads = λ xs rest.
        ap (λ r. read_each r.0 r.1) (number_reads (length xs) (write_each xs rest))
        ∙ each_reads xs rest;
  }

abbrev pub of_bit : ℕ → Bool
of_bit zero = false
of_bit (suc n) = true

abbrev pub bit : Bool → ℕ
bit true = 1
bit false = 0

abbrev pub truth : Format Bool
truth =
    through of_bit bit (λ b. elim b as (λ b. of_bit (bit b) ≡ b) [ true ↦ refl | false ↦ refl ])
      number

abbrev pub integer_of : Bool × ℕ → ℤ
integer_of (true, n) = negsuc n
integer_of (false, n) = pos n

abbrev pub integer_parts : ℤ → Bool × ℕ
integer_parts (pos n) = (false, n)
integer_parts (negsuc n) = (true, n)

abbrev pub integer : Format ℤ
integer =
    through integer_of integer_parts
      (λ z. elim z as (λ z. integer_of (integer_parts z) ≡ z) [ pos n ↦ refl | negsuc n ↦ refl ])
      (both truth number)

abbrev pub first : {A : Type 0} → List A → Option A
first [] = none
first (x ∷ xs) = some x

abbrev pub listed : {A : Type 0} → Option A → List A
listed none = []
listed (some x) = x ∷ []

abbrev pub maybe : {A : Type 0} → Format A → Format (Option A)
maybe f =
    through first listed
      (λ o. elim o as (λ o. first (listed o) ≡ o) [ none ↦ refl | some x ↦ refl ]) (many f)

-- Every value is written, and every text is read as one.
abbrev pub codec : {A : Type 0} → Format A → StateCodec A
codec f = record { encode = λ a. some (f.write a ""); decode = λ s. some (f.read s).0 }

pub codec-reads :
    {A : Type 0} (f : Format A) (a : A) (s : String)
    → (codec f).encode a ≡ some s
    → (codec f).decode s ≡ some a
codec-reads f a s e =
    let written : f.write a "" ≡ s = ground arith in
    subst (λ t. some (f.read t).0 ≡ some a) written (ap (λ r. some r.0) (f.reads a ""))
