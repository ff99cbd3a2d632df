-- ===== src/Lease/Stat.antt =====
-- worker_lease.py: what is read out of `/proc/<pid>/stat`, as text and as bytes. The section's
-- `code` is the number of a character, or the byte itself. Behind the name the kernel writes ASCII, so
-- a text is split and read there as bytes are.
pub mod RoundTrip
use Prim.Native.Char.{Char, code}
use orchestrator_engine.Prelude.{
  ℕ, zero, suc, ◌+◌, ◌-◌, ◌*◌, String, Bool, true, false, ◌&&◌, ◌||◌, Option, none, some, List, [],
  ◌∷◌, eqb, leb, ltb, if◌then◌else◌, map,
}
use orchestrator_engine.Json.{ℤ, pos, negsuc}

-- bytes.split(): the ASCII white space.
abbrev pub is_space : ℕ → Bool
is_space c = leb 9 c && leb c 13 || eqb c 32

abbrev pub is_digit : ℕ → Bool
is_digit c = leb b'0' c && leb c b'9'

abbrev pub item {ℓ} : {A : Type ℓ} → ℕ → List A → Option A
item n [] = none
item zero (x ∷ xs) = some x
item (suc n) (x ∷ xs) = item n xs

unfoldable pub negated : Option ℕ → Option ℤ
negated none = none
negated (some zero) = some (pos zero)
negated (some (suc n)) = some (negsuc n)

unfoldable pub unsigned : Option ℕ → Option ℤ
unsigned none = none
unsigned (some n) = some (pos n)

module _ {A : Type 0} (code_of : A → ℕ) where
  unfoldable pub after_space : List A → Option (List A)
  after_space [] = none
  after_space (b ∷ bs) = if eqb (code_of b) 32 then some bs else none

  -- rpartition(") "): what stands behind its last occurrence.
  unfoldable pub after_last : List A → Option (List A)
  after_last [] = none
  after_last (b ∷ bs) = elim (after_last bs) [
    | some tail ↦ some tail
    | none ↦ if eqb (code_of b) b')' then after_space bs else none
  ]

  unfoldable pub with_word : List A → List (List A) → List (List A)
  with_word [] ws = ws
  with_word (b ∷ bs) ws = (b ∷ bs) ∷ ws

  -- The word at the front, and the words behind it.
  unfoldable pub cut : List A → List A × List (List A)
  cut [] = ([], [])
  cut (b ∷ bs) =
      let (w, ws) = cut bs in if is_space (code_of b) then ([], with_word w ws) else (b ∷ w, ws)

  -- split()
  unfoldable pub words : List A → List (List A)
  words bs = let (w, ws) = cut bs in with_word w ws

  -- The digits of int(), with single underscores between them; `after_digit` tells whether one
  -- stands before.
  unfoldable pub digits : ℕ → Bool → List A → Option ℕ
  digits acc after_digit [] = if after_digit then some acc else none
  digits acc after_digit (c ∷ cs) =
      let next = digits (10 * acc + (code_of c - b'0')) true cs in
      let apart = digits acc false cs in
      if is_digit (code_of c)
      then next
      else if after_digit && eqb (code_of c) b'_'
      then apart
      else none

  -- int()
  unfoldable pub number : List A → Option ℤ
  number [] = none
  number (c ∷ cs) =
      if eqb (code_of c) b'-'
      then negated (digits 0 false cs)
      else if eqb (code_of c) b'+'
      then unsigned (digits 0 false cs)
      else unsigned (digits 0 false (c ∷ cs))

abbrev pub chars : String → List Char
chars String.[] = []
chars (String.◌∷◌ c s) = c ∷ chars s

abbrev pub text : List Char → String
text [] = String.[]
text (c ∷ cs) = String.◌∷◌ c (text cs)

unfoldable pub field_as {ℓ κ} : {A : Type ℓ} {B : Type κ} → (A → Option B) → Option A → Option B
field_as f none = none
field_as f (some w) = f w

unfoldable pub with_start : Option (List Char) → Option ℤ → Option (String × ℤ)
with_start (some st) (some start) = some (text st, start)
with_start _ _ = none

unfoldable pub text_fields : List (List Char) → Option (String × ℤ)
text_fields fields = with_start (item 0 fields) (field_as (number code) (item 19 fields))

-- The state and the start time in a stat text, as process_identity_probe reads them.
unfoldable pub text_stat : String → Option (String × ℤ)
text_stat content = elim (after_last code (chars content)) [
  | none ↦ none
  | some tail ↦ text_fields (words code tail)
]

-- What _linux_proc_stat returns.
pub record Stat : Type 0 where
  pub state : ℕ
  pub group : ℤ
  pub start : ℤ

abbrev pub bytes : ℕ → ℕ
bytes b = b

-- fields[0].decode("ascii"), and the test of its length.
unfoldable pub one_letter : List ℕ → Option ℕ
one_letter (c ∷ []) = if ltb c 128 then some c else none
one_letter _ = none

unfoldable pub with_fields : Option ℕ → Option ℤ → Option ℤ → Option Stat
with_fields (some st) (some group) (some start) =
    some (record { state = st; group = group; start = start })
with_fields _ _ _ = none

unfoldable pub stat_fields : List (List ℕ) → Option Stat
stat_fields fields =
    with_fields (field_as one_letter (item 0 fields)) (field_as (number bytes) (item 2 fields))
      (field_as (number bytes) (item 19 fields))

-- _linux_proc_stat; none is its ValueError.
unfoldable pub tail_stat : Option (List ℕ) → Option Stat
tail_stat none = none
tail_stat (some tail) = stat_fields (words bytes tail)

unfoldable pub linux_proc_stat : List ℕ → Option Stat
linux_proc_stat raw = tail_stat (after_last bytes raw)
