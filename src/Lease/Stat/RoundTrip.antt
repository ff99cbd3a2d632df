-- ===== src/Lease/Stat/RoundTrip.antt =====
-- The fields of a stat file are found behind any name of the program, which the kernel writes in
-- parentheses before them.
use orchestrator_engine.Prelude.{
  ℕ, ◌≡◌, refl, ap, ◌∙◌, ◌≢◌, Bool, true, false, not, ◌&&◌, none, some, List, [], ◌∷◌, ◌++◌, arith,
  All, all, eqb,
}
use orchestrator_engine.Lease.Stat.{
  is_space, after_space, after_last, with_word, cut, words, bytes, stat_fields, tail_stat,
  linux_proc_stat,
}

-- A line of fields, as the kernel writes it: separated by single spaces, with a newline behind them.
abbrev pub join : List (List ℕ) → List ℕ
join [] = 10 ∷ []
join (w ∷ []) = w ++ 10 ∷ []
join (w ∷ v ∷ ws) = w ++ b' ' ∷ join (v ∷ ws)

-- The whole content: the pid, the name in parentheses, the fields behind them, and the newline.
abbrev pub stat_line : (pid comm : List ℕ) → List (List ℕ) → List ℕ
stat_line pid comm fields = pid ++ (b' ' ∷ b'(' ∷ comm ++ (b')' ∷ b' ' ∷ join fields))

-- A byte of a field: no white space, no closing parenthesis.
abbrev pub is_plain : ℕ → Bool
is_plain c = not (is_space c) && not (eqb c b')')

abbrev pub IsField : List ℕ → Type 0
IsField w = (w ≢ []) × (all is_plain w ≡ true)

-- The search for the last parenthesis.
abbrev is_open : ℕ → Bool
is_open c = not (eqb c b')')

after_last-open : (xs : List ℕ) → all is_open xs ≡ true → after_last bytes xs ≡ none
unfolding after_last
after_last-open [] h = refl
after_last-open (x ∷ xs) h = rw (after_last-open xs (ground arith)) (ground arith)

after_last-append :
    (pre xs tail : List ℕ)
    → after_last bytes xs ≡ some tail
    → after_last bytes (pre ++ xs) ≡ some tail
unfolding after_last
after_last-append [] xs tail e = e
after_last-append (p ∷ pre) xs tail e = rw (after_last-append pre xs tail e) refl

after_last-here :
    (tail : List ℕ) → all is_open tail ≡ true → after_last bytes (b')' ∷ b' ' ∷ tail) ≡ some tail
unfolding after_last after_space
after_last-here tail h = rw (after_last-open tail h) refl

-- The words of a line are its fields.
plain_parts :
    (c : ℕ) (rest : Bool) → is_plain c && rest ≡ true → (is_space (bytes c) ≡ false) × (rest ≡ true)
plain_parts c rest h = (ground arith, ground arith)

cut-append :
    (w bs : List ℕ) → all is_plain w ≡ true → cut bytes (w ++ b' ' ∷ bs) ≡ (w, words bytes bs)
unfolding cut words
cut-append [] bs h = refl
cut-append (c ∷ w) bs h =
    let (inside, rest) = plain_parts c (all is_plain w) h in rw (inside, cut-append w bs rest) refl

cut-end : (w : List ℕ) → all is_plain w ≡ true → cut bytes (w ++ 10 ∷ []) ≡ (w, [])
unfolding cut words with_word
cut-end [] h = refl
cut-end (c ∷ w) h =
    let (inside, rest) = plain_parts c (all is_plain w) h in rw (inside, cut-end w rest) refl

words-field : (w : List ℕ) (ws : List (List ℕ)) → w ≢ [] → with_word bytes w ws ≡ w ∷ ws
unfolding with_word
words-field [] ws h = absurd (h refl)
words-field (c ∷ w) ws h = refl

pub words-join : (fields : List (List ℕ)) → All IsField fields → words bytes (join fields) ≡ fields
unfolding words
words-join [] h = unfold cut words with_word in refl
words-join (w ∷ []) ((some_there, plain), h) = rw (cut-end w plain) (words-field w [] some_there)
words-join (w ∷ v ∷ ws) ((some_there, plain), h) =
    rw (cut-append w (join (v ∷ ws)) plain)
      (words-field w _ some_there ∙ ap (◌∷◌ w) (words-join (v ∷ ws) h))

all-append :
    (p : ℕ → Bool) (xs ys : List ℕ) → all p xs ≡ true → all p ys ≡ true → all p (xs ++ ys) ≡ true
all-append p [] ys h k = k
all-append p (x ∷ xs) ys h k = ground (arith, all-append p xs ys)

plain-open : (xs : List ℕ) → all is_plain xs ≡ true → all is_open xs ≡ true
plain-open [] h = refl
plain-open (x ∷ xs) h = ground (arith, plain-open xs)

join-open : (fields : List (List ℕ)) → All IsField fields → all is_open (join fields) ≡ true
join-open [] h = refl
join-open (w ∷ []) ((_, plain), h) = all-append is_open w _ (plain-open w plain) refl
join-open (w ∷ v ∷ ws) ((_, plain), h) =
    all-append is_open w _ (plain-open w plain) (ground (arith, join-open (v ∷ ws) h))

-- Whatever bytes the name of a program has, parentheses and spaces among them, the content that the
-- kernel writes for it is read as the fields behind that name.
pub linux_proc_stat-stat_line :
    (pid comm : List ℕ) (fields : List (List ℕ))
    → All IsField fields
    → linux_proc_stat (stat_line pid comm fields) ≡ stat_fields fields
unfolding linux_proc_stat tail_stat
linux_proc_stat-stat_line pid comm fields h =
    ap tail_stat found ∙ ap stat_fields (words-join fields h)
  where
    found : after_last bytes (stat_line pid comm fields) ≡ some (join fields)
    found = after_last-append pid _ _ (
        after_last-append (b' ' ∷ b'(' ∷ comm) _ _
          (after_last-here (join fields) (join-open fields h)))
