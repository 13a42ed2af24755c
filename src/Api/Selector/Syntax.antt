-- ===== src/Api/Selector/Syntax.antt =====
-- The syntax of label selectors, as Kubernetes documents it, read back from what
-- api/src/selector.rs prints: `key=value`, `key!=value`, `key in (a,b)`, `key notin (a,b)`, `key` and
-- `!key`, with commas between.
use mathlib.Core.List.{append_assoc, append-nil}
use kubimo.Common.{
  ℕ, zero, suc, Bool, true, false, not, ◌||◌, ◌≡◌, refl, sym, ap, ◌∙◌, Option, none, some, List, [],
  ◌∷◌, ◌++◌, length, all, and_then, ◌==◌, number_partial_eq, same_number_iff, &&_iff, if◌then◌else◌,
  Bool-cases, inl, inr,
}
use kubimo.Common.Text.{Text, codes, strip_prefix}
use kubimo.Api.Selector.{
  Expression, eq, neq, in_, not_in, exists, not_exists, join_values, print_expression,
  print_selector,
}

-- A character of a key or of a value.
unfoldable pub is_letter : ℕ → Bool
is_letter c = not (c == b',' || c == b'=' || c == b'!' || c == b'(' || c == b')' || c == b' ')

-- The letters that a text starts with, and what comes after them.
word : Text → Text × Text
unfolding is_letter
word [] = ([], [])
word (c ∷ s) = let (w, rest) = word s in if is_letter c then (c ∷ w, rest) else ([], c ∷ s)

-- The values up to the closing parenthesis, and what comes after it.
more_values : List Text × Text → List Text × Text
more_values (values, rest) = ([] ∷ values, rest)

onto : ℕ → List Text × Text → List Text × Text
onto c ([], rest) = ((c ∷ []) ∷ [], rest)
onto c (value ∷ values, rest) = ((c ∷ value) ∷ values, rest)

values_of : Text → Option (List Text × Text)
unfolding more_values onto
values_of [] = none
values_of (c ∷ s) =
    let rest = values_of s in
    if c == b')'
    then some ([] ∷ [], s)
    else if c == b','
    then and_then rest (λ r. some (more_values r))
    else and_then rest (λ r. some (onto c r))

with_values : (List Text → Expression) → Text → Option (Expression × Text)
unfolding values_of
with_values make s = and_then (values_of s) (λ (values, rest). some (make values, rest))

with_word : (Text → Expression) → Text → Option (Expression × Text)
unfolding word
with_word make s = let (w, rest) = word s in some (make w, rest)

after_key : Text × Text → Option (Expression × Text)
unfolding with_values with_word
after_key (key, s) = elim (strip_prefix (codes "!=") s) [
  | some rest ↦ with_word (neq key) rest
  | none ↦ elim (strip_prefix (codes "=") s) [
    | some rest ↦ with_word (eq key) rest
    | none ↦ elim (strip_prefix (codes " in (") s) [
      | some rest ↦ with_values (in_ key) rest
      | none ↦ elim (strip_prefix (codes " notin (") s) [
        | some rest ↦ with_values (not_in key) rest
        | none ↦ some (exists key, s)
      ]
    ]
  ]
]

negated_or : Option Text → Text → Option (Expression × Text)
unfolding after_key
negated_or (some rest) s = with_word not_exists rest
negated_or none s = after_key (word s)

expression_of : Text → Option (Expression × Text)
unfolding negated_or
expression_of s = negated_or (strip_prefix (codes "!") s) s

continue : (Text → Option (List Expression)) → Expression × Text → Option (List Expression)
continue read (e, []) = some (e ∷ [])
continue read (e, c ∷ s) = if c == b',' then and_then (read s) (λ es. some (e ∷ es)) else none

-- At most as many expressions are read.
unfoldable pub read_selector : ℕ → Text → Option (List Expression)
unfolding expression_of continue
read_selector zero s = none
read_selector (suc n) s = and_then (expression_of s) (continue (read_selector n))

abbrev pub Word : Text → Type 0
Word s = all is_letter s ≡ true

abbrev pub Words : List Text → Type 0
Words [] = Unit
Words (s ∷ rest) = Word s × Words rest

-- A key is not empty.
abbrev pub Key : Text → Type 0
Key [] = ⊥
Key (c ∷ s) = Word (c ∷ s)

-- A set of values is not empty.
abbrev pub Set : List Text → Type 0
Set [] = ⊥
Set (v ∷ vs) = Words (v ∷ vs)

abbrev pub WellFormed : Expression → Type 0
WellFormed (eq key value) = Key key × Word value
WellFormed (neq key value) = Key key × Word value
WellFormed (in_ key values) = Key key × Set values
WellFormed (not_in key values) = Key key × Set values
WellFormed (exists key) = Key key
WellFormed (not_exists key) = Key key

abbrev pub AllWellFormed : List Expression → Type 0
AllWellFormed [] = Unit
AllWellFormed (e ∷ es) = WellFormed e × AllWellFormed es

-- The text does not start with a letter.
abbrev Stops : Text → Type 0
Stops [] = Unit
Stops (c ∷ s) = is_letter c ≡ false

word-append : (w s : Text) → Word w → Stops s → word (w ++ s) ≡ (w, s)
unfolding word
word-append [] [] h stops = refl
word-append [] (c ∷ s) h stops = rw stops refl
word-append (c ∷ w) s h stops =
    let (here, rest) = (&&_iff (is_letter c) (all is_letter w)).0 h in
    rw (here, word-append w s rest stops) refl

letter-other : (c sep : ℕ) → is_letter sep ≡ false → is_letter c ≡ true → (c == sep) ≡ false
letter-other c sep n h = elim (Bool-cases (c == sep)) [
  | inl e ↦ cc ((same_number_iff c sep).0 e, n, h)
  | inr e ↦ e
]

values_of-letter :
    (c : ℕ) (s : Text) (r : List Text × Text)
    → is_letter c ≡ true
    → values_of s ≡ some r
    → values_of (c ∷ s) ≡ some (onto c r)
unfolding values_of
values_of-letter c s r h e =
    rw
      (
        letter-other c b')' (unfold is_letter in refl) h,
        letter-other c b',' (unfold is_letter in refl) h,
        e,
      )
      refl

values_of-Word :
    (v s : Text) (values : List Text) (rest : Text)
    → Word v
    → values_of s ≡ some ([] ∷ values, rest)
    → values_of (v ++ s) ≡ some (v ∷ values, rest)
unfolding onto
values_of-Word [] s values rest h e = e
values_of-Word (c ∷ v) s values rest h e =
    let (here, more) = (&&_iff (is_letter c) (all is_letter v)).0 h in
    values_of-letter c (v ++ s) (v ∷ values, rest) here (values_of-Word v s values rest more e)

values_of-join_values :
    (v : Text) (vs : List Text) (rest : Text)
    → Words (v ∷ vs)
    → values_of (join_values (v ∷ vs) ++ b')' ∷ rest) ≡ some (v ∷ vs, rest)
unfolding join_values values_of more_values
values_of-join_values v [] rest (h, _) = values_of-Word v (b')' ∷ rest) [] rest h refl
values_of-join_values v (w ∷ vs) rest (h, more) =
    ap values_of (append_assoc v (b',' ∷ join_values (w ∷ vs)) (b')' ∷ rest))
    ∙ values_of-Word v (b',' ∷ (join_values (w ∷ vs) ++ b')' ∷ rest)) (w ∷ vs) rest h
        (rw (values_of-join_values w vs rest more) refl)

with_values-join_values :
    (make : List Text → Expression) (values : List Text) (rest : Text)
    → Set values
    → with_values make (join_values values ++ b')' ∷ rest) ≡ some (make values, rest)
unfolding with_values
with_values-join_values make [] rest h = absurd h
with_values-join_values make (v ∷ vs) rest h =
    ap (λ o. and_then o (λ (values, after). some (make values, after)))
      (values_of-join_values v vs rest h)

with_word-append :
    (make : Text → Expression) (w s : Text)
    → Word w
    → Stops s
    → with_word make (w ++ s) ≡ some (make w, s)
unfolding with_word
with_word-append make w s h stops = rw (word-append w s h stops) refl

-- Past the expressions there is nothing, or a comma.
abbrev Ends : Text → Type 0
Ends [] = Unit
Ends (c ∷ s) = c ≡ b','

Ends-Stops : (s : Text) → Ends s → Stops s
unfolding is_letter
Ends-Stops [] h = tt
Ends-Stops (c ∷ s) h = rw h refl

no_bang : (c : ℕ) (s : Text) → is_letter c ≡ true → strip_prefix (codes "!") (c ∷ s) ≡ none
no_bang c s h = rw (letter-other c b'!' (unfold is_letter in refl) h) refl

expression_of-Key :
    (key s : Text) → Key key → Stops s → expression_of (key ++ s) ≡ after_key (key, s)
unfolding expression_of
expression_of-Key [] s h stops = absurd h
expression_of-Key (c ∷ key) s h stops =
    ap (λ o. negated_or o ((c ∷ key) ++ s))
      (no_bang c (key ++ s) ((&&_iff (is_letter c) (all is_letter key)).0 h).0)
    ∙ ap after_key (word-append (c ∷ key) s h stops)

after_key-Ends : (key s : Text) → Ends s → after_key (key, s) ≡ some (exists key, s)
unfolding after_key
after_key-Ends key [] h = refl
after_key-Ends key (c ∷ s) h = rw h refl

past_values :
    (key open_ values s : Text)
    → key ++ open_ ++ values ++ codes ")" ++ s ≡ key ++ (open_ ++ (values ++ b')' ∷ s))
past_values key open_ values s =
    append_assoc (key ++ open_ ++ values) (codes ")") s
    ∙ append_assoc (key ++ open_) values (b')' ∷ s)
    ∙ append_assoc key open_ (values ++ b')' ∷ s)

expression_of-print :
    (e : Expression) (s : Text)
    → WellFormed e
    → Ends s
    → expression_of (print_expression e ++ s) ≡ some (e, s)
unfolding print_expression after_key expression_of is_letter
expression_of-print (eq key value) s (k, v) h =
    ap expression_of
      (append_assoc (key ++ codes "=") value s ∙ append_assoc key (codes "=") (value ++ s))
    ∙ expression_of-Key key (codes "=" ++ (value ++ s)) k refl
    ∙ with_word-append (eq key) value s v (Ends-Stops s h)
expression_of-print (neq key value) s (k, v) h =
    ap expression_of
      (append_assoc (key ++ codes "!=") value s ∙ append_assoc key (codes "!=") (value ++ s))
    ∙ expression_of-Key key (codes "!=" ++ (value ++ s)) k refl
    ∙ with_word-append (neq key) value s v (Ends-Stops s h)
expression_of-print (in_ key values) s (k, v) h =
    ap expression_of (past_values key (codes " in (") (join_values values) s)
    ∙ expression_of-Key key (codes " in (" ++ (join_values values ++ b')' ∷ s)) k refl
    ∙ with_values-join_values (in_ key) values s v
expression_of-print (not_in key values) s (k, v) h =
    ap expression_of (past_values key (codes " notin (") (join_values values) s)
    ∙ expression_of-Key key (codes " notin (" ++ (join_values values ++ b')' ∷ s)) k refl
    ∙ with_values-join_values (not_in key) values s v
expression_of-print (exists key) s k h =
    expression_of-Key key s k (Ends-Stops s h) ∙ after_key-Ends key s h
expression_of-print (not_exists key) s k h =
    with_word-append not_exists key s (Key-Word key k) (Ends-Stops s h)
  where
    Key-Word : (key : Text) → Key key → Word key
    Key-Word [] k = absurd k
    Key-Word (c ∷ key) k = k

-- A selector that is not empty, printed, is read back as its expressions by the syntax of Kubernetes,
-- if its keys and sets are not empty and its keys and values have none of the characters that the
-- syntax uses: a comma, `=`, `!`, a parenthesis or a space.
pub read_selector-print_selector :
    (e : Expression) (es : List Expression)
    → AllWellFormed (e ∷ es)
    → read_selector (length (e ∷ es)) (print_selector (e ∷ es)) ≡ some (e ∷ es)
unfolding read_selector print_selector continue
read_selector-print_selector e [] (h, _) =
    ap (λ o. and_then o (continue (read_selector 0)))
      (ap expression_of (sym (append-nil (print_expression e))) ∙ expression_of-print e [] h tt)
read_selector-print_selector e (f ∷ es) (h, more) =
    ap (λ o. and_then o (continue (read_selector (length (f ∷ es)))))
      (expression_of-print e (b',' ∷ print_selector (f ∷ es)) h refl)
    ∙ ap (λ o. and_then o (λ rest. some (e ∷ rest))) (read_selector-print_selector f es more)
