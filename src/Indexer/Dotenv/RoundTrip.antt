-- ===== src/Indexer/Dotenv/RoundTrip.antt =====
-- A `.env` that is written is read back: indexer/src/secrets.rs.
use mathlib.Core.List.{append_assoc, append-nil}
use mathlib.Core.Path.{subst}
use kubimo.Common.{
  ℕ, Bool, true, false, ◌≡◌, refl, sym, ap, ◌∙◌, Option, none, some, List, [], ◌∷◌, ◌++◌, any,
  and_then, unwrap_or, ◌==◌, number_partial_eq, same_number_iff, if◌then◌else◌, Bool-cases, inl,
  inr,
}
use kubimo.Common.Text.{
  Text, codes, same_text, strip_prefix, split_once, trim, trim_start, trim_end, is_whitespace,
  Solid, trim-Solid,
}
use kubimo.Common.Text.Lines.{lines, OneLine, lines-first}
use kubimo.Indexer.Dotenv.{
  quote, unescape, escape, split_last, inner, unquote, starts_comment, is_blank, pair_of, entry_of,
  put, add_line, add_lines, parse_dotenv, rendered_line, render_dotenv,
}

escape-head :
    (c : ℕ) (s : Text) → (c == quote) ≡ false → unescape (c ∷ escape s) ≡ c ∷ unescape (escape s)
unfolding escape unescape
escape-head c [] h = refl
escape-head c (d ∷ s) h = elim (Bool-cases (d == quote)) [
  | inl e ↦ rw e refl
  | inr e ↦ rw (e, e) refl
]

unescape-escape : (s : Text) → unescape (escape s) ≡ s
unfolding escape unescape
unescape-escape [] = refl
unescape-escape (c ∷ s) = elim (Bool-cases (c == quote)) [
  | inl e ↦ rw (e, unescape-escape s) (ap (λ x. x ∷ s) (sym ((same_number_iff c quote).0 e)))
  | inr e ↦ rw e (escape-head c s e ∙ ap (λ t. c ∷ t) (unescape-escape s))
]

trim_end-snoc :
    (s : Text) (c : ℕ) → is_whitespace c ≡ false → trim_end (s ++ (c ∷ [])) ≡ s ++ (c ∷ [])
unfolding trim_end
trim_end-snoc [] c h = rw h refl
trim_end-snoc (d ∷ []) c h = rw h refl
trim_end-snoc (d ∷ e ∷ s) c h = rw (trim_end-snoc (e ∷ s) c h) refl

split_last-snoc : (c : ℕ) (s : Text) (d : ℕ) → split_last c (s ++ (d ∷ [])) ≡ (c ∷ s, d)
unfolding split_last
split_last-snoc c [] d = refl
split_last-snoc c (e ∷ s) d = rw (split_last-snoc e s d) refl

-- A value between quotes.
quoted : Text → Text
quoted value = quote ∷ (escape value ++ (quote ∷ []))

unquote-quoted : (value : Text) → unquote (quoted value) ≡ value
unfolding quoted unquote inner
unquote-quoted value = shape (escape value) (unescape-escape value)
  where
    shape : (s : Text) → unescape s ≡ value → unquote (quote ∷ (s ++ (quote ∷ []))) ≡ value
    shape [] h = h
    shape (d ∷ s) h = rw (split_last-snoc d s quote) h

trim-quoted : (value : Text) → trim (quoted value) ≡ quoted value
unfolding quoted is_whitespace
trim-quoted value = trim_end-snoc (quote ∷ escape value) quote refl

-- The name of a variable: a word with no equals sign that does not start a comment.
abbrev pub IsKey : Text → Type 0
IsKey [] = ⊥
IsKey (c ∷ s) = ((c == b'#') ≡ false) × Solid (c ∷ s) × (any (λ d. d == b'=') (c ∷ s) ≡ false)

split_once-key :
    (key value : Text)
    → any (λ c. c == b'=') key ≡ false
    → split_once b'=' (key ++ (b'=' ∷ value)) ≡ some (key, value)
split_once-key [] value h = refl
split_once-key (c ∷ key) value h = elim (Bool-cases (c == b'=')) [
  | inl e ↦ cc (rw e at h)
  | inr e ↦ rw (e, split_once-key key value (rw e at h)) refl
]

any-is_whitespace : (s : Text) → Solid s → any is_whitespace s ≡ false
any-is_whitespace [] h = refl
any-is_whitespace (c ∷ s) (h, k) = rw h (any-is_whitespace s k)

other-is_whitespace :
    (blank c : ℕ) → is_whitespace blank ≡ true → is_whitespace c ≡ false → (c == blank) ≡ false
other-is_whitespace blank c b h = elim (Bool-cases (c == blank)) [
  | inl e ↦ cc ((same_number_iff c blank).0 e, b, h)
  | inr e ↦ e
]

if-none {ℓ} : {A : Type ℓ} (b : Bool) (x : Option A) → x ≡ none → (if b then x else none) ≡ none
if-none true x h = h
if-none false x h = refl

no_export :
    (p key value : Text)
    → Solid key
    → any (λ c. b'=' == c) p ≡ false
    → strip_prefix (p ++ (b' ' ∷ [])) (key ++ (b'=' ∷ value)) ≡ none
no_export [] [] value h n = refl
no_export [] (c ∷ key) value (h, k) n =
    rw (other-is_whitespace b' ' c (unfold is_whitespace in refl) h) refl
no_export (q ∷ p) [] value h n = elim (Bool-cases (b'=' == q)) [
  | inl e ↦ cc (rw e at n)
  | inr e ↦ rw e refl
]
no_export (q ∷ p) (c ∷ key) value (h, k) n = elim (Bool-cases (b'=' == q)) [
  | inl e ↦ cc (rw e at n)
  | inr e ↦ if-none (c == q) _ (no_export p key value k (rw e at n))
]

pair_of-rendered :
    (c : ℕ) (s value : Text) → IsKey (c ∷ s) → pair_of (c ∷ s, quoted value) ≡ some (c ∷ s, value)
unfolding pair_of is_blank
pair_of-rendered c s value (_, solid, _) =
    rw
      (
        trim-Solid (c ∷ s) solid,
        any-is_whitespace (c ∷ s) solid,
        trim-quoted value,
        unquote-quoted value,
      )
      refl

trim_start-word : (c : ℕ) (s : Text) → is_whitespace c ≡ false → trim_start (c ∷ s) ≡ c ∷ s
trim_start-word c s h = rw h refl

-- A line that starts with a character and ends with a quote has nothing to trim.
trim-ended :
    (c : ℕ) (s value : Text)
    → is_whitespace c ≡ false
    → trim ((c ∷ s) ++ (b'=' ∷ quoted value)) ≡ (c ∷ s) ++ (b'=' ∷ quoted value)
unfolding quoted
trim-ended c s value h =
    ap trim_end (trim_start-word c _ h)
    ∙ subst (λ t. trim_end t ≡ t) (append_assoc (c ∷ s) (b'=' ∷ quote ∷ escape value) (quote ∷ []))
        (trim_end-snoc ((c ∷ s) ++ (b'=' ∷ quote ∷ escape value)) quote
          (unfold is_whitespace in refl))

entry_of-word :
    (c : ℕ) (s v : Text) → IsKey (c ∷ s) → entry_of ((c ∷ s) ++ (b'=' ∷ v)) ≡ pair_of (c ∷ s, v)
unfolding entry_of starts_comment
entry_of-word c s v (n, (h, solid), e) = rw n (
    ap (λ o. and_then (split_once b'=' (trim_start (unwrap_or o ((c ∷ s) ++ (b'=' ∷ v))))) pair_of)
      (no_export (codes "export") (c ∷ s) v (h, solid) refl)
    ∙ ap (λ t. and_then (split_once b'=' t) pair_of) (trim_start-word c _ h)
    ∙ ap (λ o. and_then o pair_of) (split_once-key (c ∷ s) v e))

entry_of-rendered :
    (key value : Text) → IsKey key → entry_of (trim (rendered_line key value)) ≡ some (key, value)
unfolding rendered_line quoted
entry_of-rendered [] value h = absurd h
entry_of-rendered (c ∷ s) value k =
    ap entry_of (trim-ended c s value k.1.0)
    ∙ entry_of-word c s (quoted value) k
    ∙ pair_of-rendered c s value k

append-OneLine : (s t : Text) → OneLine s → OneLine t → OneLine (s ++ t)
append-OneLine [] t h k = k
append-OneLine (c ∷ s) t (n, r, h) k = (n, r, append-OneLine s t h k)

escape-OneLine : (s : Text) → OneLine s → OneLine (escape s)
unfolding escape
escape-OneLine [] h = tt
escape-OneLine (c ∷ s) (n, r, h) = elim (Bool-cases (c == quote)) [
  | inl e ↦ rw e (refl, refl, (refl, refl, escape-OneLine s h))
  | inr e ↦ rw e (n, r, escape-OneLine s h)
]

Solid-OneLine : (s : Text) → Solid s → OneLine s
Solid-OneLine [] h = tt
Solid-OneLine (c ∷ s) (h, k) = (
  other-is_whitespace b'\n' c (unfold is_whitespace in refl) h,
  other-is_whitespace b'\r' c (unfold is_whitespace in refl) h,
  Solid-OneLine s k,
)

key-OneLine : (key : Text) → IsKey key → OneLine key
key-OneLine [] h = absurd h
key-OneLine (c ∷ s) (_, solid, _) = Solid-OneLine (c ∷ s) solid

rendered-OneLine :
    (key value : Text) → IsKey key → OneLine value → OneLine (rendered_line key value)
unfolding rendered_line
rendered-OneLine key value k v = append-OneLine key _ (key-OneLine key k) (
  refl,
  refl,
  (refl, refl, append-OneLine (escape value) _ (escape-OneLine value v) (refl, refl, tt)),
)

-- Every variable has a name and a value in one line.
abbrev pub Writable : List (Text × Text) → Type 0
Writable [] = Unit
Writable ((key, value) ∷ entries) = IsKey key × OneLine value × Writable entries

-- No name stands in the earlier variables or twice in these.
abbrev pub Distinct : List (Text × Text) → List (Text × Text) → Type 0
Distinct earlier [] = Unit
Distinct earlier ((key, value) ∷ entries) =
    (any (λ (other, _). same_text other key) earlier ≡ false)
    × Distinct (earlier ++ ((key, value) ∷ [])) entries

put-fresh :
    (key value : Text) (earlier : List (Text × Text))
    → any (λ (other, _). same_text other key) earlier ≡ false
    → put key value earlier ≡ earlier ++ ((key, value) ∷ [])
unfolding put
put-fresh key value [] h = refl
put-fresh key value ((other, v) ∷ earlier) h = elim (Bool-cases (same_text other key)) [
  | inl e ↦ cc (rw e at h)
  | inr e ↦ rw (e, put-fresh key value earlier (rw e at h)) refl
]

add_lines-render :
    (earlier entries : List (Text × Text))
    → Writable entries
    → Distinct earlier entries
    → add_lines earlier (lines (render_dotenv entries)) ≡ earlier ++ entries
unfolding add_lines add_line render_dotenv lines
add_lines-render earlier [] w d = sym (append-nil earlier)
add_lines-render earlier ((key, value) ∷ entries) (k, v, w) (fresh, d) =
    ap (add_lines earlier) (
      lines-first (rendered_line key value) (render_dotenv entries)
        (rendered-OneLine key value k v))
    ∙ ap (λ o. add_lines (add_line earlier o) (lines (render_dotenv entries)))
        (entry_of-rendered key value k)
    ∙ ap (λ es. add_lines es (lines (render_dotenv entries))) (put-fresh key value earlier fresh)
    ∙ add_lines-render (earlier ++ ((key, value) ∷ [])) entries w d
    ∙ append_assoc earlier ((key, value) ∷ []) entries

-- What is written for variables with different names, each a word with no equals sign that does not
-- start a comment, and with values in one line, is read back as those variables, in their order.
pub parse_dotenv-render_dotenv :
    (entries : List (Text × Text))
    → Writable entries
    → Distinct [] entries
    → parse_dotenv (render_dotenv entries) ≡ entries
unfolding parse_dotenv
parse_dotenv-render_dotenv entries w d = add_lines-render [] entries w d
