-- ===== src/Agent/Store/ProjectId/Counter.antt =====
-- What the counter of project ids gives, and what it holds after a write.
use kubimo.Agent.Store.ProjectId.Recorded.{AllBelow, AllBelow-le, AllBelow-put, highest_lem}
use kubimo.Common.{
  ℕ, zero, suc, ◌+◌, ◌-◌, ◌/◌, ◌%◌, ◌^◌, ◌≤◌, ◌<◌, Bool, true, false, ◌≡◌, refl, sym, ap, ◌∙◌, inl,
  inr, Option, none, some, List, [], ◌∷◌, ◌++◌, length, is_some, and_then, arith, ltb, leb,
  unwrap_or, length-append,
}
use mathlib.Core.Path.{subst}
use kubimo.Common.Result.{ok, ok_or}
use kubimo.Common.Text.{Text, codes_partial_eq, as_bytes, utf8, trim, trim_end}
use kubimo.Common.Text.Decimal.{parse_u32, print_padded}
use kubimo.Agent.Volume.{File, Volume, io, get_file, put_file, attempt, read, gets, ◌>>=◌}
use kubimo.Agent.Volume.Laws.{get-put_same, bind_parts, attempt-ok}
use kubimo.Agent.Store.Names.{counter_path}
use kubimo.Agent.Store.ProjectId.{
  first_project_id, counter_width, checked_next, highest_issued_project_id, next_of,
  next_project_id, drop_bytes, overwritten, opened, issue,
}

-- The counter is a file of at most ten bytes, as the agent writes it.
pub record Holds (files : List (Text × File)) (raw : Text) : Type 0 where
  pub file : File
  pub found : get_file counter_path files ≡ some file
  pub content : file.content ≡ some raw
  pub width : length (as_bytes raw) ≤ counter_width

-- The counter is past all recorded ids, or missing while there are none, or torn.
pub data Sound (files : List (Text × File)) : Type 0 where
  counting :
      (raw : Text) (n : ℕ)
      → Holds files raw
      → parse_u32 (trim raw) ≡ some n
      → AllBelow n files
      → Sound files
  missing : get_file counter_path files ≡ none → AllBelow 0 files → Sound files
  torn :
      (raw : Text)
      → Holds files raw
      → parse_u32 (trim raw) ≡ none
      → AllBelow (2 ^ 32 - 1) files
      → Sound files

utf8-pos : (c : ℕ) → 0 < length (utf8 c)
utf8-pos c = ground arith

-- A text within the width is written over as a whole.
drop_bytes-all : (s : Text) (k : ℕ) → length (as_bytes s) ≤ k → drop_bytes k s ≡ some []
unfolding drop_bytes as_bytes
drop_bytes-all [] zero h = refl
drop_bytes-all [] (suc k) h = refl
drop_bytes-all (c ∷ s) zero h =
    absurd (omega (arith, h, utf8-pos c, length-append (utf8 c) (as_bytes s)))
drop_bytes-all (c ∷ s) (suc k) h =
    let sum = length-append (utf8 c) (as_bytes s) in
    let fits : leb (length (utf8 c)) (suc k) ≡ true = ground (arith, h, sum) in
    rw fits (drop_bytes-all s (suc k - length (utf8 c)) (omega (arith, h, sum)))

pub bytes-padded : (w n : ℕ) → length (as_bytes (print_padded w n)) ≡ w
unfolding as_bytes print_padded
bytes-padded zero n = refl
bytes-padded (suc w) n =
    let ascii : ltb (b'0' + n / 10 ^ w % 10) 0x80 ≡ true = ground arith in
    rw ascii (ap suc (bytes-padded w n))

pub issue-ok :
    (raw : Text) (next : ℕ) (o : Option ℕ) (v w : Volume) (n : ℕ)
    → issue raw next o v ≡ (ok n, w)
    → (following : ℕ) × (o ≡ some following)
      × (next ≡ n)
      × (w.files ≡ (overwritten raw (print_padded counter_width following) v).files)
      × (w.slots ≡ v.slots)
unfolding issue
issue-ok raw next none v w n h = absurd (cc (ap (λ p. p.0) h))
issue-ok raw next (some following) v w n h =
    let change = overwritten raw (print_padded counter_width following) in
    let (_, done, last) =
      bind_parts (attempt "writing project id counter" change) (λ _ u. (ok next, u)) v w n h in
    let made = attempt-ok "writing project id counter" change v w (
      ap (λ r. (r, (attempt "writing project id counter" change v).1)) done
      ∙ ap (λ p. (ok tt, p.1)) last) in
    (following, refl, cc (ap (λ p. p.0) last), made.0, made.1)

-- The counter after a write, if what was there is no wider.
rewritten :
    (raw : Text) (n : ℕ) (v : Volume)
    → length (as_bytes raw) ≤ counter_width
    → (overwritten raw (print_padded counter_width n) v).files
      ≡ put_file counter_path
          (record { content = some (print_padded counter_width n ++ []); modified = v.clock })
          v.files
unfolding overwritten
rewritten raw n v h =
    let width : length (as_bytes (print_padded counter_width n)) ≡ counter_width =
      bytes-padded counter_width n in
    let cut : drop_bytes (length (as_bytes (print_padded counter_width n))) raw ≡ some [] =
      ap (λ k. drop_bytes k raw) width ∙ drop_bytes-all raw counter_width h in
    ap
      (λ o.
        put_file counter_path
          (record {
            content = and_then o (λ rest. some (print_padded counter_width n ++ rest));
            modified = v.clock;
          })
          v.files)
      cut

pub checked_next-some : (n m : ℕ) → checked_next n ≡ some m → (m ≡ n + 1) × (n + 1 < 2 ^ 32)
unfolding checked_next
checked_next-some n m h = (ground (arith, h), ground (arith, h))

next-counted :
    (existed : Bool) (files : List (Text × File)) (raw : Text) (n : ℕ)
    → parse_u32 (trim raw) ≡ some n
    → next_project_id existed files raw ≡ n
unfolding next_project_id next_of
next-counted existed files raw n p =
    ap (λ o. next_of existed o (and_then (highest_issued_project_id files) checked_next)) p

next-first : (files : List (Text × File)) → next_project_id false files [] ≡ first_project_id
unfolding next_project_id next_of parse_u32 trim_end
next-first files = refl

next-torn :
    (files : List (Text × File)) (raw : Text)
    → parse_u32 (trim raw) ≡ none
    → AllBelow (2 ^ 32 - 1) files
    → AllBelow (next_project_id true files raw) files
unfolding next_project_id next_of checked_next
next-torn files raw p b =
    let value =
      ap (λ o. next_of true o (and_then (highest_issued_project_id files) checked_next)) p in
    elim (highest_lem files (2 ^ 32 - 1) b) [
      | inl (e, none_issued) ↦
          let first = value ∙ ap (λ h. unwrap_or (and_then h checked_next) first_project_id) e in
          subst (λ k. AllBelow k files) (sym first)
            (AllBelow-le files 0 1000 (omega arith) none_issued)
      | inr (m, e, lt, below) ↦
          let small : checked_next m ≡ some (m + 1) = ground arith in
          let recovered =
            value
            ∙ ap (λ h. unwrap_or (and_then h checked_next) first_project_id) e
            ∙ ap (λ o. unwrap_or o first_project_id) small in
          subst (λ k. AllBelow k files) (sym recovered) below
    ]

-- The text of the counter once it is open, and that the id it gives is past all that are recorded.
pub record Ready (existed : Bool) (files : List (Text × File)) : Type 0 where
  raw : Text
  held : Holds files raw
  past : AllBelow (next_project_id existed files raw) files

pub opened-Ready :
    (v : Volume) → Sound v.files → Ready (is_some (get_file counter_path v.files)) (opened v).files
unfolding opened
opened-Ready v (counting raw n held p b) =
    let found = ap is_some held.found in
    rw held.found (record {
      raw = raw;
      held = held;
      past = subst (λ k. AllBelow k v.files) (sym (next-counted true v.files raw n p)) b;
    })
opened-Ready v (torn raw held p b) =
    rw held.found (record { raw = raw; held = held; past = next-torn v.files raw p b })
opened-Ready v (missing e b) =
    let file : File = record { content = some []; modified = v.clock } in
    rw e (record {
      raw = [];
      held = record {
        file = file;
        found = get-put_same counter_path file v.files;
        content = refl;
        width = (unfold as_bytes in omega arith);
      };
      past =
          subst (λ k. AllBelow k (put_file counter_path file v.files))
            (sym (next-first (put_file counter_path file v.files)))
            (AllBelow-le (put_file counter_path file v.files) 0 1000 (omega arith)
              (AllBelow-put 0 file v.files b));
    })

-- The rest of an allocation, once the counter is open.
pub issued :
    (existed : Bool) (v w : Volume) (n : ℕ)
    → Ready existed v.files
    → (read "reading project id counter" counter_path >>= λ raw.
          gets (λ u. next_project_id existed u.files raw) >>= λ next.
          issue raw next (checked_next next))
        v
      ≡ (ok n, w)
    → (n + 1 < 2 ^ 32)
      × AllBelow n v.files
      × (w.files
          ≡ put_file counter_path
              (record {
                content = some (print_padded counter_width (n + 1) ++ []);
                modified = v.clock;
              })
              v.files)
unfolding read
issued existed v w n ready h =
    let held = ready.held in
    let text : and_then (get_file counter_path v.files) (λ f. f.content) ≡ some ready.raw =
      ap (λ o. and_then o (λ f. f.content)) held.found ∙ held.content in
    let (raw, got, rest) =
      bind_parts (read "reading project id counter" counter_path)
        (λ raw. gets (λ u. next_project_id existed u.files raw) >>= λ next.
          issue raw next (checked_next next))
        v w n h in
    let same : raw ≡ ready.raw =
      cc (sym got ∙ ap (λ o. ok_or o (io "reading project id counter")) text) in
    let (following, e, next, files, _) =
      issue-ok raw (next_project_id existed v.files raw)
        (checked_next (next_project_id existed v.files raw)) v w n rest in
    let (value, bound) = checked_next-some (next_project_id existed v.files raw) following e in
    let after : following ≡ n + 1 = value ∙ ap (λ k. k + 1) next in
    let narrow = subst (λ t. length (as_bytes t) ≤ counter_width) (sym same) held.width in
    (
      subst (λ k. k + 1 < 2 ^ 32) next bound,
      subst (λ k. AllBelow k v.files) (ap (next_project_id existed v.files) (sym same) ∙ next)
          ready.past,
      files
          ∙ rewritten raw following v narrow
          ∙ ap
              (λ k.
                put_file counter_path
                  (record {
                    content = some (print_padded counter_width k ++ []);
                    modified = v.clock;
                  })
                  v.files)
              after,
    )
