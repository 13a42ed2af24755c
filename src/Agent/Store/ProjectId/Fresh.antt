-- ===== src/Agent/Store/ProjectId/Fresh.antt =====
-- No project id is issued twice.
use kubimo.Agent.Store.ProjectId.Counter.{
  Holds, Sound, issue-ok, Ready, opened-Ready, issued, bytes-padded, checked_next-some,
}
use kubimo.Agent.Store.ProjectId.Recorded.{Below, AllBelow, AllBelow-put}
use kubimo.Common.{
  ℕ, ◌+◌, ◌^◌, ◌<◌, Bool, false, ◌≡◌, refl, sym, ap, ◌∙◌, inl, inr, some, List, [], ◌∷◌, ◌++◌,
  is_some, arith, Bool-cases, Option-cases,
}
use mathlib.Core.Path.{subst}
use kubimo.Common.Result.{ok}
use kubimo.Common.Text.{Text, same_text, codes_partial_eq, same_text_iff, trim}
use kubimo.Common.Text.Decimal.{parse_u32, print_padded, parse-trim_padded}
use kubimo.Agent.Volume.{Store, File, Volume, get_file, put_file, attempt, read, gets, ◌>>=◌}
use kubimo.Agent.Volume.Laws.{get-put_other, get-put_same, bind_parts, attempt-ok}
use kubimo.Agent.Store.Names.{counter_path}
use kubimo.Agent.Store.ProjectId.{
  counter_width, checked_next, recorded_id, next_project_id, overwritten, opened, issue,
  allocate_project_id,
}

padded_end : (n : ℕ) → print_padded counter_width n ++ [] ≡ print_padded counter_width n
unfolding print_padded
padded_end n = refl

AllBelow-put_back :
    (limit : ℕ) (f : File) (fs : List (Text × File))
    → AllBelow limit (put_file counter_path f fs)
    → AllBelow limit fs
unfolding recorded_id
AllBelow-put_back limit f [] b = tt
AllBelow-put_back limit f ((name, g) ∷ fs) b = elim (Bool-cases (same_text name counter_path)) [
  | inl e ↦
      let name_is : counter_path ≡ name = sym ((same_text_iff name counter_path).0 e) in
      let kept : AllBelow limit ((counter_path, f) ∷ fs) = rw e at b in
      (subst (λ t. Below limit (recorded_id (t, g))) name_is tt, kept.1)
  | inr e ↦
      let kept : AllBelow limit ((name, g) ∷ put_file counter_path f fs) = rw e at b in
      (kept.0, AllBelow-put_back limit f fs kept.1)
]

AllBelow-opened :
    (limit : ℕ) (v : Volume) → AllBelow limit (opened v).files → AllBelow limit v.files
unfolding opened
AllBelow-opened limit v b = elim (Option-cases (get_file counter_path v.files)) [
  | inl e ↦ AllBelow-put_back limit _ v.files (rw e at b)
  | inr (f, e) ↦ rw e at b
]

-- For a sound volume, an allocation that succeeds gives an id that is past every id recorded on the
-- volume before it and after it, below the largest u32; and the counter, at most ten bytes wide, then
-- reads one more.
pub allocate_fresh :
    (v w : Volume) (n : ℕ)
    → Sound v.files
    → allocate_project_id v ≡ (ok n, w)
    → (n + 1 < 2 ^ 32)
      × AllBelow n v.files
      × AllBelow n w.files
      × ((raw : Text) × Holds w.files raw × (parse_u32 (trim raw) ≡ some (n + 1)))
unfolding allocate_project_id
allocate_fresh v w n sound h =
    let existed : Bool = is_some (get_file counter_path v.files) in
    let (_, done, rest) =
      bind_parts (attempt "opening project id counter" opened)
        (λ _. read "reading project id counter" counter_path >>= λ raw.
          gets (λ u. next_project_id existed u.files raw) >>= λ next.
          issue raw next (checked_next next))
        v w n h in
    let v' : Volume = (attempt "opening project id counter" opened v).1 in
    let (files, _) = attempt-ok "opening project id counter" opened v v' (ap (λ r. (r, v')) done) in
    let ready = subst (λ fs. Ready existed fs) (sym files) (opened-Ready v sound) in
    let (small, below, put) = issued existed v' w n ready rest in
    let counter : File = record {
      content = some (print_padded counter_width (n + 1) ++ []);
      modified = v'.clock;
    } in
    (
      small,
      AllBelow-opened n v (subst (λ fs. AllBelow n fs) files below),
      subst (λ fs. AllBelow n fs) (sym put) (AllBelow-put n counter v'.files below),
      (
        print_padded counter_width (n + 1),
        record {
          file = counter;
          found = ap (get_file counter_path) put ∙ get-put_same counter_path counter v'.files;
          content = ap some (padded_end (n + 1));
          width = omega (arith, bytes-padded counter_width (n + 1));
        },
        parse-trim_padded (n + 1) small,
      ),
    )

-- An id that is allocated is a u32.
pub allocate-small : (v w : Volume) (n : ℕ) → allocate_project_id v ≡ (ok n, w) → n < 2 ^ 32
unfolding allocate_project_id
allocate-small v w n h =
    let existed : Bool = is_some (get_file counter_path v.files) in
    let give : Text → Store ℕ = λ raw. gets (λ u. next_project_id existed u.files raw) >>= λ next.
    issue raw next (checked_next next) in
    let (_, _, rest) =
      bind_parts (attempt "opening project id counter" opened)
        (λ _. read "reading project id counter" counter_path >>= give) v w n h in
    let v' : Volume = (attempt "opening project id counter" opened v).1 in
    let (raw, _, last) =
      bind_parts (read "reading project id counter" counter_path) give v' w n rest in
    let v'' : Volume = (read "reading project id counter" counter_path v').1 in
    let next : ℕ = next_project_id existed v''.files raw in
    let (following, e, same, _, _) = issue-ok raw next (checked_next next) v'' w n last in
    let (_, bound) = checked_next-some next following e in omega (arith, bound, same)

opened-other :
    (name : Text) (v : Volume)
    → same_text counter_path name ≡ false
    → (get_file name (opened v).files ≡ get_file name v.files) × ((opened v).slots ≡ v.slots)
unfolding opened
opened-other name v h = elim (Bool-cases (is_some (get_file counter_path v.files))) [
  | inl e ↦ rw e (refl, refl)
  | inr e ↦
      let file : File = record { content = some []; modified = v.clock } in
      rw e (get-put_other counter_path name file v.files h, refl)
]

overwritten-other :
    (name raw body : Text) (v : Volume)
    → same_text counter_path name ≡ false
    → get_file name (overwritten raw body v).files ≡ get_file name v.files
unfolding overwritten
overwritten-other name raw body v h = get-put_other counter_path name _ v.files h

-- An allocation touches no file but the counter.
pub allocate-other :
    (name : Text) (v w : Volume) (n : ℕ)
    → same_text counter_path name ≡ false
    → allocate_project_id v ≡ (ok n, w)
    → (get_file name w.files ≡ get_file name v.files) × (w.slots ≡ v.slots)
unfolding allocate_project_id read
allocate-other name v w n apart h =
    let existed : Bool = is_some (get_file counter_path v.files) in
    let give : Text → Store ℕ = λ raw. gets (λ u. next_project_id existed u.files raw) >>= λ next.
    issue raw next (checked_next next) in
    let (_, done, rest) =
      bind_parts (attempt "opening project id counter" opened)
        (λ _. read "reading project id counter" counter_path >>= give) v w n h in
    let v' : Volume = (attempt "opening project id counter" opened v).1 in
    let (files, slots) =
      attempt-ok "opening project id counter" opened v v' (ap (λ r. (r, v')) done) in
    let (raw, _, last) =
      bind_parts (read "reading project id counter" counter_path) give v' w n rest in
    let v'' : Volume = (read "reading project id counter" counter_path v').1 in
    let next : ℕ = next_project_id existed v''.files raw in
    let (following, _, _, files', slots') = issue-ok raw next (checked_next next) v'' w n last in
    let (file, dirs) = opened-other name v apart in
    (
      ap (get_file name) files'
          ∙ overwritten-other name raw (print_padded counter_width following) v'' apart
          ∙ ap (get_file name) files
          ∙ file,
      slots' ∙ slots ∙ dirs,
    )
