-- ===== src/Agent/Csi/Watchers/Tracked.antt =====
-- The sync tasks that run and the watchers that have them: agent/src/csi.rs.
use kubimo.Common.{
  ℕ, ◌≡◌, refl, sym, ap, ◌∙◌, String, Bool, true, false, not, Option, none, some, List, [], ◌∷◌,
  filter, any, ◌⊎◌, inl, inr, Bool-cases, Option-cases, ◌==◌, number_partial_eq, same_number_iff,
}
use kubimo.Common.Result.{Result, ok, err}
use kubimo.Common.Text.{Text, same_text, same_text_iff, codes_partial_eq}
use kubimo.Agent.Slot.{SlotId}
use kubimo.Agent.Csi.Keyed.{
  get, insert, remove, get-insert_same, get-insert_other, get-remove_other,
}
use kubimo.Agent.Csi.Node.{
  Watcher, ArchiveLocation, Action, spawn_watcher, Config, State, Answers, s3_for, slot_key,
}
use kubimo.Agent.Csi.Watchers.{
  drop_volume, abort, spawn, join, register, spawned_as, ensure_task, start_watcher, leave,
  stop_watcher,
}

-- The task is one of those.
abbrev pub Among : ℕ → List ℕ → Type 0
Among h tasks = any (λ t. t == h) tasks ≡ true

-- The workspace's watcher has the task.
abbrev pub Owns : Text → ℕ → State → Type 0
Owns key h s = (watcher : Watcher) × (get key s.watchers ≡ some watcher) × (watcher.handle ≡ h)

-- Every task that runs is that of the watcher of some workspace, or has just been begun.
abbrev pub Tracked : List ℕ → State → Type 0
Tracked begun s = (h : ℕ) → Among h s.tasks → ((key : Text) × Owns key h s) ⊎ Among h begun

Among-later : (h t : ℕ) (tasks : List ℕ) → Among h tasks → Among h (t ∷ tasks)
Among-later h t tasks a = elim (Bool-cases (t == h)) [ inl e ↦ rw e refl | inr e ↦ rw e a ]

Among-filter :
    (h x : ℕ) (tasks : List ℕ)
    → Among h (filter (λ t. not (t == x)) tasks)
    → Among h tasks × ((x == h) ≡ false)
Among-filter h x [] a = cc
Among-filter h x (t ∷ tasks) a = elim (Bool-cases (t == x)) [
  | inl e ↦ let (b, n) = Among-filter h x tasks (rw e at a) in (Among-later h t tasks b, n)
  | inr e ↦ elim (Bool-cases (t == h)) [
    | inl f ↦ (rw f refl, ap (λ y. x == y) (sym ((same_number_iff t h).0 f)) ∙ apart x t e)
    | inr f ↦ let (b, n) = Among-filter h x tasks (rw (e, f) at a) in (Among-later h t tasks b, n)
  ]
]
  where
    apart : (x t : ℕ) → (t == x) ≡ false → (x == t) ≡ false
    apart x t e = elim (Bool-cases (x == t)) [
      | inl f ↦ cc ((same_number_iff t x).1 (sym ((same_number_iff x t).0 f)), e)
      | inr f ↦ f
    ]

abort-Tracked :
    (x : ℕ) (begun : List ℕ) (s : State) → Tracked (x ∷ begun) s → Tracked begun (abort x s)
unfolding abort
abort-Tracked x begun s tracked h a =
    let (b, n) = Among-filter h x s.tasks a in
    elim (tracked h b) [ inl owned ↦ inl owned | inr c ↦ inr (rw n at c) ]

-- A watcher that is replaced by one with the same task, or put in where there was none, takes no task
-- from the others.
insert-Owns :
    (key other : Text) (h : ℕ) (watcher : Watcher) (s : State)
    → ((w : Watcher) → get key s.watchers ≡ some w → watcher.handle ≡ w.handle)
    → Owns other h s
    → Owns other h (record s { watchers = insert key watcher s.watchers })
insert-Owns key other h watcher s keeps (w, f, same) = elim (Bool-cases (same_text key other)) [
  | inl k ↦ (
    watcher,
    rw k refl,
    keeps w (ap (λ t. get t s.watchers) ((same_text_iff key other).0 k) ∙ f) ∙ same,
  )
  | inr k ↦ (w, get-insert_other key other watcher s.watchers k ∙ f, same)
]

insert-Tracked :
    (key : Text) (watcher : Watcher) (begun : List ℕ) (s : State)
    → ((w : Watcher) → get key s.watchers ≡ some w → watcher.handle ≡ w.handle)
    → Tracked (watcher.handle ∷ begun) s
    → Tracked begun (record s { watchers = insert key watcher s.watchers })
insert-Tracked key watcher begun s keeps tracked h a = elim (tracked h a) [
  | inl (other, owned) ↦ inl (other, insert-Owns key other h watcher s keeps owned)
  | inr c ↦ elim (Bool-cases (watcher.handle == h)) [
    | inl e ↦
        inl (key, (watcher, get-insert_same key watcher s.watchers, (same_number_iff _ _).0 e))
    | inr e ↦ inr (rw e at c)
  ]
]

some-same : (v w : Watcher) → some v ≡ some w → v.handle ≡ w.handle
some-same v w e = ap handle_of e
  where
    handle_of : Option Watcher → ℕ
    handle_of none = v.handle
    handle_of (some u) = u.handle

update-Tracked :
    (key : Text) (watcher : Watcher) (volumes : List Text) (begun : List ℕ) (s : State)
    → get key s.watchers ≡ some watcher
    → Tracked begun s
    → Tracked begun
        (record s { watchers = insert key (record watcher { volumes = volumes }) s.watchers })
update-Tracked key watcher volumes begun s e tracked h a = elim (tracked h a) [
  | inl (other, owned) ↦
      inl (other, insert-Owns key other h _ s (λ w f. some-same watcher w (sym e ∙ f)) owned)
  | inr c ↦ inr c
]

join-Tracked :
    (key volume : Text) (watcher : Watcher) (begun : List ℕ) (s : State)
    → get key s.watchers ≡ some watcher
    → Tracked begun s
    → Tracked begun (join key volume watcher s)
unfolding join
join-Tracked key volume watcher begun s e = update-Tracked key watcher _ begun s e

register-Tracked :
    (key volume : Text) (x : ℕ) (begun : List ℕ) (s : State)
    → Tracked (x ∷ begun) s
    → Tracked begun (register key volume x s)
unfolding register
register-Tracked key volume x begun s tracked = elim (Option-cases (get key s.watchers)) [
  | inl e ↦ rw (e, register) (insert-Tracked key _ begun s (λ w f. cc (e, f)) tracked)
  | inr (watcher, e) ↦
      rw (e, register)
        (abort-Tracked x begun (join key volume watcher s)
          (join-Tracked key volume watcher (x ∷ begun) s e tracked))
]

spawn-Tracked :
    (begun : List ℕ) (s : State) → Tracked begun s → Tracked (s.spawned ∷ begun) (spawn s)
unfolding spawn
spawn-Tracked begun s tracked h a = elim (Bool-cases (s.spawned == h)) [
  | inl e ↦ inr (rw e refl)
  | inr e ↦ elim (tracked h (rw e at a)) [ inl owned ↦ inl owned | inr c ↦ inr (rw e c) ]
]

-- The watcher that is removed leaves its task behind.
remove-Tracked :
    (key : Text) (watcher : Watcher) (begun : List ℕ) (s : State)
    → get key s.watchers ≡ some watcher
    → Tracked begun s
    → Tracked (watcher.handle ∷ begun) (record s { watchers = remove key s.watchers })
remove-Tracked key watcher begun s e tracked h a = elim (tracked h a) [
  | inl (other, (w, f, same)) ↦ elim (Bool-cases (same_text key other)) [
    | inl k ↦
        let own =
          some-same watcher w
            (sym e ∙ ap (λ t. get t s.watchers) ((same_text_iff key other).0 k) ∙ f)
          ∙ same in
        inr (rw ((same_number_iff watcher.handle h).1 own) refl)
    | inr k ↦ inl (other, (w, get-remove_other key other s.watchers k ∙ f, same))
  ]
  | inr c ↦ inr (Among-later h watcher.handle begun c)
]

List-cases {ℓ} :
    {A : Type ℓ} (xs : List A) → (xs ≡ []) ⊎ ((x : A) × (rest : List A) × (xs ≡ x ∷ rest))
List-cases [] = inl refl
List-cases (x ∷ xs) = inr (x, xs, refl)

leave-Tracked :
    (key volume : Text) (watcher : Watcher) (begun : List ℕ) (s : State)
    → get key s.watchers ≡ some watcher
    → Tracked begun s
    → Tracked begun (leave key volume watcher s)
unfolding leave
leave-Tracked key volume watcher begun s e tracked =
    elim (List-cases (drop_volume volume watcher.volumes)) [
      | inl f ↦
          rw (f, leave)
            (abort-Tracked watcher.handle begun (record s { watchers = remove key s.watchers })
              (remove-Tracked key watcher begun s e tracked))
      | inr (v, vs, f) ↦ rw (f, leave) (update-Tracked key watcher (v ∷ vs) begun s e tracked)
    ]

stop_watcher-Tracked :
    (volume namespace workspace : Text) (begun : List ℕ) (s : State)
    → Tracked begun s
    → Tracked begun (stop_watcher volume namespace workspace s)
unfolding stop_watcher
stop_watcher-Tracked volume namespace workspace begun s tracked =
    elim (Option-cases (get (slot_key namespace workspace) s.watchers)) [
      | inl e ↦ rw (e, stop_watcher) tracked
      | inr (watcher, e) ↦
          rw (e, stop_watcher)
            (leave-Tracked (slot_key namespace workspace) volume watcher begun s e tracked)
    ]

-- The rest of the agent keeps every task tracked.
abbrev pub Fair : Answers → Type 0
Fair world = (begun : List ℕ) (s : State) → Tracked begun s → Tracked begun (world.others s)

module _ (config : Config) (world : Answers) (fair : Fair world) (begun : List ℕ) where
  spawned_as-Tracked :
      (key volume : Text) (r : Result String Bool) (s : State)
      → Tracked begun s
      → Tracked begun (spawned_as world key volume r s)
  unfolding spawned_as
  spawned_as-Tracked key volume (err _) s tracked = fair begun s tracked
  spawned_as-Tracked key volume (ok _) s tracked =
      register-Tracked key volume s.spawned begun (world.others (spawn s))
        (fair (s.spawned ∷ begun) (spawn s) (spawn-Tracked begun s tracked))

  ensure_task-Tracked :
      (key volume : Text) (a : Action) (s : State)
      → Tracked begun s
      → Tracked begun (ensure_task world key volume a s)
  unfolding ensure_task
  ensure_task-Tracked key volume a s tracked = elim (Option-cases (get key s.watchers)) [
    | inl e ↦
        rw (e, ensure_task)
          (spawned_as-Tracked key volume (world.does s.trace a) (record s { trace = a ∷ s.trace })
            tracked)
    | inr (watcher, e) ↦ rw (e, ensure_task) (join-Tracked key volume watcher begun s e tracked)
  ]

  start_watcher-Tracked :
      (volume namespace workspace : Text) (slot : SlotId) (archive : ArchiveLocation) (s : State)
      → Tracked begun s
      → Tracked begun (start_watcher config world volume namespace workspace slot archive s)
  unfolding start_watcher
  start_watcher-Tracked volume namespace workspace slot archive s tracked =
      elim (Bool-cases (world.has_client namespace)) [
        | inr e ↦ rw (e, start_watcher) tracked
        | inl e ↦ elim (Option-cases (s3_for config s namespace workspace)) [
          | inl f ↦ rw (e, f, start_watcher) tracked
          | inr (s3, f) ↦
              rw (e, f, start_watcher)
                (ensure_task-Tracked (slot_key namespace workspace) volume
                  (spawn_watcher slot workspace archive s3) s tracked)
        ]
      ]

-- What a publish and an unpublish do to the tasks.
pub data Operation : Type 0 where
  start : Text → Text → Text → SlotId → ArchiveLocation → Operation
  stop : Text → Text → Text → Operation

unfoldable pub carry_out : Config → Answers → List Operation → State → State
carry_out config world [] s = s
carry_out config world (start volume namespace workspace slot archive ∷ rest) s =
    carry_out config world rest
      (start_watcher config world volume namespace workspace slot archive s)
carry_out config world (stop volume namespace workspace ∷ rest) s =
    carry_out config world rest (stop_watcher volume namespace workspace s)

-- If the rest of the agent keeps every task that runs the task of some workspace's watcher or one
-- that was just begun, any sequence of starts and stops of watchers keeps it so too.
pub carry_out-Tracked :
    (config : Config) (world : Answers) (begun : List ℕ) (operations : List Operation) (s : State)
    → Fair world
    → Tracked begun s
    → Tracked begun (carry_out config world operations s)
unfolding carry_out
carry_out-Tracked config world begun [] s fair tracked = tracked
carry_out-Tracked config world begun (start volume namespace workspace slot archive ∷ rest) s fair
      t =
    carry_out-Tracked config world begun rest _ fair
      (start_watcher-Tracked config world fair begun volume namespace workspace slot archive s t)
carry_out-Tracked config world begun (stop volume namespace workspace ∷ rest) s fair t =
    carry_out-Tracked config world begun rest _ fair
      (stop_watcher-Tracked volume namespace workspace begun s t)
