-- ===== src/Config/Settings/Saved.antt =====
-- What the loop of `SaveToDB` in internal/config/dbconfig.go leaves in the table of settings.
use picoaide.Prelude.{
  String, Bool, true, false, Option, none, some, List, [], ◌∷◌, ◌++◌, append-nil, append_assoc,
  if◌then◌else◌, str_eq, eq_iff, ◌≡◌, refl, sym, ap, ap₂, ◌∙◌, inl, inr, arith, Bool-cases, Map,
  lookup, Distinct, lookup-insert,
}
use picoaide.Store.Db.{Db, SettingsHistory}
use picoaide.Store.Action.{Store}
use picoaide.Store.Action.Outcomes.{
  Ends, ends-bind, ends-pure, ends-exec, ends-weaken, exec_then, query_then,
}
use picoaide.Config.Settings.{add_history, put_setting, save_over, save_values, visible}

abbrev pub or_else : {A : Type 0} → Option A → Option A → Option A
or_else none b = b
or_else (some a) b = some a

pub agree : (p : String → Bool) (j k : String) → str_eq j k ≡ true → p j ≡ p k
agree p j k e = ap p ((eq_iff j k).0 e)

pub lookup-visible :
    (hidden : String → Bool) (k : String) (m : Map String)
    → lookup k (visible hidden m) ≡ (if hidden k then none else lookup k m)
lookup-visible hidden k [] = ground arith
lookup-visible hidden k ((j, v) ∷ m) =
    ground
      (arith, agree hidden j k, lookup-visible hidden k m, lookup-insert j k v (visible hidden m))

abbrev pub change_of : String → String → String → Option String → List SettingsHistory
change_of changed_by key value none = []
change_of changed_by key value (some old) =
    if str_eq old value
    then []
    else record { key = key; old_value = old; new_value = value; changed_by = changed_by } ∷ []

-- One entry for each value that replaces another.
abbrev pub changes : String → Map String → Map String → List SettingsHistory
changes changed_by [] settings = []
changes changed_by ((key, value) ∷ kv) settings =
    change_of changed_by key value (lookup key settings) ++ changes changed_by kv settings

-- The table and its history after values have been saved; no other table changes.
abbrev pub AreSaved : String → Map String → Db → Db → Type 0
AreSaved changed_by kv db db' =
    ((k : String) → lookup k db'.settings ≡ or_else (lookup k kv) (lookup k db.settings))
    × (db'.settings_history ≡ db.settings_history ++ changes changed_by kv db.settings)
    × (db' ≡ record db { settings = db'.settings; settings_history = db'.settings_history })

abbrev IsSaved : String → String → String → Db → Db → Type 0
IsSaved changed_by key value db db' =
    ((k : String)
      → lookup k db'.settings ≡ (if str_eq key k then some value else lookup k db.settings))
    × (db'.settings_history
        ≡ db.settings_history ++ change_of changed_by key value (lookup key db.settings))
    × (db' ≡ record db { settings = db'.settings; settings_history = db'.settings_history })

stands :
    (key value old k : String) (m : Map String)
    → lookup key m ≡ some old
    → str_eq old value ≡ true
    → lookup k m ≡ (if str_eq key k then some value else lookup k m)
stands key value old k m e same = elim (Bool-cases (str_eq key k)) [
  | inl here ↦
      rw here (
        ap (λ i. lookup i m) (sym ((eq_iff key k).0 here))
        ∙ e
        ∙ ap some ((eq_iff old value).0 same))
  | inr other ↦ rw other refl
]

save_over-Ends :
    (key value changed_by : String) (o : Option String) (s : Store)
    → lookup key s.db.settings ≡ o
    → Ends (save_over key value changed_by o) s (λ _ s'. IsSaved changed_by key value s.db s'.db)
save_over-Ends key value changed_by none s e = ends-exec (put_setting key value) λ n. (
  λ k. lookup-insert key k value s.db.settings,
  rw e (sym (append-nil s.db.settings_history)),
  refl,
)
save_over-Ends key value changed_by (some old) s e = elim (Bool-cases (str_eq old value)) [
  | inl same ↦ rw same (
      ends-pure tt (
        λ k. stands key value old k s.db.settings e same,
        rw e (rw same (sym (append-nil s.db.settings_history))),
        refl,
      ))
  | inr other ↦ rw other (
      exec_then (add_history key old value changed_by) λ n.
        ends-exec (put_setting key value)
          λ m. (λ k. lookup-insert key k value s.db.settings, rw e (rw other refl), refl))
]

-- The changes depend on the table only at the keys of the values.
changes-same :
    (changed_by key : String) (kv m m' : Map String)
    → ((k : String) → str_eq key k ≡ false → lookup k m ≡ lookup k m')
    → lookup key kv ≡ none
    → changes changed_by kv m ≡ changes changed_by kv m'
changes-same changed_by key [] m m' same h = refl
changes-same changed_by key ((k, v) ∷ kv) m m' same h =
    let other : str_eq key k ≡ false = ground (arith, h, eq_iff k key, eq_iff key k) in
    let rest : lookup key kv ≡ none = ground (arith, h) in
    ap₂ (λ o hs. change_of changed_by k v o ++ hs) (same k other)
      (changes-same changed_by key kv m m' same rest)

IsSaved-AreSaved :
    (changed_by key value : String) (kv : Map String) (db db' db'' : Db)
    → lookup key kv ≡ none
    → IsSaved changed_by key value db db'
    → AreSaved changed_by kv db' db''
    → AreSaved changed_by ((key, value) ∷ kv) db db''
IsSaved-AreSaved changed_by key value kv db db' db'' new (at, history, rest)
      (at', history', rest') =
    (
      λ k. at' k ∙ ap (or_else (lookup k kv)) (at k) ∙ elim (Bool-cases (str_eq key k)) [
        | inl same ↦ rw same (
            ap (λ o. or_else o (some value))
              (ap (λ i. lookup i kv) (sym ((eq_iff key k).0 same)) ∙ new))
        | inr other ↦ rw other refl
      ],
      history'
          ∙ ap₂ (λ old more. old ++ more) history
              (changes-same changed_by key kv db'.settings db.settings
                (λ k other. at k ∙ ap (λ b. if b then some value else lookup k db.settings) other)
                new)
          ∙ append_assoc db.settings_history
              (change_of changed_by key value (lookup key db.settings))
              (changes changed_by kv db.settings),
      rest'
          ∙ ap {A = Db}
              (λ t. record t { settings = db''.settings; settings_history = db''.settings_history })
              rest,
    )

pub save_values-Ends :
    (changed_by : String) (kv : Map String) (s : Store)
    → Distinct kv
    → Ends (save_values changed_by kv) s (λ _ s'. AreSaved changed_by kv s.db s'.db)
unfolding save_values
save_values-Ends changed_by [] s d =
    ends-pure tt (λ k. refl, sym (append-nil s.db.settings_history), refl)
save_values-Ends changed_by ((key, value) ∷ kv) s d = ends-bind (
    ends-weaken
      (λ _ t saved.
        ends-weaken
          (λ _ u all. IsSaved-AreSaved changed_by key value kv s.db t.db u.db d.0 saved all)
          (save_values-Ends changed_by kv t d.1))
      (query_then (λ db. lookup key db.settings) (save_over key value changed_by)
        (λ n.
          save_over-Ends key value changed_by (lookup key s.db.settings) (record s { issued = n })
            refl)))
