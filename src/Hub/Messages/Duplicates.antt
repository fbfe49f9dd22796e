-- ===== src/Hub/Messages/Duplicates.antt =====
-- apps/hub/src/services/store/messages.ts, postMessage: the message that has a dedupe key already.
use text.Mathlib.TextEquality.{eq_iff}
use mathlib.Core.Option.{some-injective}
use ayanami_agent_hub.Base.{
  ℕ, ◌≡◌, ◌≢◌, refl, sym, ap, ◌∙◌, inl, inr, true, String, List, [], ◌∷◌, Option, none, some, arith,
  All, Option-cases, Bool-cases, ==_iff,
}
use text.Mathlib.Text.{◌==◌ as str_eq}
use ayanami_agent_hub.Base.Members.{In}
use ayanami_agent_hub.Base.Every.{All-imp, All-true}
use ayanami_agent_hub.Hub.MessageRows.{MessageRow}
use ayanami_agent_hub.Hub.Messages.{has_dedupe_key, find_duplicate, truthy}

-- The message is stored, is the project's and has the dedupe key, which is not empty.
pub record IsDuplicate (p : ℕ) (o : Option String) (ms : List MessageRow) (m : MessageRow)
    : Type 0 where
  pub stored : In m ms
  pub project : m.project_id ≡ p
  pub key : String
  pub asked : o ≡ some key
  pub nonempty : key ≢ ""
  pub same_key : m.dedupe_key ≡ some key

-- No message of the project has the dedupe key, unless it is empty.
abbrev pub IsUnused : ℕ → Option String → List MessageRow → Type 0
IsUnused p o =
    All λ m. (key : String) → o ≡ some key → key ≢ "" → m.project_id ≡ p → m.dedupe_key ≢ some key

truthy-some : (o : Option String) (key : String) → truthy o ≡ some key → (o ≡ some key) × (key ≢ "")
truthy-some none key e = absurd (cc)
truthy-some (some k) key e = elim (Bool-cases (str_eq k "")) [
  | inl empty ↦ absurd (ground arith)
  | inr full ↦
      let same : k ≡ key = ground arith in
      (ap some same, λ p. cc ((eq_iff k "").1 (same ∙ p), full))
]

some-truthy : (key : String) → key ≢ "" → truthy (some key) ≡ some key
some-truthy key ne = elim (Bool-cases (str_eq key "")) [
  | inl empty ↦ absurd (ne ((eq_iff key "").0 empty))
  | inr full ↦ ground arith
]

has-project :
    (p : ℕ) (key : String) (m : MessageRow) → has_dedupe_key p key m ≡ true → m.project_id ≡ p
has-project p key m e = ground (arith, ==_iff m.project_id p)

has-key :
    (p : ℕ) (key : String) (m : MessageRow)
    → has_dedupe_key p key m ≡ true
    → m.dedupe_key ≡ some key
has-key p key m e = elim (Option-cases m.dedupe_key) [
  | inl missing ↦ absurd (ground arith)
  | inr (k, there) ↦
      let same : str_eq k key ≡ true = ground arith in there ∙ ap some ((eq_iff k key).0 same)
]

key-has :
    (p : ℕ) (key : String) (m : MessageRow)
    → m.project_id ≡ p
    → m.dedupe_key ≡ some key
    → has_dedupe_key p key m ≡ true
key-has p key m e there = rw (e, there, (==_iff p p).1 refl, (eq_iff key key).1 refl) refl

find_duplicate-In :
    (p : ℕ) (key : String) (ms : List MessageRow) (m : MessageRow)
    → find_duplicate p (some key) ms ≡ some m
    → In m ms × (m.project_id ≡ p) × (m.dedupe_key ≡ some key)
unfolding find_duplicate
find_duplicate-In p key [] m e = absurd (cc)
find_duplicate-In p key (x ∷ ms) m e = elim (Bool-cases (has_dedupe_key p key x)) [
  | inl has ↦
      let same : x ≡ m = some-injective x m (ground arith) in
      (
        inl (sym same),
        ap (λ (y : MessageRow). y.project_id) (sym same) ∙ has-project p key x has,
        ap (λ (y : MessageRow). y.dedupe_key) (sym same) ∙ has-key p key x has,
      )
  | inr other ↦
      let (there, project, same_key) = find_duplicate-In p key ms m (ground arith) in
      (inr there, project, same_key)
]

find_duplicate-none :
    (p : ℕ) (key : String) (ms : List MessageRow)
    → find_duplicate p (some key) ms ≡ none
    → All (λ m. m.project_id ≡ p → m.dedupe_key ≢ some key) ms
unfolding find_duplicate
find_duplicate-none p key [] e = tt
find_duplicate-none p key (x ∷ ms) e = elim (Bool-cases (has_dedupe_key p key x)) [
  | inl has ↦ absurd (ground arith)
  | inr other ↦ (
    λ project same. cc (other, key-has p key x project same),
    find_duplicate-none p key ms (ground arith),
  )
]

find_nothing : (p : ℕ) (ms : List MessageRow) → find_duplicate p none ms ≡ none
unfolding find_duplicate
find_nothing p ms = refl

pub find_duplicate-IsDuplicate :
    (p : ℕ) (o : Option String) (ms : List MessageRow) (m : MessageRow)
    → find_duplicate p (truthy o) ms ≡ some m
    → IsDuplicate p o ms m
find_duplicate-IsDuplicate p o ms m e = elim (Option-cases (truthy o)) [
  | inl nothing ↦ absurd (cc (ap (λ k. find_duplicate p k ms) (sym nothing) ∙ e, find_nothing p ms))
  | inr (key, is) ↦
      let (asked, nonempty) = truthy-some o key is in
      let (stored, project, same_key) =
        find_duplicate-In p key ms m (ap (λ k. find_duplicate p k ms) (sym is) ∙ e) in
      record {
        stored = stored;
        project = project;
        key = key;
        asked = asked;
        nonempty = nonempty;
        same_key = same_key;
      }
]

pub find_duplicate-IsUnused :
    (p : ℕ) (o : Option String) (ms : List MessageRow)
    → find_duplicate p (truthy o) ms ≡ none
    → IsUnused p o ms
find_duplicate-IsUnused p none ms e =
    All-imp _ _ ms (λ m _ key asked ne project same. cc asked) (All-true ms)
find_duplicate-IsUnused p (some k) ms e = elim (Bool-cases (str_eq k "")) [
  | inl empty ↦
      All-imp _ _ ms
        (λ m _ key asked ne project same.
          ne (sym (some-injective k key asked) ∙ (eq_iff k "").0 empty))
        (All-true ms)
  | inr full ↦
      let ne : k ≢ "" = λ q. cc ((eq_iff k "").1 q, full) in
      let free =
        find_duplicate-none p k ms (ap (λ j. find_duplicate p j ms) (sym (some-truthy k ne)) ∙ e) in
      All-imp _ _ ms (λ m f key asked _ project same. f project (same ∙ sym asked)) free
]
