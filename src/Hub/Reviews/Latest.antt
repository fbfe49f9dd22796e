-- ===== src/Hub/Reviews/Latest.antt =====
-- apps/hub/src/services/store/reviews.ts and tasks.ts: the review of the highest revision, and the
-- order of the reviews after a new one.
use mathlib.Core.Option.{some-injective}
use ayanami_agent_hub.Base.{
  ℕ, ◌<◌, ◌≤◌, ◌≡◌, ◌≢◌, refl, sym, ap, ◌∙◌, subst, ◌⊎◌, inl, inr, true, false, List, [], ◌∷◌, ◌++◌,
  Option, none, some, arith, All, keep, ◌==◌, ==_iff, ltb, if◌then◌else◌, Bool-cases,
}
use ayanami_agent_hub.Base.Members.{
  In, In-keep, keep-In, kept, found-In, In-found, Distinct-append, append-found,
}
use ayanami_agent_hub.Base.Table.{find}
use ayanami_agent_hub.Hub.Rows.{ReviewRow, ReviewStatus}
use ayanami_agent_hub.Hub.Tasks.{latest, latest_review}
use ayanami_agent_hub.Hub.Tasks.Progress.{is_approved}
use ayanami_agent_hub.Hub.Reviews.{review_key, is_active}
use ayanami_agent_hub.Hub.Reviews.Turns.{IsOrdered}

-- What `latest` returns: `best` or an item, at least as high as both.
abbrev Highest : Option ReviewRow → List ReviewRow → ReviewRow → Type 0
Highest best xs p =
    ((best ≡ some p) ⊎ In p xs)
    × ((b : ReviewRow) → best ≡ some b → b.revision ≤ p.revision)
    × All (λ x. x.revision ≤ p.revision) xs

higher-Highest :
    (b r p : ReviewRow) (rs : List ReviewRow)
    → b.revision < r.revision
    → Highest (some r) rs p
    → Highest (some b) (r ∷ rs) p
higher-Highest b r p rs lt (here, above, all) =
    let up : r.revision ≤ p.revision = above r refl in
    (
      elim here [ inl same ↦ inr (inl (sym (some-injective r p same))) | inr m ↦ inr (inr m) ],
      λ d h. omega (arith, ap (λ (x : ReviewRow). x.revision) (some-injective b d h)),
      (up, all),
    )

lower-Highest :
    (b r p : ReviewRow) (rs : List ReviewRow)
    → r.revision ≤ b.revision
    → Highest (some b) rs p
    → Highest (some b) (r ∷ rs) p
lower-Highest b r p rs le (here, above, all) =
    let up : b.revision ≤ p.revision = above b refl in
    (elim here [ inl same ↦ inl same | inr m ↦ inr (inr m) ], above, (omega arith, all))

latest-Highest :
    (best : Option ReviewRow) (xs : List ReviewRow) (p : ReviewRow)
    → latest best xs ≡ some p
    → Highest best xs p
unfolding latest
latest-Highest none [] p e = (inl e, λ b h. cc, tt)
latest-Highest (some b) [] p e = (
  inl e,
  λ c h. omega (arith, ap (λ (r : ReviewRow). r.revision) (some-injective c p (sym h ∙ e))),
  tt,
)
latest-Highest none (r ∷ rs) p e =
    let (here, above, all) = latest-Highest (some r) rs p e in
    (
      elim here [ inl same ↦ inr (inl (sym (some-injective r p same))) | inr m ↦ inr (inr m) ],
      λ b h. cc,
      (above r refl, all),
    )
latest-Highest (some b) (r ∷ rs) p e = elim (Bool-cases (ltb b.revision r.revision)) [
  | inl higher ↦ higher-Highest b r p rs (ground arith) (
      latest-Highest (some r) rs p
        (subst (λ c. latest (some (if c then r else b)) rs ≡ some p) higher e))
  | inr lower ↦ lower-Highest b r p rs (ground arith) (
      latest-Highest (some b) rs p
        (subst (λ c. latest (some (if c then r else b)) rs ≡ some p) lower e))
]

latest-none : (b : ReviewRow) (xs : List ReviewRow) → latest (some b) xs ≢ none
unfolding latest
latest-none b [] e = cc
latest-none b (r ∷ rs) e = latest-none (if ltb b.revision r.revision then r else b) rs e

-- The latest review of a task stands in the table, is of the task, and no review of the task is above.
pub latest_review-known :
    (task_id : ℕ) (rs : List ReviewRow) (p : ReviewRow)
    → latest_review task_id rs ≡ some p
    → In p rs
      × (p.task_id ≡ task_id)
      × ((q : ReviewRow) → In q rs → q.task_id ≡ task_id → q.revision ≤ p.revision)
unfolding latest_review
latest_review-known task_id rs p e =
    let (here, above, all) = latest-Highest none (keep (λ r. r.task_id == task_id) rs) p e in
    let there : In p (keep (λ r. r.task_id == task_id) rs) = elim here [
      | inl nothing ↦ cc
      | inr m ↦ m
    ] in
    let (m, same) = In-keep (λ r. r.task_id == task_id) p rs there in
    (
      m,
      (==_iff p.task_id task_id).0 same,
      λ q k of.
          kept (λ x. x.revision ≤ p.revision) (λ r. r.task_id == task_id) q rs all k
            ((==_iff q.task_id task_id).1 of),
    )

-- Where there is none, no review is of the task.
pub latest_review-none :
    (task_id : ℕ) (rs : List ReviewRow) (q : ReviewRow)
    → latest_review task_id rs ≡ none
    → In q rs
    → q.task_id ≢ task_id
unfolding latest_review
latest_review-none task_id rs q e m of =
    nothing (keep (λ r. r.task_id == task_id) rs) e
      (keep-In (λ r. r.task_id == task_id) q rs m ((==_iff q.task_id task_id).1 of))
  where
    nothing : (xs : List ReviewRow) → latest none xs ≡ none → In q xs → ⊥
    nothing [] e m = m
    nothing (x ∷ xs) e m = latest-none x xs e

pub not-active-approved : (s : ReviewStatus) → is_approved s ≡ true → is_active s ≡ false
not-active-approved s h = ground arith

-- No other review of a task is above an active one, so what is not below the latest is the latest.
module _ (rs : List ReviewRow) (o : IsOrdered rs) (task_id : ℕ) (p : ReviewRow)
    (is_latest : latest_review task_id rs ≡ some p) where
  pub latest-found : find review_key p.id rs ≡ some p
  latest-found = In-found review_key rs p o.distinct (latest_review-known task_id rs p is_latest).0

  pub latest-above :
      (i : ℕ) (q : ReviewRow)
      → find review_key i rs ≡ some q
      → q.task_id ≡ task_id
      → q.revision ≤ p.revision
  latest-above i q found of =
      (latest_review-known task_id rs p is_latest).2 q (found-In review_key i rs q found) of

  pub others-inactive :
      (i : ℕ) (q : ReviewRow)
      → find review_key i rs ≡ some q
      → q.task_id ≡ task_id
      → p.id ≢ i
      → is_active q.status ≡ false
  others-inactive i q found of ne = elim (Bool-cases (is_active q.status)) [
    | inl active ↦
        let below : p.revision < q.revision =
          o.leads p.id i p q latest-found found ne
            ((latest_review-known task_id rs p is_latest).1 ∙ sym of) active in
        let above : q.revision ≤ p.revision = latest-above i q found of in absurd (omega arith)
    | inr rests ↦ rests
  ]

-- A review of the task, before the next one is opened: it is below it, and at rest.
abbrev pub IsPast : ℕ → ReviewRow → List ReviewRow → Type 0
IsPast task_id new rs =
    (i : ℕ) (q : ReviewRow)
    → find review_key i rs ≡ some q
    → q.task_id ≡ task_id
    → (q.revision < new.revision) × (is_active q.status ≡ false)

pub append-IsOrdered :
    (rs : List ReviewRow) (new : ReviewRow)
    → find review_key new.id rs ≡ none
    → IsPast new.task_id new rs
    → IsOrdered rs
    → IsOrdered (rs ++ new ∷ [])
append-IsOrdered rs new free past o = record {
  distinct = Distinct-append review_key rs new free o.distinct;
  leads = λ i j q r fq fr ne same active. elim (append-found review_key i rs new q fq) [
    | inl old ↦ elim (append-found review_key j rs new r fr) [
      | inl old' ↦ o.leads i j q r old old' ne same active
      | inr (_, e) ↦
          let (below, _) = past i q old (same ∙ ap (λ (x : ReviewRow). x.task_id) e) in
          omega (arith, ap (λ (x : ReviewRow). x.revision) e)
    ]
    | inr (k, e) ↦ elim (append-found review_key j rs new r fr) [
      | inl old' ↦
          let (_, rests) = past j r old' (sym same ∙ ap (λ (x : ReviewRow). x.task_id) e) in
          absurd (cc)
      | inr (k', _) ↦ absurd (ne (sym k ∙ k'))
    ]
  ];
}
