-- ===== src/Hub/Context/Readers.antt =====
-- apps/hub/src/services/store/context.ts: the parts of a do block that only read.
use ayanami_agent_hub.Base.{
  ◌≡◌, refl, sym, ap, subst, ◌∙◌, List, Bool, true, false, Option, none, some, if◌then◌else◌,
}
use ayanami_agent_hub.Hub.Rows.{Event}
use ayanami_agent_hub.Hub.Context.Orderly.{Ran, IsOrderly, nothing_more, nothing_thrown}
use ayanami_agent_hub.Hub.Context.{
  Store, Hub, HubError, Result, ok, err, Action, pure, select, or_throw, throw_if, continue, monad,
  ◌>>=◌,
}

-- Whatever it returns, the hub is as before.
pub record IsReader {R A : Type 0} (m : Action R A) : Type 0 where
  pub reads : (h : Hub R) → (m h).1 ≡ h

module _ {R : Type 0} where
  pub pure-IsReader : {A : Type 0} (a : A) → IsReader {R = R} (pure a)
  unfolding monad
  pure-IsReader a = record { reads = λ h. refl }

  pub select-IsReader : {A : Type 0} (f : Store R → A) → IsReader (select f)
  unfolding monad
  select-IsReader f = record { reads = λ h. refl }

  or_throw_reads : {A : Type 0} (o : Option A) (x : HubError) (h : Hub R) → (or_throw o x h).1 ≡ h
  unfolding monad
  or_throw_reads none x h = refl
  or_throw_reads (some a) x h = refl

  pub or_throw-IsReader :
      {A : Type 0} (o : Option A) (x : HubError) → IsReader {R = R} (or_throw o x)
  or_throw-IsReader o x = record { reads = or_throw_reads o x }

  pub throw_if-IsReader : (c : Bool) (x : HubError) → IsReader {R = R} (throw_if c x)
  unfolding monad
  throw_if-IsReader c x = record { reads = λ h. refl }

  pub if-IsReader :
      {A : Type 0} (c : Bool) (m k : Action R A)
      → IsReader m
      → IsReader k
      → IsReader (if c then m else k)
  if-IsReader true m k p q = p
  if-IsReader false m k p q = q

  continue_reads :
      {A B : Type 0} (f : A → Action R B) (x : Result A × Hub R) (h : Hub R)
      → ((a : A) → IsReader (f a))
      → x.1 ≡ h
      → (continue f x).1 ≡ h
  unfolding continue
  continue_reads f (ok a, h₁) h p e = (p a).reads h₁ ∙ e
  continue_reads f (err y, h₁) h p e = e

  pub >>=-IsReader :
      {A B : Type 0} (m : Action R A) (f : A → Action R B)
      → IsReader m
      → ((a : A) → IsReader (f a))
      → IsReader (m >>= f)
  unfolding monad
  >>=-IsReader m f p q = record { reads = λ h. continue_reads f (m h) h q (p.reads h) }

  continue-then :
      {A B : Type 0} (f : A → Action R B) (x : Result A × Hub R) (h h' : Hub R) {b : B}
      → x.1 ≡ h
      → continue f x ≡ (ok b, h')
      → (a : A) × (x ≡ (ok a, h)) × (f a h ≡ (ok b, h'))
  unfolding continue
  continue-then f (ok a, h₁) h h' p e = (a, ap (λ k. (ok a, k)) p, ap (f a) (sym p) ∙ e)
  continue-then f (err y, h₁) h h' p e = absurd (cc)

  -- A block that begins by reading: what was read, and the rest.
  pub read-then :
      {A B P : Type 0} {b : B} (h : Hub R) {h' : Hub R} (m : Action R A) (f : A → Action R B)
      → IsReader m
      → (m >>= f) h ≡ (ok b, h')
      → ((a : A) → m h ≡ (ok a, h) → f a h ≡ (ok b, h') → P)
      → P
  unfolding monad
  read-then h {h'} m f p e k =
      let (a, read, rest) = continue-then f (m h) h h' (p.reads h) e in k a read rest

reader_Ran :
    {R A : Type 0} (es : List Event) (h : Hub R) (x : Result A × Hub R)
    → x.1 ≡ h
    → h.active ≡ some es
    → Ran es h x
reader_Ran es h (ok a, h₁) p e = subst (λ k. Ran es h (ok a, k)) (sym p) (nothing_more es h a e)
reader_Ran {A} es h (err y, h₁) p e =
    subst (λ k. Ran {A = A} es h (err y, k)) (sym p) (nothing_thrown A es h y e)

pub IsReader-IsOrderly : {R A : Type 0} (m : Action R A) → IsReader m → IsOrderly m
IsReader-IsOrderly m p = record { runs = λ es h e. reader_Ran es h (m h) (p.reads h) e }

-- A property of hubs that an action keeps, however it ends.
abbrev pub Keeps : {R A : Type 0} → (Hub R → Type 0) → Action R A → Type 0
Keeps {R} P m = (h : Hub R) → P h → P (m h).1

continue-Keeps :
    {R A B : Type 0} (P : Hub R → Type 0) (f : A → Action R B) (x : Result A × Hub R)
    → ((a : A) → Keeps P (f a))
    → P x.1
    → P (continue f x).1
unfolding continue
continue-Keeps P f (ok a, h) k p = k a h p
continue-Keeps P f (err y, h) k p = p

-- Reading first makes no difference to that.
pub lead-Keeps :
    {R A B : Type 0} (P : Hub R → Type 0) (m : Action R A) (f : A → Action R B)
    → IsReader m
    → ((a : A) → Keeps P (f a))
    → Keeps P (m >>= f)
unfolding monad
lead-Keeps P m f r k h p = continue-Keeps P f (m h) k (subst P (sym (r.reads h)) p)
