-- ===== src/Channel/Pump/Order.antt =====
-- packages/claude-channel/src/ordered-event-pump.ts: the order of deliveries and commits, whatever the
-- callbacks do.
use mathlib.Core.List.{append-nil, append_assoc}
use ayanami_agent_hub.Base.{
  ℕ, suc, ◌+◌, Option, none, some, opt_eq, ==_iff, ◌≡◌, refl, sym, ap, subst, ◌∙◌, Bool, true,
  false, List, [], ◌∷◌, ◌++◌, ◌&&◌, arith, ◌==◌, if◌then◌else◌,
}
use ayanami_agent_hub.Channel.Pump.{
  PumpEvent, Handled, Ended, returned, Environment, Effect, delivered, committed, Pump, throw_when,
  await_call, is_rejected, is_unknown, record_effect, commit_event, after_handling, process_event,
}

-- How far effects bring the cursor.
unfoldable pub advances : List Effect → ℕ
advances [] = 0
advances (delivered e h ∷ xs) = advances xs
advances (committed n ok ∷ xs) = if ok then suc (advances xs) else advances xs

-- From the cursor `n`, every delivery and every commit is of the event after the cursor.
unfoldable pub in_order : ℕ → List Effect → Bool
in_order n [] = true
in_order n (delivered e h ∷ xs) = e.sequence == n + 1 && in_order n xs
in_order n (committed k ok ∷ xs) = k == n + 1 && (if ok then in_order (suc n) xs else in_order n xs)

-- What handleEvent may come to before a commit.
abbrev pub is_settled : Handled → Bool
is_settled Handled.processed = true
is_settled Handled.suppressed = true
is_settled _ = false

-- Every commit comes right after a delivery of its event that was processed or suppressed; `o` is the
-- event of the delivery just before.
unfoldable pub justified : Option ℕ → List Effect → Bool
justified o [] = true
justified o (delivered e h ∷ xs) = justified (if is_settled h then some e.sequence else none) xs
justified o (committed k ok ∷ xs) = opt_eq o (some k) && justified none xs

justified-none :
    (o : Option ℕ) (xs : List Effect) → justified none xs ≡ true → justified o xs ≡ true
unfolding justified
justified-none o [] e = refl
justified-none o (delivered d h ∷ xs) e = e
justified-none o (committed k ok ∷ xs) e = absurd (ground arith)

justified-append :
    (o : Option ℕ) (xs ys : List Effect)
    → justified o xs ≡ true
    → justified none ys ≡ true
    → justified o (xs ++ ys) ≡ true
unfolding justified
justified-append o [] ys p q = justified-none o ys q
justified-append o (delivered e h ∷ xs) ys p q = justified-append _ xs ys p q
justified-append o (committed k ok ∷ xs) ys p q = ground (arith, justified-append none xs ys)

advances-append : (xs ys : List Effect) → advances (xs ++ ys) ≡ advances xs + advances ys
unfolding advances
advances-append [] ys = omega arith
advances-append (delivered e h ∷ xs) ys = advances-append xs ys
advances-append (committed n true ∷ xs) ys = omega (arith, advances-append xs ys)
advances-append (committed n false ∷ xs) ys = advances-append xs ys

in_order-append :
    (n : ℕ) (xs ys : List Effect)
    → in_order n xs ≡ true
    → in_order (n + advances xs) ys ≡ true
    → in_order n (xs ++ ys) ≡ true
unfolding in_order advances
in_order-append n [] ys p q = subst (λ m. in_order m ys ≡ true) (omega arith) q
in_order-append n (delivered e h ∷ xs) ys p q = ground (arith, in_order-append n xs ys)
in_order-append n (committed k true ∷ xs) ys p q = ground (
  arith,
  in_order-append (suc n) xs ys (ground arith) (subst (λ m. in_order m ys ≡ true) (omega arith) q),
)
in_order-append n (committed k false ∷ xs) ys p q = ground (arith, in_order-append n xs ys)

-- What happened between two states of the pump: more effects, in order, each commit after a delivery
-- that was handled, that account for the cursor.
pub record Follows {W : Type 0} (p q : Pump W) : Type 0 where
  pub more : List Effect
  pub effects : q.effects ≡ p.effects ++ more
  pub ordered : in_order p.current_sequence more ≡ true
  pub handled : justified none more ≡ true
  pub cursor : q.current_sequence ≡ p.current_sequence + advances more

module _ {W : Type 0} where
  pub Follows-refl :
      (p q : Pump W) → q.effects ≡ p.effects → q.current_sequence ≡ p.current_sequence → Follows p q
  unfolding in_order advances justified
  Follows-refl p q e c = record {
    more = [];
    effects = e ∙ sym (append-nil p.effects);
    ordered = refl;
    handled = refl;
    cursor = omega arith;
  }

  pub Follows-trans : (p q r : Pump W) → Follows p q → Follows q r → Follows p r
  Follows-trans p q r a b = record {
    more = a.more ++ b.more;
    effects = b.effects ∙ ap (λ xs. xs ++ b.more) a.effects ∙ append_assoc p.effects a.more b.more;
    ordered =
        in_order-append p.current_sequence a.more b.more a.ordered
          (subst (λ n. in_order n b.more ≡ true) a.cursor b.ordered);
    handled = justified-append none a.more b.more a.handled b.handled;
    cursor = omega (arith, a.cursor, b.cursor, advances-append a.more b.more);
  }

  -- How a call ends, seen from a state before it.
  pub record Ends (p : Pump W) (x : Ended × Pump W) : Type 0 where
    pub follows : Follows p (x.1)

  pub throw_when-Ends :
      (c : Bool) (e : Ended) (p q : Pump W) (rest : Ended × Pump W)
      → Follows p q
      → (c ≡ false → Ends p rest)
      → Ends p (throw_when c e q rest)
  unfolding throw_when
  throw_when-Ends true e p q rest f g = record { follows = f }
  throw_when-Ends false e p q rest f g = g refl

  pub await_call-Ends :
      (p : Pump W) (x : Ended × Pump W) (f : Pump W → Ended × Pump W)
      → Ends p x
      → ((q : Pump W) → Follows p q → Ends p (f q))
      → Ends p (await_call x f)
  unfolding await_call
  await_call-Ends p (returned, q) f a g = g q a.follows
  await_call-Ends p (Ended.stopped, q) f a g = record { follows = a.follows }
  await_call-Ends p (Ended.callback_failed, q) f a g = record { follows = a.follows }
  await_call-Ends p (Ended.outcome_unknown, q) f a g = record { follows = a.follows }
  await_call-Ends p (Ended.wrong_project, q) f a g = record { follows = a.follows }
  await_call-Ends p (Ended.invalid_sequence, q) f a g = record { follows = a.follows }
  await_call-Ends p (Ended.out_of_fuel, q) f a g = record { follows = a.follows }
  await_call-Ends p (Ended.gap n o, q) f a g = record { follows = a.follows }

  module _ (p : Pump W) (e : PumpEvent) (h : Handled) (w v : W)
      (next : e.sequence ≡ p.current_sequence + 1) where
    deliver-Follows : Follows p (record_effect (delivered e h) w p)
    unfolding in_order advances justified
    deliver-Follows = record {
      more = delivered e h ∷ [];
      effects = refl;
      ordered = ground arith;
      handled = ground arith;
      cursor = omega arith;
    }

    -- The cursor after a commit, which comes after the delivery.
    commit-Follows :
        is_settled h ≡ true
        → Follows p
            (record (record_effect
              (committed e.sequence true)
              v
              (record_effect (delivered e h) w p)) { current_sequence = e.sequence })
    unfolding in_order advances justified
    commit-Follows settled = record {
      more = delivered e h ∷ committed e.sequence true ∷ [];
      effects = append_assoc p.effects (delivered e h ∷ []) (committed e.sequence true ∷ []);
      ordered = ground arith;
      handled = ground (arith, ==_iff e.sequence e.sequence);
      cursor = omega arith;
    }

    refuse-Follows :
        is_settled h ≡ true
        → Follows p
            (record_effect (committed e.sequence false) v (record_effect (delivered e h) w p))
    unfolding in_order advances justified
    refuse-Follows settled = record {
      more = delivered e h ∷ committed e.sequence false ∷ [];
      effects = append_assoc p.effects (delivered e h ∷ []) (committed e.sequence false ∷ []);
      ordered = ground arith;
      handled = ground (arith, ==_iff e.sequence e.sequence);
      cursor = omega arith;
    }

settled : (h : Handled) → is_rejected h ≡ false → is_unknown h ≡ false → is_settled h ≡ true
settled h p q = ground arith

module _ {W : Type 0} (env : Environment W) where
  commit_event-Ends :
      (e : PumpEvent) (h : Handled) (w : W) (x : Bool × W) (p : Pump W)
      → e.sequence ≡ p.current_sequence + 1
      → is_settled h ≡ true
      → Ends p (commit_event env e.sequence x (record_effect (delivered e h) w p))
  unfolding commit_event
  commit_event-Ends e h w (accepted, v) p s t =
      throw_when-Ends _ _ p _ _ (refuse-Follows p e h w v s t) λ _.
        throw_when-Ends _ _ p _ _ (refuse-Follows p e h w v s t)
          λ _. record { follows = commit-Follows p e h w v s t }

  pub from : (p q : Pump W) (x : Ended × Pump W) → Follows p q → Ends q x → Ends p x
  from p q x f a = record { follows = Follows-trans p q (x.1) f a.follows }

  after_handling-Ends :
      (e : PumpEvent) (x : Handled × W) (p : Pump W)
      → e.sequence ≡ p.current_sequence + 1
      → Ends p (after_handling env e x p)
  unfolding after_handling
  after_handling-Ends e (h, w) p s =
      let told = deliver-Follows p e h w w s in
      throw_when-Ends _ _ p _ _ told λ kept. throw_when-Ends _ _ p _ _ told λ _.
        throw_when-Ends _ _ p _ _ told λ known.
          commit_event-Ends e h w (env.commit_cursor e.sequence w) p s (settled h kept known)

  pub process_event-Ends :
      (e : PumpEvent) (historical : Bool) (p : Pump W)
      → e.sequence ≡ p.current_sequence + 1
      → Ends p (process_event env e historical p)
  unfolding process_event
  process_event-Ends e historical p s =
      throw_when-Ends _ _ p _ _ (Follows-refl p p refl refl) λ _. after_handling-Ends e _ p s
