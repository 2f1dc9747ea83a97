-- ===== src/Tasks/Laws.antt =====
-- A result is accepted once, and only if nothing superseded its request.
use gwm_cli.Base.{
  ap, ◌==◌, ℕ, ◌+◌, ◌%◌, ◌<◌, ◌≡◌, ◌≢◌, ◌↔◌, refl, ◌∙◌, inl, inr, Bool, true, false, not, ◌&&◌,
  List, [], ◌∷◌, some, arith, if◌then◌else◌, Bool-cases,
}
use gwm_cli.Tasks.{
  TaskKind, TaskKind-discrete, kind_eq, TaskRunner, contains, remove, u64_mod, bump, request,
  invalidate, hits_of, invalidate_all, invalidate_matching, complete, is_loading,
}

kind_eq_refl : (k : TaskKind) → kind_eq k k ≡ true
unfolding kind_eq
kind_eq_refl k =
    elim (TaskKind-discrete k k)
      as (λ d. elim d as (λ _. Bool) [ yes _ ↦ true | no _ ↦ false ] ≡ true) [
        | yes _ ↦ refl
        | no n ↦ absurd (n refl)
      ]

pub kind_eq-eq : (a b : TaskKind) → kind_eq a b ≡ true → a ≡ b
unfolding kind_eq
kind_eq-eq a b =
    elim (TaskKind-discrete a b)
      as (λ d. elim d as (λ _. Bool) [ yes _ ↦ true | no _ ↦ false ] ≡ true → a ≡ b) [
        | yes p ↦ λ _. p
        | no n ↦ λ h. cc
      ]

pub kind_eq_iff : (a b : TaskKind) → (kind_eq a b ≡ true) ↔ (a ≡ b)
kind_eq_iff a b = (kind_eq-eq a b, λ e. rw e (kind_eq_refl b))

contains-remove :
    (k j : TaskKind) (ks : List TaskKind)
    → contains j (remove k ks) ≡ (if kind_eq k j then false else contains j ks)
unfolding contains remove
contains-remove k j [] = ground arith
contains-remove k j (x ∷ ks) =
    ground (arith, contains-remove k j ks, kind_eq_iff k x, kind_eq_iff j x, kind_eq_iff k j)

-- What the program may do with a runner, in any order.
pub data Op : Type 0 where
  request_op invalidate_op : TaskKind → Op
  matching_op : (TaskKind → Bool) → Op
  complete_op : TaskKind → ℕ → Op

abbrev pub step : Op → TaskRunner → TaskRunner
step (request_op k) r = (request k r).0
step (invalidate_op k) r = invalidate k r
step (matching_op p) r = invalidate_matching p r
step (complete_op k g) r = (complete k g r).0

abbrev pub run : List Op → TaskRunner → TaskRunner
run [] r = r
run (o ∷ os) r = run os (step o r)

abbrev pub one_if : Bool → ℕ
one_if b = if b then 1 else 0

abbrev pub occurrences : TaskKind → List TaskKind → ℕ
occurrences k [] = 0
occurrences k (x ∷ xs) = one_if (kind_eq x k) + occurrences k xs

-- How often the operations supersede a request of `k`: by a new one, or by an invalidation.
abbrev pub bumps_of : TaskKind → Op → TaskRunner → ℕ
bumps_of k (request_op j) r = one_if (kind_eq j k && not (contains j r.running))
bumps_of k (invalidate_op j) r = one_if (kind_eq j k)
bumps_of k (matching_op p) r = occurrences k (hits_of p r.running)
bumps_of k (complete_op j g) r = 0

abbrev pub bumps : TaskKind → List Op → TaskRunner → ℕ
bumps k [] r = 0
bumps k (o ∷ os) r = bumps_of k o r + bumps k os (step o r)

module _ (k : TaskKind) where
  generation-invalidate :
      (j : TaskKind) (r : TaskRunner)
      → r.generation k < u64_mod
      → (invalidate j r).generation k ≡ (r.generation k + one_if (kind_eq j k)) % u64_mod
  unfolding invalidate bump
  generation-invalidate j r h = ground arith

  generation-invalidate_all :
      (ks : List TaskKind) (r : TaskRunner)
      → r.generation k < u64_mod
      → (invalidate_all ks r).generation k ≡ (r.generation k + occurrences k ks) % u64_mod
  unfolding invalidate_all
  generation-invalidate_all [] r h = omega arith
  generation-invalidate_all (j ∷ ks) r h =
      let s = generation-invalidate j r h in
      omega (arith, s, generation-invalidate_all ks (invalidate j r) (omega (arith, s)))

  generation-step :
      (o : Op) (r : TaskRunner)
      → r.generation k < u64_mod
      → (step o r).generation k ≡ (r.generation k + bumps_of k o r) % u64_mod
  unfolding request invalidate bump invalidate_matching complete
  generation-step (request_op j) r h = ground arith
  generation-step (invalidate_op j) r h = ground arith
  generation-step (matching_op p) r h = generation-invalidate_all (hits_of p r.running) r h
  generation-step (complete_op j g) r h = ground arith

  generation-run :
      (os : List Op) (r : TaskRunner)
      → r.generation k < u64_mod
      → (run os r).generation k ≡ (r.generation k + bumps k os r) % u64_mod
  generation-run [] r h = omega arith
  generation-run (o ∷ os) r h =
      let s = generation-step o r h in
      omega (arith, s, generation-run os (step o r) (omega (arith, s)))

  request_claims :
      (r : TaskRunner) {r' : TaskRunner} {g : ℕ}
      → request k r ≡ (r', some g)
      → (r'.generation k ≡ g) × (g < u64_mod) × (contains k r'.running ≡ true)
  unfolding request bump contains
  request_claims r h = ground (arith, kind_eq_refl k)

  complete_stale : (g : ℕ) (r : TaskRunner) → g ≢ r.generation k → complete k g r ≡ (r, false)
  unfolding complete
  complete_stale g r h = ground arith

  -- The generation of a request, once superseded, is never the current one again (short of
  -- 2 ^ 64 later requests): its result is refused.
  pub complete_superseded :
      (r : TaskRunner) (os : List Op) {r' : TaskRunner} {g : ℕ}
      → request k r ≡ (r', some g)
      → 0 < bumps k os r'
      → bumps k os r' < u64_mod
      → complete k g (run os r') ≡ (run os r', false)
  complete_superseded r os {r'} {g} h n m =
      let c = request_claims r h in
      complete_stale g (run os r')
        (omega (arith, c.0, c.1, generation-run os r' (omega (arith, c.0, c.1)), n, m))

  -- None of the operations delivers the result that the request of `k` at generation `g` awaits.
  -- A delivery for an earlier generation may be among them.
  abbrev pub Spares : ℕ → List Op → Type 0
  Spares g [] = Unit
  Spares g (complete_op j h ∷ os) = ((kind_eq j k && h == g) ≡ false) × Spares g os
  Spares g (o ∷ os) = Spares g os

  contains-invalidate :
      (j : TaskKind) (r : TaskRunner)
      → contains k (invalidate j r).running ≡ (if kind_eq j k then false else contains k r.running)
  unfolding invalidate
  contains-invalidate j r = contains-remove j k r.running

  contains-invalidate_all :
      (ks : List TaskKind) (r : TaskRunner)
      → occurrences k ks ≡ 0
      → contains k (invalidate_all ks r).running ≡ contains k r.running
  unfolding invalidate_all
  contains-invalidate_all [] r h = refl
  contains-invalidate_all (j ∷ ks) r h =
      ground (arith, contains-invalidate j r, contains-invalidate_all ks (invalidate j r))

  -- A delivery for another generation than the current one changes nothing, and one of another
  -- kind leaves `k` running.
  contains-complete :
      (j : TaskKind) (h g : ℕ) (r : TaskRunner)
      → (kind_eq j k && h == g) ≡ false
      → r.generation k ≡ g
      → contains k r.running ≡ true
      → contains k (complete j h r).0.running ≡ true
  unfolding complete
  contains-complete j h g r s c l = elim (Bool-cases (kind_eq j k)) [
    | inl e ↦
        let same : j ≡ k = kind_eq-eq j k e in
        let now : r.generation j ≡ g = ap r.generation same ∙ c in
        let stale : (h == r.generation j) ≡ false = ground (arith, s, e, now) in rw stale l
    | inr n ↦ ground (arith, contains-remove j k r.running, n, l)
  ]

  contains-step :
      (o : Op) (os : List Op) (g : ℕ) (r : TaskRunner)
      → Spares g (o ∷ os)
      → bumps_of k o r ≡ 0
      → r.generation k ≡ g
      → contains k r.running ≡ true
      → contains k (step o r).running ≡ true
  unfolding request invalidate_matching
  contains-step (request_op j) os g r s b c h = unfold contains in ground arith
  contains-step (invalidate_op j) os g r s b c h = ground (arith, contains-invalidate j r)
  contains-step (matching_op p) os g r s b c h =
      contains-invalidate_all (hits_of p r.running) r b ∙ h
  contains-step (complete_op j i) os g r s b c h = contains-complete j i g r s.0 c h

  Spares-tail : (o : Op) (os : List Op) (g : ℕ) → Spares g (o ∷ os) → Spares g os
  Spares-tail (request_op j) os g s = s
  Spares-tail (invalidate_op j) os g s = s
  Spares-tail (matching_op p) os g s = s
  Spares-tail (complete_op j i) os g s = s.1

  contains-run :
      (os : List Op) (g : ℕ) (r : TaskRunner)
      → Spares g os
      → bumps k os r ≡ 0
      → g < u64_mod
      → r.generation k ≡ g
      → contains k r.running ≡ true
      → contains k (run os r).running ≡ true
  contains-run [] g r s b m c h = h
  contains-run (o ∷ os) g r s b m c h =
      let next = generation-step o r (omega (arith, m, c)) in
      contains-run os g (step o r) (Spares-tail o os g s) (omega arith) m
        (omega (arith, next, b, c, m)) (contains-step o os g r s (omega arith) c h)

  accepted :
      (g : ℕ) (r : TaskRunner)
      → g ≡ r.generation k
      → contains k r.running ≡ true
      → ((complete k g r).1 ≡ true)
        × (is_loading k (complete k g r).0 ≡ false)
        × ((complete k g (complete k g r).0).1 ≡ false)
  unfolding complete is_loading
  accepted g r e h = ground (arith, contains-remove k k r.running, kind_eq_refl k)

  -- The result of a request that nothing superseded, and that was not delivered before, is
  -- accepted, and once, whatever late results of earlier requests came in between: its kind then
  -- loads no more, and the same result delivered again is refused.
  pub complete_once :
      (r : TaskRunner) (os : List Op) {r' : TaskRunner} {g : ℕ}
      → request k r ≡ (r', some g)
      → Spares g os
      → bumps k os r' ≡ 0
      → ((complete k g (run os r')).1 ≡ true)
        × (is_loading k (complete k g (run os r')).0 ≡ false)
        × ((complete k g (complete k g (run os r')).0).1 ≡ false)
  complete_once r os {r'} {g} h s b =
      let c = request_claims r h in
      accepted g (run os r')
        (omega (arith, c.0, c.1, b, generation-run os r' (omega (arith, c.0, c.1))))
        (contains-run os g r' s b c.1 c.0 c.2)
