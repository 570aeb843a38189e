-- ===== src/RateLimit/Algorithms/Threads.antt =====
-- The compare-and-exchange loop of `check_memory_gcra` and `check_memory_scheduled_slot` under
-- concurrency: any number of threads work on one cell, each by the rounds
-- `load; decide; compare_exchange`, in any interleaving.
use summerrs_admin.Base.{
  ℕ, ◌≡◌, refl, ◌≢◌, inl, inr, Option, none, some, List, [], ◌∷◌, ◌==◌, if◌then◌else◌, Bool-cases,
  ==_iff, ap, sym, ◌∙◌,
}
use summerrs_admin.RateLimit.Decision.{RateLimitDecision}
use summerrs_admin.RateLimit.Algorithms.{Attempt, give_up, exchange, settle}

-- Where a thread stands: before the load, with a loaded value, or returned.
pub data Thread (A : Type 0) : Type 0 where
  ready : Thread A
  loaded : A → Thread A
  done : RateLimitDecision → Thread A

pub record System (A : Type 0) : Type 0 where
  pub cell : A
  pub thread : ℕ → Thread A

abbrev pub update {ℓ} : {B : Type ℓ} → (ℕ → B) → ℕ → B → ℕ → B
update f i b j = if i == j then b else f j

-- The decisions that have been taken, the last one first, by thread.
abbrev pub History : Type 0
History = List (ℕ × RateLimitDecision)

unfoldable pub lookup : ℕ → History → Option RateLimitDecision
lookup i [] = none
lookup i ((j, d) ∷ h) = if j == i then some d else lookup i h

-- `round i` is what thread `i` does with the value that it loaded.
module _ {A : Type 0} (round : ℕ → A → Attempt A) where
  pub data Step (s s' : System A) : Type 0 where
    load :
        (i : ℕ)
        → s.thread i ≡ ready
        → s' ≡ record s { thread = update s.thread i (loaded s.cell) }
        → Step s s'
    finish :
        (i : ℕ) (a : A) (d : RateLimitDecision)
        → s.thread i ≡ loaded a
        → round i a ≡ give_up d
        → s' ≡ record s { thread = update s.thread i (done d) }
        → Step s s'
    swap :
        (i : ℕ) (a' : A) (d : RateLimitDecision)
        → s.thread i ≡ loaded s.cell
        → round i s.cell ≡ exchange a' d
        → s' ≡ record { cell = a'; thread = update s.thread i (done d) }
        → Step s s'
    retry :
        (i : ℕ) (a a' : A) (d : RateLimitDecision)
        → s.thread i ≡ loaded a
        → round i a ≡ exchange a' d
        → s.cell ≢ a
        → s' ≡ record s { thread = update s.thread i ready }
        → Step s s'

  -- The systems that threads reach from a cell, all of them before their first load.
  pub data Reach (a0 : A) : System A → Type 0 where
    here : Reach a0 (record { cell = a0; thread = λ i. ready })
    next : {s s' : System A} → Reach a0 s → Step s s' → Reach a0 s'

  -- The same decisions, taken one after the other, each thread at most once.
  pub data Sequence (a0 : A) : History → A → Type 0 where
    start : Sequence a0 [] a0
    then_do :
        {h : History} {a : A}
        → Sequence a0 h a
        → (i : ℕ) (d : RateLimitDecision) (a' : A) → lookup i h ≡ none
        → settle (round i a) a ≡ (d, a')
        → Sequence a0 ((i, d) ∷ h) a'

  -- The decision of a round that gives up is fixed by the load.
  abbrev decided : Attempt A → Option RateLimitDecision
  decided (give_up d) = some d
  decided (exchange _ _) = none

  abbrev pub outcome : ℕ → Thread A → Option RateLimitDecision
  outcome i ready = none
  outcome i (loaded a) = decided (round i a)
  outcome i (done d) = some d

  abbrev pub Explains : A → History → System A → Type 0
  Explains a0 h s = Sequence a0 h s.cell × ((i : ℕ) → lookup i h ≡ outcome i (s.thread i))

  -- A step of thread `i` that takes no decision, or one that was already in the history.
  Explains-same :
      (a0 : A) (h : History) (s : System A) (i : ℕ) (t : Thread A)
      → Explains a0 h s
      → outcome i (s.thread i) ≡ outcome i t
      → Explains a0 h (record s { thread = update s.thread i t })
  Explains-same a0 h s i t (q, all) e = (
    q,
    λ j. elim (Bool-cases (i == j)) [
      | inl same ↦
          let p : i ≡ j = (==_iff i j).0 same in
          rw same (all j ∙ ap (λ k. outcome k (s.thread k)) (sym p) ∙ e ∙ ap (λ k. outcome k t) p)
      | inr other ↦ rw other (all j)
    ],
  )

  -- A step of thread `i` that takes the decision `d`.
  Explains-decide :
      (a0 : A) (h : History) (s : System A) (i : ℕ) (t : Thread A) (d : RateLimitDecision) (a' : A)
      → Explains a0 h s
      → outcome i (s.thread i) ≡ none
      → outcome i t ≡ some d
      → settle (round i s.cell) s.cell ≡ (d, a')
      → Explains a0 ((i, d) ∷ h) (record { cell = a'; thread = update s.thread i t })
  unfolding lookup
  Explains-decide a0 h s i t d a' (q, all) before after e = (
    then_do q i d a' (all i ∙ before) e,
    λ j. elim (Bool-cases (i == j)) [
      | inl same ↦
          let p : i ≡ j = (==_iff i j).0 same in rw same (sym after ∙ ap (λ k. outcome k t) p)
      | inr other ↦ rw other (all j)
    ],
  )

  -- One step keeps an explanation, or adds the decision that the step takes.
  Step-explained :
      (a0 : A) (h : History) (s s' : System A)
      → Explains a0 h s
      → Step s s'
      → (h' : History) × Explains a0 h' s'
  Step-explained a0 h s s' x (load i at e) = rw e (go (round i s.cell) refl)
    where
      go :
          (r : Attempt A)
          → round i s.cell ≡ r
          → (h' : History) × Explains a0 h'
              (record s { thread = update s.thread i (loaded s.cell) })
      go (give_up d) p = (
        (i, d) ∷ h,
        Explains-decide a0 h s i (loaded s.cell) d s.cell x (ap (outcome i) at) (ap decided p)
            (ap (λ r. settle r s.cell) p),
      )
      go (exchange a' d) p =
          (h, Explains-same a0 h s i (loaded s.cell) x (ap (outcome i) at ∙ sym (ap decided p)))
  Step-explained a0 h s s' x (finish i a d at p e) =
      rw e (h, Explains-same a0 h s i (done d) x (ap (outcome i) at ∙ ap decided p))
  Step-explained a0 h s s' x (swap i a' d at p e) = rw e (
    (i, d) ∷ h,
    Explains-decide a0 h s i (done d) d a' x (ap (outcome i) at ∙ ap decided p) refl
        (ap (λ r. settle r s.cell) p),
  )
  Step-explained a0 h s s' x (retry i a a' d at p moved e) =
      rw e (h, Explains-same a0 h s i ready x (ap (outcome i) at ∙ ap decided p))

  -- Whatever the interleaving, the decisions are those of a sequence of undisturbed checks from the
  -- same cell: some history, in which each thread occurs at most once, leads to the present value
  -- of the cell, and holds for each thread that has returned the decision that it returned, and
  -- nothing for a thread that has not loaded.
  pub Reach-explained : (a0 : A) (s : System A) → Reach a0 s → (h : History) × Explains a0 h s
  unfolding lookup
  Reach-explained a0 s here = ([], (start, λ i. refl))
  Reach-explained a0 s (next r st) =
      let (h, x) = Reach-explained a0 _ r in Step-explained a0 h _ s x st
