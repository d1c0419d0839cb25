-- ===== src/Pool/Planner/Loop/Books.antt =====
-- What the planner's books say after any number of turns.
use aimgr.Prelude.{
  ℕ, suc, ◌+◌, ◌≡◌, refl, sym, ap, ◌∙◌, subst, inl, inr, Bool, true, false, not, some, List, [],
  ◌∷◌, ◌++◌, map, filter, Text, same, same_iff, same_refl, includes, Preorder, All, All-append,
  Bool-cases, if◌then◌else◌, length, length-append, arith, filter-append,
}
use mathlib.Core.List.{map-append, append_assoc, append-nil}
use aimgr.Pool.Usage.{Numbers}
use aimgr.Pool.Planner.Weights.{Arithmetic}
use aimgr.Pool.Planner.Candidates.{Candidate}
use aimgr.Pool.Planner.Loop.{
  Setting, Progress, start, Move, Stay, update, is_current, current_of, settle, plan_loop,
}
use aimgr.Pool.Planner.Loop.Steps.{selection-IsFit}

-- How many of the assignments are to a label.
abbrev pub count_of : Text → List (Text × Text) → ℕ
count_of l pairs = length (filter (λ a. same l a.1) pairs)

-- A list that grows with the elements that pass a test, or with those that do not.
grow :
    {A X : Type 0} (f : X → A) (q : A → Bool) (b : Bool) (xs : List X) (x : X) (before : List A)
    → q (f x) ≡ b
    → map f xs ≡ filter q before
    → map f (if b then xs ++ (x ∷ []) else xs) ≡ filter q (before ++ (f x ∷ []))
grow f q true xs x before h e =
    rw (filter-append q before (f x ∷ []), h)
      (map-append f xs (x ∷ []) ∙ ap (λ ys. ys ++ (f x ∷ [])) e)
grow f q false xs x before h e = rw (filter-append q before (f x ∷ []), h) (e ∙ sym (append-nil _))

grow_other :
    {A X : Type 0} (f : X → A) (q : A → Bool) (b : Bool) (xs : List X) (x : X) (before : List A)
    → q (f x) ≡ not b
    → map f xs ≡ filter q before
    → map f (if b then xs else xs ++ (x ∷ [])) ≡ filter q (before ++ (f x ∷ []))
grow_other f q true = grow f q false
grow_other f q false = grow f q true

length-if :
    {A : Type 0} (b : Bool) (x : A) → length (if b then x ∷ [] else []) ≡ (if b then 1 else 0)
length-if true x = refl
length-if false x = refl

count_of-append :
    (l s t : Text) (pairs : List (Text × Text))
    → count_of l (pairs ++ ((s, t) ∷ [])) ≡ count_of l pairs + (if same l t then 1 else 0)
count_of-append l s t pairs = rw (filter-append (λ a. same l a.1) pairs ((s, t) ∷ [])) (
    length-append (filter (λ a. same l a.1) pairs) _
    ∙ ap (◌+◌ (count_of l pairs)) (length-if (same l t) (s, t)))

-- One more assignment to a label is one more of its count.
count_of-update :
    (l s t : Text) (f : Text → ℕ) (pairs : List (Text × Text))
    → ((z : Text) → f z ≡ count_of z pairs)
    → update t (suc (f t)) f l ≡ count_of l (pairs ++ ((s, t) ∷ []))
unfolding update
count_of-update l s t f pairs h = elim (Bool-cases (same t l)) [
  | inl k ↦
      subst (λ z. (if same t z then suc (f t) else f z) ≡ count_of z (pairs ++ ((s, t) ∷ [])))
        ((same_iff t l).0 k)
        (rw (same_refl t, h t, count_of-append t s t pairs) (rw (same_refl t) (omega arith)))
  | inr k ↦
      let k' : same l t ≡ false = ground (arith, same_iff t l, same_iff l t) in
      rw (k, h l, count_of-append l s t pairs) (rw k' (omega arith))
]

module _ (num : Numbers) (ar : Arithmetic num) (locale : Preorder Text)
    (g : Setting num ar locale) where
  -- The assigned label is the one that the agent has.
  abbrev pub stays : Text × Text → Bool
  stays (s, l) = is_current (current_of num ar locale g s) l

  -- The agents in turn have been assigned eligible labels; those that change it are in `moved` and
  -- the others in `unchanged`, none is skipped, and each label's count is the number of its agents.
  pub record IsBooked (done : List Text) (p : Progress num ar locale) : Type 0 where
    pub assigned : map (λ a. a.0) p.assignments ≡ done
    pub eligible : All (λ a. includes a.1 g.labels ≡ true) p.assignments
    pub movers :
        map (λ (m : Move num ar locale). (m.subject, m.to)) p.moved
        ≡ filter (λ a. not (stays a)) p.assignments
    pub stayers :
        map (λ (u : Stay num ar locale). (u.subject, u.label)) p.unchanged
        ≡ filter stays p.assignments
    pub no_skip : p.skipped ≡ []
    pub counted : (l : Text) → p.counts l ≡ count_of l p.assignments

  start-IsBooked : IsBooked [] (start num ar locale)
  start-IsBooked = record {
    assigned = refl;
    eligible = tt;
    movers = refl;
    stayers = refl;
    no_skip = refl;
    counted = λ l. refl;
  }

  settle-IsBooked :
      (done : List Text) (p : Progress num ar locale) (s : Text) (c : Candidate num ar locale)
      (kept : Bool)
      → IsBooked done p
      → includes c.label g.labels ≡ true
      → IsBooked (done ++ (s ∷ [])) (settle num ar locale g s (some (c, kept)) p)
  unfolding settle update
  settle-IsBooked done p s c kept b m =
      let last : List (Text × Text) = (s, c.label) ∷ [] in
      record {
        assigned = map-append _ p.assignments last ∙ ap (λ xs. xs ++ (s ∷ [])) b.assigned;
        eligible = All-append _ p.assignments last b.eligible (m, tt);
        movers = grow_other _ (λ a. not (stays a)) _ p.moved _ p.assignments refl b.movers;
        stayers = grow _ stays _ p.unchanged _ p.assignments refl b.stayers;
        no_skip = b.no_skip;
        counted = λ l. count_of-update l s c.label p.counts p.assignments b.counted;
      }

  plan_loop-IsBooked :
      (l : Text)
      → includes l g.labels ≡ true
      → (ss done : List Text) (p : Progress num ar locale) → IsBooked done p
      → IsBooked (done ++ ss) (plan_loop num ar locale g ss p)
  unfolding plan_loop
  plan_loop-IsBooked l m [] done p b = rw (append-nil done) b
  plan_loop-IsBooked l m (s ∷ ss) done p b =
      let ((c, kept), e, fit) = selection-IsFit num ar locale g s p l m in
      rw (e, sym (append_assoc done (s ∷ []) ss))
        (plan_loop-IsBooked l m ss (done ++ (s ∷ [])) (settle num ar locale g s (some (c, kept)) p)
          (settle-IsBooked done p s c kept b fit.given))

  -- After the loop over any agents, with a label to assign.
  pub plan_loop-books :
      (l : Text) (ss : List Text)
      → includes l g.labels ≡ true
      → IsBooked ss (plan_loop num ar locale g ss (start num ar locale))
  plan_loop-books l ss m = plan_loop-IsBooked l m ss [] (start num ar locale) start-IsBooked
