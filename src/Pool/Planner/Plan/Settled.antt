-- ===== src/Pool/Planner/Plan/Settled.antt =====
-- What the planner returns where there is something to target.
use aimgr.Prelude.{
  ◌≡◌, refl, sym, ap, ◌∙◌, subst, Bool, true, not, List, [], ◌∷◌, map, filter, Text, includes,
  lookup_text, Preorder, sort_by, sort_by-perm, All, if◌then◌else◌, length, length-map,
  length-sort_by,
}
use mathlib.Core.List.{Perm}
use aimgr.Pool.Usage.{Numbers}
use aimgr.Pool.Cycle.Laws.{IsDistinct}
use aimgr.Pool.Planner.Weights.{Arithmetic}
use aimgr.Pool.Planner.Loop.{
  Setting, Progress, start, Move, Stay, is_current, eligible_label, current_of, plan_loop,
}
use aimgr.Pool.Planner.Loop.Books.{stays, plan_loop-books}
use aimgr.Pool.Planner.Report.{
  Plan, applied, noop, is_nil, final_status, finish_plan, AllocationMode,
}
use aimgr.Pool.Planner.Report.Loads.{total_agents, total_agents-load}
use aimgr.Pool.Planner.Plan.{subject_order}

-- The assigned label is the eligible label that the agent has.
abbrev keeps : List Text → List (Text × Text) → Text × Text → Bool
keeps labels currents (s, l) = is_current (eligible_label labels (lookup_text s currents)) l

module _ (num : Numbers) (ar : Arithmetic num) (locale : Preorder Text) where
  -- Every subject is assigned one label, an eligible one. Those that change their label are moved
  -- and the others unchanged; the loads count each of them once.
  pub record IsSettled (subjects labels : List Text) (currents : List (Text × Text))
      (p : Plan num ar locale) : Type 0 where
    pub assigned : Perm (map (λ a. a.0) p.assignments) subjects
    pub eligible : All (λ a. includes a.1 labels ≡ true) p.assignments
    pub movers :
        map (λ (m : Move num ar locale). (m.subject, m.to)) p.moved
        ≡ filter (λ a. not (keeps labels currents a)) p.assignments
    pub stayers :
        map (λ (u : Stay num ar locale). (u.subject, u.label)) p.unchanged
        ≡ filter (keeps labels currents) p.assignments
    pub no_skip : p.skipped ≡ []
    pub no_blocker : p.blockers ≡ []
    pub status_of : p.status ≡ (if is_nil num ar locale p.moved then noop else applied)
    pub loads : total_agents num ar locale p.per_account_load ≡ length subjects

  final_status_lem :
      (subjects : List Text) (moved : List (Move num ar locale))
      → (subjects ≡ [] → moved ≡ [])
      → final_status num ar locale subjects [] moved
        ≡ ((if is_nil num ar locale moved then noop else applied), [])
  unfolding final_status
  final_status_lem [] moved h = rw (h refl) refl
  final_status_lem (s ∷ ss) [] h = refl
  final_status_lem (s ∷ ss) (m ∷ ms) h = refl

  module _ (g : Setting num ar locale) (currents : List (Text × Text)) (mode : AllocationMode)
      (subjects : List Text) where
    abbrev finished : Progress num ar locale
    finished =
        plan_loop num ar locale g (sort_by (subject_order num ar locale g) subjects)
          (start num ar locale)

    none_to_move : subjects ≡ [] → finished.moved ≡ []
    unfolding sort_by plan_loop
    none_to_move e = rw e refl

    pub finish-IsSettled :
        (l : Text)
        → g.stored ≡ (λ s. lookup_text s currents)
        → includes l g.labels ≡ true
        → IsDistinct g.labels
        → IsSettled subjects g.labels currents (finish_plan num ar locale g mode subjects finished)
    unfolding finish_plan current_of
    finish-IsSettled l e m d =
        let b =
          plan_loop-books num ar locale g l (sort_by (subject_order num ar locale g) subjects) m in
        let perm = sort_by-perm (subject_order num ar locale g) subjects in
        let status =
          subst
            (λ skipped.
              final_status num ar locale subjects skipped finished.moved
              ≡ ((if is_nil num ar locale finished.moved then noop else applied), []))
            (sym b.no_skip) (final_status_lem subjects finished.moved none_to_move) in
        let keeps_stays : stays num ar locale g ≡ keeps g.labels currents =
          ap (λ f. λ (a : Text × Text). is_current (eligible_label g.labels (f a.0)) a.1) e in
        record {
          assigned = subst (λ xs. Perm xs subjects) (sym b.assigned) perm;
          eligible = b.eligible;
          movers =
              subst
                (λ k.
                  map (λ (m : Move num ar locale). (m.subject, m.to)) finished.moved
                  ≡ filter (λ a. not (k a)) finished.assignments)
                keeps_stays b.movers;
          stayers =
              subst
                (λ k.
                  map (λ (u : Stay num ar locale). (u.subject, u.label)) finished.unchanged
                  ≡ filter k finished.assignments)
                keeps_stays b.stayers;
          no_skip = b.no_skip;
          no_blocker = ap (λ x. x.1) status;
          status_of = ap (λ x. x.0) status;
          loads =
              total_agents-load num ar locale g finished d b.eligible
              ∙ sym (length-map finished.assignments _)
              ∙ ap length b.assigned
              ∙ length-sort_by _ subjects;
        }
