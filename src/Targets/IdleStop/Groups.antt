-- ===== src/Targets/IdleStop/Groups.antt =====
-- The map that `chooseClaudeAccountToFree` builds holds, for each label in the order of its first
-- session, all the sessions of the label.
use aimgr.Prelude.{
  ◌≡◌, refl, sym, ap, ◌∙◌, inl, inr, Bool-cases, true, false, List, [], ◌∷◌, ◌++◌, map, filter,
  filter-append, Text, same, same_iff, same_refl, includes, arith,
}
use mathlib.Core.List.{append_assoc, append-nil}
use aimgr.Pool.Cycle.{add_text, add_all, distinct}
use aimgr.Pool.Cycle.Laws.{IsDistinct, add_text-IsDistinct, includes-add_text, includes-same}
use aimgr.Targets.IdleStop.{Session, add_session, group_sessions}

-- The sessions of a label.
abbrev pub sessions_of : Text → List Session → List Session
sessions_of label sessions = filter (λ s. same label s.label) sessions

-- The labels with all their sessions.
abbrev pub grouped : List Session → List Text → List (Text × List Session)
grouped done labels = map (λ l. (l, sessions_of l done)) labels

snoc_same :
    (s : Session) (done : List Session) (l : Text)
    → same l s.label ≡ true
    → sessions_of l (done ++ (s ∷ [])) ≡ sessions_of l done ++ (s ∷ [])
snoc_same s done l e = filter-append (λ t. same l t.label) done (s ∷ []) ∙ rw e refl

snoc_other :
    (s : Session) (done : List Session) (l : Text)
    → same l s.label ≡ false
    → sessions_of l (done ++ (s ∷ [])) ≡ sessions_of l done
snoc_other s done l e =
    filter-append (λ t. same l t.label) done (s ∷ []) ∙ rw e (append-nil (sessions_of l done))

grouped_others :
    (s : Session) (done : List Session) (labels : List Text)
    → includes s.label labels ≡ false
    → grouped (done ++ (s ∷ [])) labels ≡ grouped done labels
unfolding includes
grouped_others s done [] h = refl
grouped_others s done (l ∷ ls) h =
    let e : same l s.label ≡ false = ground arith in
    rw (snoc_other s done l e)
      (ap (◌∷◌ (l, sessions_of l done)) (grouped_others s done ls (ground arith)))

add_text_nil : (x : Text) → add_text x [] ≡ x ∷ []
unfolding add_text includes
add_text_nil x = refl

add_text_here : (x l : Text) (ls : List Text) → same l x ≡ true → add_text x (l ∷ ls) ≡ l ∷ ls
unfolding add_text includes
add_text_here x l ls e = rw e refl

add_text_later :
    (x l : Text) (ls : List Text) → same l x ≡ false → add_text x (l ∷ ls) ≡ l ∷ add_text x ls
unfolding add_text includes
add_text_later x l ls e = elim (Bool-cases (includes x ls)) [
  | inl k ↦ rw (e, k) refl
  | inr k ↦ rw (e, k) refl
]

-- One session more, for the labels that have one so far.
add_session-grouped :
    (s : Session) (done : List Session) (labels : List Text)
    → IsDistinct labels
    → (includes s.label labels ≡ false → sessions_of s.label done ≡ [])
    → add_session s (grouped done labels) ≡ grouped (done ++ (s ∷ [])) (add_text s.label labels)
unfolding add_session includes
add_session-grouped s done [] d h =
    ap (λ g. (s.label, g) ∷ [])
      (sym (snoc_same s done s.label (same_refl s.label) ∙ ap (λ g. g ++ (s ∷ [])) (h refl)))
    ∙ ap (grouped (done ++ (s ∷ []))) (sym (add_text_nil s.label))
add_session-grouped s done (l ∷ ls) d h = elim (Bool-cases (same l s.label)) [
  | inl e ↦
      rw (add_text_here s.label l ls e, e)
        (rw
          (
            snoc_same s done l e,
            grouped_others s done ls (sym (includes-same l s.label ls e) ∙ d.0),
          )
          refl)
  | inr e ↦
      rw (add_text_later s.label l ls e, e)
        (rw (snoc_other s done l e) (
          ap (◌∷◌ (l, sessions_of l done))
            (add_session-grouped s done ls d.1 (λ k. h (ground arith)))))
]

-- A label that is not among those that have a session has none.
abbrev IsCovering : List Session → List Text → Type 0
IsCovering done labels = (t : Text) → includes t labels ≡ false → sessions_of t done ≡ []

IsCovering-snoc :
    (s : Session) (done : List Session) (labels : List Text)
    → IsCovering done labels
    → IsCovering (done ++ (s ∷ [])) (add_text s.label labels)
IsCovering-snoc s done labels h t k =
    let m = includes-add_text t s.label labels in
    snoc_other s done t (ground (arith, same_iff t s.label, same_iff s.label t))
    ∙ h t (ground arith)

-- The eligible sessions.
abbrev pub eligible_of : List Text → List Session → List Session
eligible_of eligible sessions = filter (λ s. includes s.label eligible) sessions

group-grouped :
    (eligible : List Text) (done : List Session) (labels : List Text) (ss : List Session)
    → IsDistinct labels
    → IsCovering done labels
    → group_sessions eligible (grouped done labels) ss
      ≡ grouped
          (done ++ eligible_of eligible ss)
          (add_all labels (map (λ (s : Session). s.label) (eligible_of eligible ss)))
unfolding group_sessions add_all
group-grouped eligible done labels [] d h = rw (append-nil done) refl
group-grouped eligible done labels (s ∷ ss) d h = elim (Bool-cases (includes s.label eligible)) [
  | inr e ↦ rw e (group-grouped eligible done labels ss d h)
  | inl e ↦
      rw (e, add_session-grouped s done labels d (h s.label))
        (group-grouped eligible (done ++ (s ∷ [])) (add_text s.label labels) ss
            (add_text-IsDistinct s.label labels d) (IsCovering-snoc s done labels h)
          ∙ rw (append_assoc done (s ∷ []) (eligible_of eligible ss)) refl)
]

-- The labels of the eligible sessions, in the order of their first sessions.
abbrev pub labels_of : List Text → List Session → List Text
labels_of eligible sessions =
    distinct (map (λ (s : Session). s.label) (eligible_of eligible sessions))

pub group_sessions_lem :
    (eligible : List Text) (sessions : List Session)
    → group_sessions eligible [] sessions
      ≡ grouped (eligible_of eligible sessions) (labels_of eligible sessions)
unfolding distinct
group_sessions_lem eligible sessions = group-grouped eligible [] [] sessions tt (λ t k. refl)
