-- ===== src/Cli/Args/Words.antt =====
-- Words, `--` and what follows it, through `parseArgs` and the presets of `aim claude run`.
use aimgr.Prelude.{
  ◌≡◌, refl, ap, ◌∙◌, true, false, none, some, List, [], ◌∷◌, ◌++◌, Text, codes, same, All,
  All-of_all, Bool-cases, inl, inr, starts_with, lookup_text, same_iff, ok,
}
use mathlib.Core.List.{append_assoc, append-nil}
use aimgr.Coordination.Keys.{is_empty}
use aimgr.Cli.Names.{Target, field_options, flag_options}
use aimgr.Cli.Options.{command_is, Numerals, Parsed, initial}
use aimgr.Cli.Presets.{
  unexpanded, claude_run_preset_args, drop_mark, explicit_preset, expand_run,
  expand_claude_run_preset,
}
use aimgr.Cli.Args.{
  plain, classify_other, classify_found, classify, onward, after_kind, step, parse_loop, parse_args,
}
use aimgr.Cli.Args.Scope.{loop_stops, loop_goes_on}

-- A word is no option.
lookup_word :
    (w : Text) (table : List (Text × Target))
    → All (λ e. starts_with (codes "-") e.0 ≡ true) table
    → starts_with (codes "-") w ≡ false
    → lookup_text w table ≡ none
unfolding lookup_text
lookup_word w [] h e = refl
lookup_word w ((k, t) ∷ rest) h e = elim (Bool-cases (same k w)) [
  | inl s ↦ let q : k ≡ w = (same_iff k w).0 s in absurd (cc (rw q at h.0, e))
  | inr s ↦ rw s (lookup_word w rest h.1 e)
]

options_dashed :
    All (λ (e : Text × Target). starts_with (codes "-") e.0 ≡ true) (field_options ++ flag_options)
unfolding starts_with
options_dashed =
    All-of_all (λ (e : Text × Target). starts_with (codes "-") e.0) (field_options ++ flag_options)
      refl

word-ne-mark : (w : Text) → starts_with (codes "-") w ≡ false → same w (codes "--") ≡ false
unfolding starts_with same
word-ne-mark w e = elim (Bool-cases (same w (codes "--"))) [
  | inr s ↦ s
  | inl s ↦ let q : w ≡ codes "--" = (same_iff w (codes "--")).0 s in absurd (cc (rw q at e))
]

classify-word :
    (argv : List Text) (w : Text) → starts_with (codes "-") w ≡ false → classify argv w ≡ plain
unfolding classify classify_found classify_other
classify-word argv w e =
    rw (word-ne-mark w e, lookup_word w (field_options ++ flag_options) options_dashed e, e)

-- Only `aim claude` is expanded.
expand_other :
    (argv : List Text)
    → command_is (codes "claude") argv ≡ false
    → expand_claude_run_preset argv ≡ unexpanded argv
unfolding expand_claude_run_preset
expand_other [] h = refl
expand_other (c ∷ []) h = refl
expand_other (c ∷ a ∷ []) h = refl
expand_other (c ∷ a ∷ t ∷ ts) h = rw h

command_append :
    (words rest : List Text)
    → command_is (codes "claude") words ≡ false
    → command_is (codes "claude") (words ++ codes "--" ∷ rest) ≡ false
unfolding same
command_append [] rest h = refl
command_append (w ∷ words) rest h = h

module _ (nt : Numerals) where
  pub step-word :
      (argv : List Text) (w : Text) (rest : List Text) (o : Parsed nt)
      → starts_with (codes "-") w ≡ false
      → step nt argv w rest none o
        ≡ onward none (record o { positional = o.positional ++ (w ∷ []) })
  unfolding step after_kind
  step-word argv w rest o h = rw (classify-word argv w h)

  loop-words :
      (argv words rest : List Text) (o : Parsed nt)
      → All (λ w. starts_with (codes "-") w ≡ false) words
      → parse_loop nt argv (words ++ codes "--" ∷ rest) none o
        ≡ ok (record o { positional = o.positional ++ words; after_double_dash = rest })
  unfolding step after_kind classify same
  loop-words argv [] rest o h =
      loop_stops nt argv (codes "--") rest none o _ (rw (append-nil o.positional))
  loop-words argv (w ∷ words) rest o h =
      loop_goes_on nt argv w (words ++ codes "--" ∷ rest) none o none _
        (step-word argv w (words ++ codes "--" ∷ rest) o h.0)
      ∙ loop-words argv words rest (record o { positional = o.positional ++ (w ∷ []) }) h.1
      ∙ rw (append_assoc o.positional (w ∷ []) words)

  -- The words of the list that the presets give, and what follows the mark.
  parse_args-expanded :
      (argv words rest : List Text)
      → (expand_claude_run_preset argv).argv ≡ words ++ codes "--" ∷ rest
      → All (λ w. starts_with (codes "-") w ≡ false) words
      → parse_args nt argv
        ≡ ok
            (record (initial nt
              (expand_claude_run_preset argv).auto_select
              (expand_claude_run_preset argv).auto_select_preset) {
                positional = words;
                after_double_dash = rest;
              })
  unfolding parse_args initial
  parse_args-expanded argv words rest e h = rw e (
      loop-words (words ++ codes "--" ∷ rest) words rest
        (initial nt (expand_claude_run_preset argv).auto_select
          (expand_claude_run_preset argv).auto_select_preset)
        h)

-- Words that begin with no dash, of another command than `claude`, are returned as the words of the
-- command, and what follows `--` is returned as it stands, options and further marks included; no
-- option is set.
pub parse_args-words :
    (nt : Numerals) (words rest : List Text)
    → All (λ w. starts_with (codes "-") w ≡ false) words
    → command_is (codes "claude") words ≡ false
    → parse_args nt (words ++ codes "--" ∷ rest)
      ≡ ok (record (initial nt false none) { positional = words; after_double_dash = rest })
unfolding same
parse_args-words nt words rest h c =
    let e = expand_other (words ++ codes "--" ∷ rest) (command_append words rest c) in
    parse_args-expanded nt (words ++ codes "--" ∷ rest) words rest (ap (λ x. x.argv) e) h ∙ rw e

-- The list that a preset stands for, named after a label or in place of it.
expand_named :
    (label preset : Text) (tail args : List Text)
    → claude_run_preset_args preset ≡ some args
    → is_empty label ≡ false
    → expand_claude_run_preset (codes "claude" ∷ codes "run" ∷ label ∷ preset ∷ tail) ≡ record {
      argv = codes "claude" ∷ codes "run" ∷ label ∷ codes "--" ∷ (args ++ drop_mark tail);
      auto_select = false;
      auto_select_preset = none;
    }
unfolding expand_claude_run_preset expand_run explicit_preset same
expand_named label preset tail args h n = rw (n, h)

expand_unnamed :
    (preset : Text) (tail args : List Text)
    → claude_run_preset_args preset ≡ some args
    → explicit_preset tail ≡ none
    → expand_claude_run_preset (codes "claude" ∷ codes "run" ∷ preset ∷ tail) ≡ record {
      argv = codes "claude" ∷ codes "run" ∷ codes "--" ∷ (args ++ drop_mark tail);
      auto_select = true;
      auto_select_preset = some preset;
    }
unfolding expand_claude_run_preset expand_run claude_run_preset_args same
expand_unnamed [] tail args h n = absurd (cc h)
expand_unnamed (c ∷ t) tail args h n = rw (n, h)

-- `aim claude run <label> <preset> ...` keeps the label as a word and hands the arguments of the
-- preset on, then what follows less one leading `--`, without reading any of it as an option.
-- `aim claude run <preset> ...`, where no preset follows, hands on the same arguments, names no
-- label, and asks for an account to be selected for that preset.
pub parse_args-presets :
    (nt : Numerals) (label preset : Text) (tail args : List Text)
    → claude_run_preset_args preset ≡ some args
    → is_empty label ≡ false
    → starts_with (codes "-") label ≡ false
    → explicit_preset tail ≡ none
    → (parse_args nt (codes "claude" ∷ codes "run" ∷ label ∷ preset ∷ tail)
        ≡ ok (record (initial nt false none) {
          positional = codes "claude" ∷ codes "run" ∷ label ∷ [];
          after_double_dash = args ++ drop_mark tail;
        }))
      × (parse_args nt (codes "claude" ∷ codes "run" ∷ preset ∷ tail)
          ≡ ok (record (initial nt true (some preset)) {
            positional = codes "claude" ∷ codes "run" ∷ [];
            after_double_dash = args ++ drop_mark tail;
          }))
unfolding starts_with
parse_args-presets nt label preset tail args h n w k =
    let e = expand_named label preset tail args h n in
    let f = expand_unnamed preset tail args h k in
    (
      parse_args-expanded nt _ (codes "claude" ∷ codes "run" ∷ label ∷ []) (args ++ drop_mark tail)
            (ap (λ x. x.argv) e) (refl, (refl, (w, tt)))
          ∙ rw e,
      parse_args-expanded nt _ (codes "claude" ∷ codes "run" ∷ []) (args ++ drop_mark tail)
            (ap (λ x. x.argv) f) (refl, (refl, tt))
          ∙ rw f,
    )
