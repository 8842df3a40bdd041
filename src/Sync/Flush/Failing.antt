-- ===== src/Sync/Flush/Failing.antt =====
-- What syncFlushState of internal/sync/push.go remembers and reports over a history of syncs.

use beautiful_aerc.Prelude.MapLaws.{lookup-assign, lookup-erase}
use beautiful_aerc.Prelude.{
  List, [], ◌∷◌, map, Option, none, some, lookup, ◌==◌, if◌then◌else◌, ◌≡◌, ==→≡, subst, refl, sym,
  ap, ◌∙◌, arith, true, false, ◌&&◌, Bool-cases, Option-cases, inl, inr, nat_eq,
}
use beautiful_aerc.Uerr.{Class, Err, same_class}
use beautiful_aerc.Backend.{ObjectKind, message, mailbox, event, contact}
use beautiful_aerc.Sync.Kinds.{kind_eq}
use beautiful_aerc.Sync.Push.{surfaceable, classify}
use beautiful_aerc.Sync.Flush.{Failing, Note, surfaced, recovered, flush_lines, report}

-- the results of syncs, the newest first
abbrev pub History : Type 0
History = List (ObjectKind × Option Err)

-- the class that a kind fails under by its last result that is not the end of the context
abbrev pub shown : ObjectKind → History → Option Class
shown k [] = none
shown k ((j, none) ∷ h) = let before = shown k h in if j == k then none else before
shown k ((j, some e) ∷ h) =
    let before = shown k h in if (j == k) && surfaceable e then some (classify e).0 else before

-- a kind comes to fail under a class, or is sound again
pub data News : Type 0 where
  fails : Class → News
  recovers : ObjectKind → News

abbrev pub told : Note → News
told (surfaced line) = fails line.class
told (recovered kind) = recovers kind

-- what a kind that was shown as the one and is shown as the other is told as
abbrev pub news : ObjectKind → Option Class → Option Class → List News
news kind none none = []
news kind (some b) none = recovers kind ∷ []
news kind none (some c) = fails c ∷ []
news kind (some b) (some c) = if same_class b c then [] else fails c ∷ []

abbrev pub Shows : Failing → History → Type 0
Shows s h = (k : ObjectKind) → lookup k s ≡ shown k h

same_class_self : (c : Class) → same_class c c ≡ true
same_class_self c = ground arith

news_same : (kind : ObjectKind) (o : Option Class) → ◌≡◌ {A = List News} [] (news kind o o)
news_same kind none = refl
news_same kind (some c) = ground (arith, same_class_self c)

flush_lines-news :
    (kind : ObjectKind) (prev : Option Class) (c : Class × Err)
    → map told (flush_lines prev c) ≡ news kind prev (some c.0)
flush_lines-news kind none c = refl
flush_lines-news kind (some p) c = ground arith

kind_self : (k : ObjectKind) → (k == k) ≡ true
kind_self message = refl
kind_self mailbox = refl
kind_self event = refl
kind_self contact = refl

missing :
    (kind k : ObjectKind) (s : Failing)
    → lookup kind s ≡ none
    → lookup k s ≡ (if kind == k then none else lookup k s)
missing kind k s e = elim (Bool-cases (kind == k)) [
  | inl same ↦ rw same (subst (λ z. lookup z s ≡ none) (==→≡ kind k same) e)
  | inr other ↦ rw other refl
]

pub Shows-report :
    (kind : ObjectKind) (r : Option Err) (s : Failing) (h : History)
    → Shows s h
    → Shows (report kind r s).0 ((kind, r) ∷ h)
unfolding report
Shows-report kind none s h q k = elim (Option-cases (lookup kind s)) [
  | inl sound ↦ rw (report, sound) (missing kind k s sound ∙ rw (q k) refl)
  | inr (was, e) ↦ rw (report, e) (lookup-erase kind k s ∙ rw (q k) refl)
]
Shows-report kind (some e) s h q k = elim (Bool-cases (surfaceable e)) [
  | inl plain ↦ rw plain (lookup-assign kind k (classify e).0 s ∙ rw (q k) (ground arith))
  | inr hidden ↦ rw hidden (q k ∙ ground arith)
]

shown_own :
    (kind : ObjectKind) (e : Err) (h : History)
    → surfaceable e ≡ true
    → shown kind ((kind, some e) ∷ h) ≡ some (classify e).0
shown_own kind e h plain = rw (plain, kind_self kind) refl

hidden_own :
    (kind : ObjectKind) (e : Err) (h : History)
    → surfaceable e ≡ false
    → shown kind ((kind, some e) ∷ h) ≡ shown kind h
hidden_own kind e h hidden = rw (hidden, kind_self kind) refl

report_hidden :
    (kind : ObjectKind) (e : Err) (s : Failing)
    → surfaceable e ≡ false
    → (report kind (some e) s).1 ≡ []
unfolding report
report_hidden kind e s hidden = rw hidden refl

report_surfaced :
    (kind : ObjectKind) (e : Err) (s : Failing)
    → surfaceable e ≡ true
    → (report kind (some e) s).1 ≡ flush_lines (lookup kind s) (classify e)
unfolding report
report_surfaced kind e s plain = rw plain refl

pub report-news :
    (kind : ObjectKind) (r : Option Err) (s : Failing) (h : History)
    → Shows s h
    → map told (report kind r s).1 ≡ news kind (shown kind h) (shown kind ((kind, r) ∷ h))
unfolding report
report-news kind none s h q =
    rw (shown, kind_self kind, sym (q kind))
      (elim (Option-cases (lookup kind s)) [
        | inl sound ↦ rw (report, sound) refl
        | inr (was, e) ↦ rw (report, e) refl
      ])
report-news kind (some e) s h q = elim (Bool-cases (surfaceable e)) [
  | inl plain ↦
      ap (map told) (report_surfaced kind e s plain)
      ∙ flush_lines-news kind (lookup kind s) (classify e)
      ∙ ap (λ z. news kind z (some (classify e).0)) (q kind)
      ∙ ap (λ z. news kind (shown kind h) z) (sym (shown_own kind e h plain))
  | inr hidden ↦
      ap (map told) (report_hidden kind e s hidden)
      ∙ news_same kind (shown kind h)
      ∙ ap (λ z. news kind (shown kind h) z) (sym (hidden_own kind e h hidden))
]
