-- ===== src/Wait/Targets/Text.antt =====
-- A target is written as it is read.
use Prim.Native.Char.{Char, code}
use orchestrator_engine.Prelude.{
  String, ◌≡◌, refl, sym, ap, subst, ◌∙◌, inl, inr, true, false, Option, none, some, List, [], ◌∷◌,
  ◌++◌, ◌==◌, eqb, arith, Char-path, ◌≢◌, ◌↔◌, Bool-cases, eq_of_some, eq_of_test,
}
use orchestrator_engine.Lease.Stat.{chars, text}
use orchestrator_engine.Result.{Result, ok, err, bad_target, eq_of_ok}
use orchestrator_engine.Wait.Targets.{
  Kind, Target, with_front, partition, kind_named, target_of, from_parts, parse_target,
}

abbrev pub kind_text : Kind → String
kind_text Kind.worker = "worker"
kind_text Kind.check = "check"
kind_text Kind.ci = "ci"
kind_text Kind.pr = "pr"

abbrev pub colon : Char
colon = ":"

-- KIND:ID
abbrev pub target_text : Target → String
target_text t = text (chars (kind_text t.kind) ++ colon ∷ chars t.id)

pub text-chars : (s : String) → text (chars s) ≡ s
text-chars String.[] = refl
text-chars (String.◌∷◌ c s) = ap (String.◌∷◌ c) (text-chars s)

pub chars-text : (cs : List Char) → chars (text cs) ≡ cs
chars-text [] = refl
chars-text (c ∷ cs) = ap (◌∷◌ c) (chars-text cs)

partition-kind :
    (k : Kind) (id : List Char)
    → partition (chars (kind_text k) ++ colon ∷ id) ≡ some (chars (kind_text k), id)
unfolding partition with_front
partition-kind Kind.worker id = refl
partition-kind Kind.check id = refl
partition-kind Kind.ci id = refl
partition-kind Kind.pr id = refl

kind_named-kind_text : (k : Kind) → kind_named (text (chars (kind_text k))) ≡ some k
unfolding kind_named
kind_named-kind_text Kind.worker = refl
kind_named-kind_text Kind.check = refl
kind_named-kind_text Kind.ci = refl
kind_named-kind_text Kind.pr = refl

not_empty : (id : String) → id ≢ "" → (id == "") ≡ false
not_empty id h = elim (Bool-cases (id == "")) [
  | inl e ↦ absurd (h (eq_of_test id "" e))
  | inr e ↦ e
]

parse_target-target_text : (t : Target) → t.id ≢ "" → parse_target (target_text t) ≡ ok t
unfolding parse_target from_parts target_of
parse_target-target_text t h =
    rw
      (
        chars-text (chars (kind_text t.kind) ++ colon ∷ chars t.id),
        partition-kind t.kind (chars t.id),
        kind_named-kind_text t.kind,
        text-chars t.id,
        not_empty t.id h,
      )
      refl

-- The way back: only the text of a target is read as that target.
with_front-some :
    (c : Char) (o : Option (List Char × List Char)) (front back : List Char)
    → with_front c o ≡ some (front, back)
    → (rest : List Char) × (front ≡ c ∷ rest) × (o ≡ some (rest, back))
unfolding with_front
with_front-some c none front back e = cc
with_front-some c (some (rest, tail)) front back e = (rest, cc, cc)

partition-append :
    (cs front back : List Char) → partition cs ≡ some (front, back) → cs ≡ front ++ colon ∷ back
unfolding partition
partition-append [] front back e = cc
partition-append (c ∷ cs) front back e = elim (Bool-cases (eqb (code c) b':')) [
  | inl here ↦
      let is_colon = Char-path c colon (ground arith) in
      let split : ◌≡◌ {A = Option (List Char × List Char)} (some ([], cs)) (some (front, back)) =
        rw here at e in
      cc
  | inr later ↦
      let (rest, f, o) = with_front-some c _ front back (rw later at e) in
      rw f (ap (◌∷◌ c) (partition-append cs rest back o))
]

kind_named-text : (s : String) (k : Kind) → kind_named s ≡ some k → s ≡ kind_text k
unfolding kind_named
kind_named-text s k e = elim (Bool-cases (s == "worker")) [
  | inl a ↦ eq_of_test s "worker" a ∙ ap kind_text (eq_of_some (rw a at e))
  | inr a ↦ elim (Bool-cases (s == "check")) [
    | inl b ↦ eq_of_test s "check" b ∙ ap kind_text (eq_of_some (rw (a, b) at e))
    | inr b ↦ elim (Bool-cases (s == "ci")) [
      | inl c ↦ eq_of_test s "ci" c ∙ ap kind_text (eq_of_some (rw (a, b, c) at e))
      | inr c ↦ elim (Bool-cases (s == "pr")) [
        | inl d ↦ eq_of_test s "pr" d ∙ ap kind_text (eq_of_some (rw (a, b, c, d) at e))
        | inr d ↦ absurd (no_kind (rw (a, b, c, d) at e))
      ]
    ]
  ]
]
  where
    no_kind : ◌≡◌ {A = Option Kind} none (some k) → ⊥
    no_kind q = cc

target_of-ok :
    (o : Option Kind) (id : String) (t : Target)
    → target_of o id ≡ ok t
    → (o ≡ some t.kind) × (id ≡ t.id) × (t.id ≢ "")
unfolding target_of
target_of-ok none id t e = cc
target_of-ok (some k) id t e = elim (Bool-cases (id == "")) [
  | inl empty ↦ absurd (no_target (rw empty at e))
  | inr there ↦
      subst (λ (u : Target). (some k ≡ some u.kind) × (id ≡ u.id) × (u.id ≢ ""))
        (eq_of_ok (rw there at e)) (refl, refl, λ empty. differ there empty)
]
  where
    no_target : ◌≡◌ {A = Result Target} (err bad_target) (ok t) → ⊥
    no_target q = cc

    differ : (id == "") ≡ false → id ≡ "" → ⊥
    differ there empty = cc (there, subst (λ s. (s == "") ≡ true) (sym empty) refl)

from_parts-ok :
    (o : Option (List Char × List Char)) (t : Target)
    → from_parts o ≡ ok t
    → (t.id ≢ "") × (o ≡ some (chars (kind_text t.kind), chars t.id))
unfolding from_parts
from_parts-ok none t e = cc
from_parts-ok (some (k, id)) t e =
    let (kind, name, some_id) = target_of-ok _ _ t e in
    let front : k ≡ chars (kind_text t.kind) =
      sym (chars-text k) ∙ ap chars (kind_named-text (text k) t.kind kind) in
    let back : id ≡ chars t.id = sym (chars-text id) ∙ ap chars name in (some_id, cc)

-- A target is read from a text exactly when its identifier is not empty and the text is its kind,
-- a colon and that identifier.
pub parse_target_iff :
    (value : String) (t : Target)
    → (parse_target value ≡ ok t) ↔ ((t.id ≢ "") × (value ≡ target_text t))
unfolding parse_target
parse_target_iff value t = (
  λ e.
      let (some_id, parts) = from_parts-ok _ t e in
      (some_id, sym (text-chars value) ∙ ap text (partition-append _ _ _ parts)),
  λ (some_id, e). ap parse_target e ∙ parse_target-target_text t some_id,
)
