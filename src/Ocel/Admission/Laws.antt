-- ===== src/Ocel/Admission/Laws.antt =====
-- What the admitted command lines are.
use ex4pm.Text.{str_len, strip}
use ex4pm.Prelude.{
  String, ◌<>◌, refl, sym, ap, ◌∙◌, subst, ◌≡◌, ◌≢◌, ◌⊎◌, inl, inr, ◌↔◌, true, false, [], ok,
  ok-injective, from_bind, from_require, ok-bind, arith, eq_iff, ◌==◌, string_Eq, contains,
}
use text.Mathlib.TextLemmas.{cons-append}
use ex4pm.Regex.{fullmatch}
use ex4pm.Regex.Shapes.{Stretch, some_of-Matches, Matches-some_of, lit-Matches, Matches-lit}
use ex4pm.Regex.Whole.{OfLength, times-Matches, Matches-times, fullmatch_iff}
use ex4pm.Ocel.{Args}
use ex4pm.Ocel.Admission.{
  standings, authority_domains, is_part, repository_re, is_hex, sha_re, lower, require_nonempty,
  check_args,
}

-- Two parts with one slash between them, and no blanks in either
abbrev pub RepositoryName : String → Type 0
RepositoryName t =
    (owner : String) × (name : String) × Stretch is_part owner
    × Stretch is_part name
    × (t ≡ owner <> ("/" <> name))

repository_re_iff : (t : String) → (fullmatch repository_re t ≡ true) ↔ RepositoryName t
repository_re_iff t = (
  λ h.
      let (g, (t1, t2, g1, g2, first, (u1, u2, g3, g4, slash, second, t2_is, g2_is), t_is, g_is)) =
        (fullmatch_iff repository_re t).0 h in
      let (owner, no_groups) = some_of-Matches is_part t1 (t2 <> "") g1 first in
      let (u1_is, none_either) = lit-Matches "/" u1 (u2 <> "") g3 slash in
      let (name, and_none) = some_of-Matches is_part u2 "" g4 second in
      (t1, u2, owner, name, t_is ∙ ap (λ x. t1 <> x) (t2_is ∙ ap (λ x. x <> u2) u1_is)),
  λ (owner, name, first, second, t_is). (fullmatch_iff repository_re t).1 (
    [],
    (
      owner,
      "/" <> name,
      [],
      [],
      Matches-some_of is_part owner (("/" <> name) <> "") first,
      (
        "/",
        name,
        [],
        [],
        Matches-lit "/" (name <> ""),
        Matches-some_of is_part name "" second,
        refl,
        refl,
      ),
      t_is,
      refl,
    ),
  ),
)

-- 40 or 64 hexadecimal digits
abbrev pub SourceIdentity : String → Type 0
SourceIdentity t = OfLength 40 is_hex t ⊎ OfLength 64 is_hex t

sha_re_iff : (t : String) → (fullmatch sha_re t ≡ true) ↔ SourceIdentity t
sha_re_iff t = (
  λ h.
      let (g, m) = (fullmatch_iff sha_re t).0 h in
      elim m [
        | inl short ↦ inl (times-Matches 40 is_hex t "" g short).0
        | inr long ↦ inr (times-Matches 64 is_hex t "" g long).0
      ],
  λ h. elim h [
    | inl short ↦ (fullmatch_iff sha_re t).1 ([], inl (Matches-times 40 is_hex t "" short))
    | inr long ↦ (fullmatch_iff sha_re t).1 ([], inr (Matches-times 64 is_hex t "" long))
  ],
)

require_nonempty-eq-ok :
    (name text : String) {found : String}
    → require_nonempty name text ≡ ok found
    → (found ≡ strip text) × (found ≢ "")
unfolding require_nonempty
require_nonempty-eq-ok name text h = from_require _ _ _ h λ some_text h'.
    let same = ok-injective h' in (sym same, λ e. ground (arith, eq_iff (strip text) "", same, e))

nonempty_admitted :
    (name text found : String)
    → found ≡ strip text
    → found ≢ ""
    → require_nonempty name text ≡ ok found
unfolding require_nonempty
nonempty_admitted name text found same n =
    let full : (strip text == "") ≡ false = ground (arith, eq_iff (strip text) "", same, n) in
    rw (full, ok-bind, same)

-- The words of the command line, with the blanks around them removed and the identity in lower case,
-- none of them empty and each of its own form
pub record AdmittedArgs (args checked : Args) : Type 0 where
  standing : (checked.standing ≡ args.standing) × (contains standings checked.standing ≡ true)
  authority_domain :
      (checked.authority_domain ≡ args.authority_domain)
      × (contains authority_domains checked.authority_domain ≡ true)
  activity : (checked.activity ≡ strip args.activity) × (checked.activity ≢ "")
  agent_id : (checked.agent_id ≡ strip args.agent_id) × (checked.agent_id ≢ "")
  run_id : (checked.run_id ≡ strip args.run_id) × (checked.run_id ≢ "")
  sequence : (checked.sequence ≡ strip args.sequence) × (checked.sequence ≢ "")
  repo : (checked.repo ≡ strip args.repo) × RepositoryName checked.repo
  sha : (checked.sha ≡ lower (strip args.sha)) × SourceIdentity checked.sha
  receipt : checked.receipt ≡ args.receipt
  output : checked.output ≡ args.output

check_args-AdmittedArgs :
    (args checked : Args) → check_args args ≡ ok checked → AdmittedArgs args checked
unfolding check_args
check_args-AdmittedArgs args checked h = from_require _ _ _ h λ standing h.
    from_require _ _ _ h λ domain h. from_bind _ _ h λ activity p1 h.
      from_bind _ _ h λ agent_id p2 h. from_bind _ _ h λ run_id p3 h.
        from_bind _ _ h λ sequence p4 h. from_bind _ _ h λ repo p5 h. from_bind _ _ h λ sha p6 h.
          from_require _ _ _ h λ repo_form h. from_require _ _ _ h λ sha_form h.
            subst (AdmittedArgs args) (ok-injective h) (record {
              standing = (refl, standing);
              authority_domain = (refl, domain);
              activity = require_nonempty-eq-ok _ _ p1;
              agent_id = require_nonempty-eq-ok _ _ p2;
              run_id = require_nonempty-eq-ok _ _ p3;
              sequence = require_nonempty-eq-ok _ _ p4;
              repo = ((require_nonempty-eq-ok _ _ p5).0, (repository_re_iff _).0 repo_form);
              sha = (ap lower (require_nonempty-eq-ok _ _ p6).0, (sha_re_iff _).0 sha_form);
              receipt = refl;
              output = refl;
            })

RepositoryName-nonempty : (t : String) → RepositoryName t → t ≢ ""
RepositoryName-nonempty t (String.[], name, (every, n), second, t_is) e = n refl
RepositoryName-nonempty t (String.◌∷◌ c owner, name, first, second, t_is) e =
    let split : "" ≡ String.◌∷◌ c (owner <> ("/" <> name)) =
      sym e ∙ t_is ∙ cons-append c owner ("/" <> name) in
    absurd (cc)

SourceIdentity-nonempty : (s : String) → SourceIdentity (lower s) → s ≢ ""
unfolding lower str_len
SourceIdentity-nonempty s (inl (long, every)) e =
    absurd (omega (arith, sym (ap (λ x. str_len (lower x)) e) ∙ long))
SourceIdentity-nonempty s (inr (long, every)) e =
    absurd (omega (arith, sym (ap (λ x. str_len (lower x)) e) ∙ long))

AdmittedArgs-check_args :
    (args checked : Args) → AdmittedArgs args checked → check_args args ≡ ok checked
unfolding check_args
AdmittedArgs-check_args args checked v =
    let standing : contains standings args.standing ≡ true =
      subst (λ x. contains standings x ≡ true) v.standing.0 v.standing.1 in
    let domain : contains authority_domains args.authority_domain ≡ true =
      subst (λ x. contains authority_domains x ≡ true) v.authority_domain.0 v.authority_domain.1 in
    let repo =
      nonempty_admitted "repo" args.repo checked.repo v.repo.0
        (RepositoryName-nonempty _ v.repo.1) in
    let sha =
      nonempty_admitted "sha" args.sha (strip args.sha) refl
        (SourceIdentity-nonempty (strip args.sha) (subst SourceIdentity v.sha.0 v.sha.1)) in
    let sha_form : fullmatch sha_re (lower (strip args.sha)) ≡ true =
      subst (λ x. fullmatch sha_re x ≡ true) v.sha.0 ((sha_re_iff _).1 v.sha.1) in
    rw
      (
        standing,
        ok-bind,
        domain,
        ok-bind,
        nonempty_admitted "activity" args.activity checked.activity v.activity.0 v.activity.1,
        ok-bind,
        nonempty_admitted "agent-id" args.agent_id checked.agent_id v.agent_id.0 v.agent_id.1,
        ok-bind,
        nonempty_admitted "run-id" args.run_id checked.run_id v.run_id.0 v.run_id.1,
        ok-bind,
        nonempty_admitted "sequence" args.sequence checked.sequence v.sequence.0 v.sequence.1,
        ok-bind,
        repo,
        ok-bind,
        sha,
        ok-bind,
        (repository_re_iff _).1 v.repo.1,
        ok-bind,
        sha_form,
        ok-bind,
      )
      (λ i. ok (record {
        activity = checked.activity;
        standing = sym v.standing.0 i;
        authority_domain = sym v.authority_domain.0 i;
        agent_id = checked.agent_id;
        run_id = checked.run_id;
        sequence = checked.sequence;
        repo = checked.repo;
        sha = sym v.sha.0 i;
        receipt = sym v.receipt i;
        output = sym v.output i;
      }))

-- A command line is admitted just if its standing and its domain are among those listed, no word is
-- blank, the repository is two parts with one slash between them, and the revision is 40 or 64
-- hexadecimal digits; what goes on is then these words without the blanks around them, and the
-- revision in lower case.
pub check_args_iff :
    (args checked : Args) → (check_args args ≡ ok checked) ↔ AdmittedArgs args checked
check_args_iff args checked =
    (check_args-AdmittedArgs args checked, AdmittedArgs-check_args args checked)
