-- ===== src/Api/Charts/RoundTrip.antt =====
-- The reference of a chart that the status of a HelmRelease stores, and the one that is read from it.
use Prim.Native.String.{String}
use text.Mathlib.TextLemmas.{nil-append, cons-append, append_assoc}
use helm_controller.Base.{
  ◌≡◌, refl, sym, ap, ◌∙◌, ◌<>◌, false, [], ◌∷◌, none, some, str_eq, eq_iff, arith, Bool-cases, inl,
  inr, Option-cases,
}
use helm_controller.Text.{has, split, trim_prefix, strip}
use helm_controller.Text.Laws.{split-lacks, split-append, strip-append, append-strip}
use helm_controller.Api.HelmRelease.{HelmReleaseStatus}
use helm_controller.Api.Charts.{
  HelmChartReference, reference_string, set_chart, has_chart, status_reference, parse_reference,
}

slash-append : (s : String) → "/" <> s ≡ String.◌∷◌ "/" s
slash-append s = cons-append "/" "" s ∙ ap (String.◌∷◌ "/") (nil-append s)

-- The parts of two texts that are joined by slashes.
split-slash_two :
    (a b : String)
    → has "/" a ≡ false
    → has "/" b ≡ false
    → split "/" (a <> ("/" <> b)) ≡ a ∷ b ∷ []
split-slash_two a b h k =
    rw (slash-append b) (split-append "/" a b h ∙ ap (λ parts. a ∷ parts) (split-lacks "/" b k))

split-slash_three :
    (a b c : String)
    → has "/" a ≡ false
    → has "/" b ≡ false
    → has "/" c ≡ false
    → split "/" (a <> ("/" <> (b <> ("/" <> c)))) ≡ a ∷ b ∷ c ∷ []
split-slash_three a b c h k l =
    rw (slash-append (b <> ("/" <> c)))
      (split-append "/" a _ h ∙ ap (λ parts. a ∷ parts) (split-slash_two b c k l))

helm-append : (s : String) → "HelmChart/" <> s ≡ "HelmChart" <> String.◌∷◌ "/" s
helm-append s = append_assoc "HelmChart" "/" s ∙ ap (λ t. "HelmChart" <> t) (slash-append s)

has_helm : has "/" "HelmChart" ≡ false
unfolding has
has_helm = refl

empty_reference : parse_reference (split "/" "") ≡ none
unfolding split parse_reference
empty_reference = refl

split-kind :
    (kind rest : String)
    → has "/" kind ≡ false
    → split "/" (kind <> ("/" <> rest)) ≡ kind ∷ split "/" rest
split-kind kind rest h = rw (slash-append rest) (split-append "/" kind rest h)

split-helm : (s : String) → split "/" ("HelmChart/" <> s) ≡ "HelmChart" ∷ split "/" s
split-helm s = rw (helm-append s) (split-append "/" "HelmChart" s has_helm)

-- Only the kind `HelmChart` is cut off.
strip-other_kind :
    (kind rest : String)
    → has "/" kind ≡ false
    → str_eq kind "HelmChart" ≡ false
    → strip "HelmChart/" (kind <> ("/" <> rest)) ≡ none
strip-other_kind kind rest h k = elim (Option-cases (strip "HelmChart/" (kind <> ("/" <> rest)))) [
  | inl e ↦ e
  | inr (t, e) ↦
      let same = ap (split "/") (append-strip "HelmChart/" (kind <> ("/" <> rest)) e) in
      absurd (ground (arith, same, split-kind kind rest h, split-helm t, eq_iff kind "HelmChart"))
]

trim-helm : (rest : String) → trim_prefix ("HelmChart" <> ("/" <> rest)) "HelmChart/" ≡ rest
unfolding trim_prefix
trim-helm rest = rw (← append_assoc "HelmChart" "/" rest) (rw (strip-append "HelmChart/" rest) refl)

trim-other_kind :
    (kind rest : String)
    → has "/" kind ≡ false
    → str_eq kind "HelmChart" ≡ false
    → trim_prefix (kind <> ("/" <> rest)) "HelmChart/" ≡ kind <> ("/" <> rest)
unfolding trim_prefix
trim-other_kind kind rest h k = rw (strip-other_kind kind rest h k) refl

-- An empty text has one part, and so no reference.
status_reference-split :
    (st : HelmReleaseStatus) → status_reference st ≡ parse_reference (split "/" st.helm_chart)
unfolding status_reference
status_reference-split st = elim (Bool-cases (str_eq st.helm_chart "")) [
  | inl e ↦ rw e (rw ((eq_iff st.helm_chart "").0 e) (sym empty_reference))
  | inr e ↦ rw e refl
]

pub no_chart_reference : (st : HelmReleaseStatus) → status_reference (set_chart none st) ≡ none
unfolding set_chart trim_prefix reference_string status_reference
no_chart_reference st = refl

pub no_chart : (st : HelmReleaseStatus) → has_chart (set_chart none st) ≡ false
unfolding set_chart trim_prefix reference_string has_chart
no_chart st = refl

-- What `SetChart` stores is read back, for every reference without slashes in its parts; a
-- reference without a chart, as it is stored, is no reference.
pub set_chart-status_reference :
    (ref : HelmChartReference) (st : HelmReleaseStatus)
    → has "/" ref.kind ≡ false
    → has "/" ref.namespace ≡ false
    → has "/" ref.name ≡ false
    → (status_reference (set_chart (some ref) st) ≡ some ref)
      × (status_reference (set_chart none st) ≡ none)
      × (has_chart (set_chart none st) ≡ false)
unfolding set_chart reference_string has_chart parse_reference
set_chart-status_reference ref st h k l = (
  status_reference-split (set_chart (some ref) st)
      ∙ elim (Bool-cases (str_eq ref.kind "HelmChart")) [
        | inl e ↦ rw ((eq_iff ref.kind "HelmChart").0 e) (
            rw (trim-helm (ref.namespace <> ("/" <> ref.name))) (
              rw (split-slash_two ref.namespace ref.name k l)
                (ground (arith, (eq_iff ref.kind "HelmChart").0 e))))
        | inr e ↦
            rw (trim-other_kind ref.kind (ref.namespace <> ("/" <> ref.name)) h e)
              (rw (split-slash_three ref.kind ref.namespace ref.name h k l) refl)
      ],
  no_chart_reference st,
  no_chart st,
)
