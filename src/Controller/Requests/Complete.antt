-- ===== src/Controller/Requests/Complete.antt =====
-- The requests that the change of a source makes.
use helm_controller.Base.{
  ◌≡◌, refl, ap, ◌∙◌, String, Bool, true, false, not, ◌&&◌, ◌||◌, List, [], ◌∷◌, some, map, str_eq,
  arith, if◌then◌else◌,
}
use helm_controller.Text.{has}
use helm_controller.Api.HelmRelease.{HelmRelease}
use helm_controller.External.Cluster.{ok}
use helm_controller.External.Platform.{
  Platform, Source, SourceKind, Artifact, helm_chart, oci_repository, external_artifact,
}
use helm_controller.Controller.Revision.{extract_digest}
use helm_controller.Controller.Requests.{
  Index, request_of, filter, source_index, source_key, is_ready_or_reconciling, sorted_requests,
  must_request, requests_of, requests_for_change,
}

abbrev pub any {ℓ} : {A : Type ℓ} → (A → Bool) → List A → Bool
any p [] = false
any p (x ∷ xs) = p x || any p xs

abbrev pub same_key : String × String → String × String → Bool
same_key (a, b) (c, d) = str_eq a c && str_eq b d

-- dependency.Sort gives the objects that it is given, in another order.
pub record SortLaws {P : Platform} (I : Index P) : Type 0 where
  pub any-sort :
      (p : HelmRelease → Bool) (objs sorted : List HelmRelease)
      → I.sort objs ≡ ok sorted
      → any p sorted ≡ any p objs

any-map {ℓ} :
    {A B : Type ℓ} (p : B → Bool) (f : A → B) (xs : List A)
    → any p (map f xs) ≡ any (λ x. p (f x)) xs
any-map p f [] = refl
any-map p f (x ∷ xs) = ap (λ b. p (f x) || b) (any-map p f xs)

any-filter {ℓ} :
    {A : Type ℓ} (p q : A → Bool) (xs : List A) → any p (filter q xs) ≡ any (λ x. p x && q x) xs
any-filter p q [] = refl
any-filter p q (x ∷ xs) = ground (arith, any-filter p q xs)

any-same {ℓ} :
    {A : Type ℓ} (p q : A → Bool) (xs : List A) → ((x : A) → p x ≡ q x) → any p xs ≡ any q xs
any-same p q [] h = refl
any-same p q (x ∷ xs) h = ground (arith, h x, any-same p q xs h)

module _ (P : Platform) (I : Index P) where
  -- The status records the artifact as the one that was attempted last.
  abbrev pub attempted : SourceKind → Artifact → HelmRelease → Bool
  attempted helm_chart artifact obj = I.has_revision artifact obj.status.last_attempted_revision
  attempted oci_repository artifact obj =
      str_eq (extract_digest artifact.revision) obj.status.last_attempted_revision_digest
  attempted external_artifact artifact obj =
      if has ":" artifact.revision
      then str_eq (extract_digest artifact.revision) obj.status.last_attempted_revision_digest
      else str_eq artifact.revision obj.status.last_attempted_revision

  -- The digest of the artifact can be read, where it is needed.
  abbrev pub is_readable : SourceKind → Artifact → Bool
  is_readable oci_repository artifact = not (str_eq (extract_digest artifact.revision) "")
  is_readable _ artifact = true

  -- The object neither is ready nor reconciles, or has not attempted the artifact.
  abbrev pub is_behind : SourceKind → Artifact → HelmRelease → Bool
  is_behind kind artifact obj =
      not (P.env.conditions.is_ready obj.status.conditions)
        && not (P.env.conditions.is_reconciling obj.status.conditions)
      || not (attempted kind artifact obj)

  abbrev pub is_requested : SourceKind → Artifact → String × String → HelmRelease → Bool
  is_requested kind artifact key obj =
      same_key key (request_of obj) && (is_readable kind artifact && is_behind kind artifact obj)

  must_request_lem :
      (kind : SourceKind) (artifact : Artifact) (obj : HelmRelease)
      → must_request P I kind artifact obj
        ≡ (is_readable kind artifact && is_behind kind artifact obj)
  unfolding must_request is_ready_or_reconciling
  must_request_lem helm_chart artifact obj = ground arith
  must_request_lem oci_repository artifact obj = ground arith
  must_request_lem external_artifact artifact obj = ground arith

  requests_for_change_sorted :
      (w : P.env.World) (src : Source) (artifact : Artifact) (objs sorted : List HelmRelease)
      → src.artifact ≡ some artifact
      → I.list w source_index (source_key P I src) ≡ ok objs
      → I.sort (filter (must_request P I src.kind artifact) objs) ≡ ok sorted
      → requests_for_change P I w src ≡ map request_of sorted
  unfolding requests_for_change requests_of sorted_requests
  requests_for_change_sorted w src artifact objs sorted a l s = ground (arith, a, l, s)

  -- When a source with an artifact changes, and the HelmReleases that are indexed by it can be listed
  -- and sorted, a request is made for exactly those among them that are not up to date: a HelmRelease
  -- that neither is ready nor reconciles, or that has not attempted the artifact, unless the digest of
  -- the artifact of an OCIRepository cannot be read.
  pub requests_for_change_lem :
      (laws : SortLaws I) (w : P.env.World) (src : Source) (artifact : Artifact)
      (objs sorted : List HelmRelease) (key : String × String)
      → src.artifact ≡ some artifact
      → I.list w source_index (source_key P I src) ≡ ok objs
      → I.sort (filter (must_request P I src.kind artifact) objs) ≡ ok sorted
      → any (same_key key) (requests_for_change P I w src)
        ≡ any (is_requested src.kind artifact key) objs
  requests_for_change_lem laws w src artifact objs sorted key a l s =
      let wanted : HelmRelease → Bool = λ obj. same_key key (request_of obj) in
      ap (any (same_key key)) (requests_for_change_sorted w src artifact objs sorted a l s)
      ∙ (any-map (same_key key) request_of sorted
          ∙ (laws.any-sort wanted (filter (must_request P I src.kind artifact) objs) sorted s
              ∙ (any-filter wanted (must_request P I src.kind artifact) objs
                  ∙ any-same (λ obj. wanted obj && must_request P I src.kind artifact obj)
                      (is_requested src.kind artifact key) objs
                      (λ obj. ap (λ b. wanted obj && b) (must_request_lem src.kind artifact obj)))))
