-- ===== src/Text/Laws.antt =====
-- Splitting a text and joining its parts again.
use Prim.Native.Char.{Char, code}
use Prim.Native.String.{String}
use text.Mathlib.TextEquality.{Char-path}
use text.Mathlib.TextLemmas.{nil-append, cons-append}
use helm_controller.Base.{
  ◌≡◌, refl, ap, ◌∙◌, sym, subst, All, ◌<>◌, false, List, [], ◌∷◌, some, arith, ◌==◌, Bool-cases,
  inl, inr,
}
use helm_controller.Text.{has, split, push_front, strip}

pub split-lacks : (sep : Char) (s : String) → has sep s ≡ false → split sep s ≡ s ∷ []
unfolding has split
split-lacks sep String.[] h = refl
split-lacks sep (String.◌∷◌ c s) h = ground (arith, split-lacks sep s)

pub split-append :
    (sep : Char) (s t : String)
    → has sep s ≡ false
    → split sep (s <> String.◌∷◌ sep t) ≡ s ∷ split sep t
unfolding has split
split-append sep String.[] t h = rw (nil-append (String.◌∷◌ sep t)) (ground arith)
split-append sep (String.◌∷◌ c s) t h =
    rw (cons-append c s (String.◌∷◌ sep t)) (ground (arith, split-append sep s t))

pub strip-append : (s t : String) → strip s (s <> t) ≡ some t
unfolding strip
strip-append String.[] t = rw (nil-append t) refl
strip-append (String.◌∷◌ c s) t = rw (cons-append c s t) (ground (arith, strip-append s t))

-- A text that is stripped starts with the prefix.
pub append-strip : (p s : String) {t : String} → strip p s ≡ some t → s ≡ p <> t
unfolding strip
append-strip String.[] s {t} h = rw (nil-append t) (ground arith)
append-strip (String.◌∷◌ p ps) String.[] h = ground arith
append-strip (String.◌∷◌ p ps) (String.◌∷◌ c s) {t} h =
    rw (cons-append p ps t) (ground (arith, append-strip ps s {t = t}, Char-path c p))

-- strings.Join, with a separator of one character.
abbrev pub join : Char → List String → String
join sep [] = ""
join sep (part ∷ []) = part
join sep (part ∷ other ∷ parts) = part <> String.◌∷◌ sep (join sep (other ∷ parts))

join-push_front :
    (sep c : Char) (parts : List String)
    → join sep (push_front c parts) ≡ String.◌∷◌ c (join sep parts)
join-push_front sep c [] = refl
join-push_front sep c (part ∷ []) = refl
join-push_front sep c (part ∷ other ∷ parts) = cons-append c part _

join-nil :
    (sep : Char) (parts : List String) (first : String) (more : List String)
    → parts ≡ first ∷ more
    → join sep ("" ∷ parts) ≡ String.◌∷◌ sep (join sep parts)
join-nil sep parts first more e = rw e (nil-append _)

split-nonempty :
    (sep : Char) (s : String)
    → (part : String) × (parts : List String) × (split sep s ≡ part ∷ parts)
unfolding split
split-nonempty sep String.[] = ("", [], refl)
split-nonempty sep (String.◌∷◌ c s) =
    let (part, parts, e) = split-nonempty sep s in
    elim (Bool-cases (code c == code sep)) [
      | inl h ↦ ("", split sep s, rw h refl)
      | inr h ↦ (String.◌∷◌ c part, parts, rw (h, e) refl)
    ]

join-split : (sep : Char) (s : String) → join sep (split sep s) ≡ s
unfolding split
join-split sep String.[] = refl
join-split sep (String.◌∷◌ c s) =
    let (part, parts, e) = split-nonempty sep s in
    elim (Bool-cases (code c == code sep)) [
      | inl h ↦
          ground
            (arith, h, join-nil sep (split sep s) part parts e, join-split sep s, Char-path c sep)
      | inr h ↦ rw h (join-push_front sep c (split sep s) ∙ ap (String.◌∷◌ c) (join-split sep s))
    ]

split-each_lacks : (sep : Char) (s : String) → All (λ part. has sep part ≡ false) (split sep s)
unfolding split has
split-each_lacks sep String.[] = (refl, tt)
split-each_lacks sep (String.◌∷◌ c s) =
    let (part, parts, e) = split-nonempty sep s in
    let h = subst (All (λ part. has sep part ≡ false)) e (split-each_lacks sep s) in
    elim (Bool-cases (code c == code sep)) [
      | inl d ↦ rw d (refl, split-each_lacks sep s)
      | inr d ↦ rw (d, e) (rw d (h.0), h.1)
    ]

-- A text of two parts.
pub split-two :
    (sep : Char) (s a b : String)
    → split sep s ≡ a ∷ b ∷ []
    → (s ≡ a <> String.◌∷◌ sep b) × (has sep a ≡ false) × (has sep b ≡ false)
split-two sep s a b h =
    let e = join-split sep s in
    let l = subst (All (λ part. has sep part ≡ false)) h (split-each_lacks sep s) in
    (sym (subst (λ parts. join sep parts ≡ s) h e), l.0, l.1.0)
