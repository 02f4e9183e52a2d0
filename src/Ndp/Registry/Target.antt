-- ===== src/Ndp/Registry/Target.antt =====
-- nps-ndp/src/registry.rs: which targets a NID stands for.
use nps_sdk_rust.Common.{
  ℕ, ◌≡◌, ◌↔◌, ◌⊎◌, inl, inr, refl, ap, sym, ◌∙◌, String, Bool, true, false, ◌&&◌, List, [], ◌∷◌,
  ◌++◌, Option, none, some, ◌==◌, codes, split, strip_prefix, split_once, join, All, arith,
  Bool-cases,
}
use nps_sdk_rust.Ncp.Preamble.{slice_eq, slice_eq_iff}
use nps_sdk_rust.Ndp.Registry.{path_matches, target_matches, parts_match, nwp_target_matches_nid}

-- No character of `s` is `sep`.
abbrev pub Free : ℕ → List ℕ → Type 0
Free sep = All (λ c. (c == sep) ≡ false)

split-Free : (sep : ℕ) (s : List ℕ) → Free sep s → split sep s ≡ s ∷ []
unfolding split
split-Free sep [] h = refl
split-Free sep (c ∷ s) (e, h) = rw (e, split-Free sep s h) refl

split-append :
    (sep : ℕ) (s t : List ℕ)
    → Free sep s
    → (sep == sep) ≡ true
    → split sep (s ++ (sep ∷ t)) ≡ s ∷ split sep t
unfolding split
split-append sep [] t h r = rw (r) refl
split-append sep (c ∷ s) t (e, h) r = rw (e, split-append sep s t h r) refl

split_once-append :
    (sep : ℕ) (s t : List ℕ)
    → Free sep s
    → (sep == sep) ≡ true
    → split_once sep (s ++ (sep ∷ t)) ≡ some (s, t)
unfolding split_once
split_once-append sep [] t h r = rw (r) refl
split_once-append sep (c ∷ s) t (e, h) r = rw (e, split_once-append sep s t h r) refl

-- `strip_prefix` finds what follows a prefix, and nothing else.
strip_prefix_iff : (p s rest : List ℕ) → (strip_prefix p s ≡ some rest) ↔ (s ≡ p ++ rest)
unfolding strip_prefix
strip_prefix_iff [] s rest = ground arith
strip_prefix_iff (c ∷ p) [] rest = ground arith
strip_prefix_iff (c ∷ p) (d ∷ s) rest = ground (arith, strip_prefix_iff p s rest)

-- The path is the NID's, or lies below it.
abbrev pub Under : List ℕ → List ℕ → Type 0
Under nid_path path =
    (path ≡ nid_path) ⊎ ((rest : List ℕ) × (path ≡ (nid_path ++ codes "/") ++ rest))

strips : Option (List ℕ) → Bool
strips none = false
strips (some rest) = true

strips_iff : (o : Option (List ℕ)) → (strips o ≡ true) ↔ ((rest : List ℕ) × (o ≡ some rest))
unfolding strips
strips_iff none = (λ h. cc, λ h. cc h.1)
strips_iff (some rest) = (λ _. (rest, refl), λ _. refl)

path_matches_iff :
    (path nid_path : List ℕ) → (path_matches path nid_path ≡ true) ↔ Under nid_path path
unfolding strips
path_matches_iff path nid_path =
    let o = strip_prefix (nid_path ++ codes "/") path in
    let same = slice_eq_iff path nid_path in
    let found = strips_iff o in
    (
      λ h. elim (Bool-cases (slice_eq path nid_path)) [
        | inl t ↦ inl (same.0 t)
        | inr t ↦
            let (rest, e) = found.0 (sym (rw (t) refl) ∙ h) in
            inr (rest, (strip_prefix_iff _ path rest).0 e)
      ],
      λ h. elim h [
        | inl e ↦ rw (same.1 e) refl
        | inr (rest, e) ↦ ground (arith, found.1 (rest, (strip_prefix_iff _ path rest).1 e))
      ],
    )

nid_parts :
    (host segment : List ℕ)
    → Free b':' host
    → Free b':' segment
    → split b':' (codes "urn:nps:node:" ++ (host ++ (b':' ∷ segment)))
      ≡ codes "urn" ∷ codes "nps" ∷ codes "node" ∷ host ∷ segment ∷ []
nid_parts host segment fh fs =
    split-append b':' (codes "urn") _ (refl, (refl, (refl, tt))) refl
    ∙ ap (λ l. codes "urn" ∷ l)
        (split-append b':' (codes "nps") _ (refl, (refl, (refl, tt))) refl
          ∙ ap (λ l. codes "nps" ∷ l)
              (split-append b':' (codes "node") _ (refl, (refl, (refl, (refl, tt)))) refl
                ∙ ap (λ l. codes "node" ∷ l)
                    (split-append b':' host segment fh refl
                      ∙ ap (λ l. host ∷ l) (split-Free b':' segment fs))))

both_iff : (s t : List ℕ) (b : Bool) → ((slice_eq s t && b) ≡ true) ↔ ((s ≡ t) × (b ≡ true))
both_iff s t b = ground (arith, slice_eq_iff s t)

-- The test on the split target.
authority_matches : List ℕ → List ℕ → Option (List ℕ × List ℕ) → Bool
authority_matches host segment none = false
authority_matches host segment (some (authority, path)) =
    slice_eq authority host && path_matches path segment

parts_match-authority :
    (target host segment rest : List ℕ)
    → strip_prefix (codes "nwp://") target ≡ some rest
    → parts_match (codes "urn" ∷ codes "nps" ∷ codes "node" ∷ host ∷ segment ∷ []) target
      ≡ authority_matches host segment (split_once b'/' rest)
unfolding slice_eq join authority_matches
parts_match-authority target host segment rest e = ap (target_matches host (segment ∷ [])) e

parts_match_iff :
    (parts : List (List ℕ)) (target host segment authority path : List ℕ)
    → parts ≡ codes "urn" ∷ codes "nps" ∷ codes "node" ∷ host ∷ segment ∷ []
    → target ≡ codes "nwp://" ++ (authority ++ (b'/' ∷ path))
    → Free b'/' authority
    → (parts_match parts target ≡ true) ↔ ((authority ≡ host) × Under segment path)
unfolding authority_matches
parts_match_iff parts target host segment authority path ep et fa =
    let rest = authority ++ (b'/' ∷ path) in
    let same : parts_match parts target ≡ slice_eq authority host && path_matches path segment =
      ap (λ p. parts_match p target) ep
      ∙ (parts_match-authority target host segment rest
            ((strip_prefix_iff (codes "nwp://") target rest).1 et)
          ∙ ap (authority_matches host segment) (split_once-append b'/' authority path fa refl)) in
    let both = both_iff authority host (path_matches path segment) in
    let under = path_matches_iff path segment in
    (
      λ h. (let q = both.0 (sym same ∙ h) in (q.0, under.0 q.1)),
      λ h. same ∙ both.1 (h.0, under.1 h.1),
    )

-- A NID `urn:nps:node:host:segment`, whose host and segment have no colon, stands for exactly those
-- targets `nwp://authority/path`, whose authority has no slash, that have its host for authority and
-- a path that is the segment or lies below it.
pub nwp_target_matches_nid_iff :
    (nid target : String) (host segment authority path : List ℕ)
    → Free b':' host
    → Free b':' segment
    → Free b'/' authority
    → codes nid ≡ codes "urn:nps:node:" ++ (host ++ (b':' ∷ segment))
    → codes target ≡ codes "nwp://" ++ (authority ++ (b'/' ∷ path))
    → (nwp_target_matches_nid nid target ≡ true) ↔ ((authority ≡ host) × Under segment path)
unfolding nwp_target_matches_nid
nwp_target_matches_nid_iff nid target host segment authority path fh fs fa en et =
    parts_match_iff (split b':' (codes nid)) (codes target) host segment authority path
      (ap (split b':') en ∙ nid_parts host segment fh fs) et fa
